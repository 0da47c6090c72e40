-- ===== src/Data/Context.antt =====
-- services/data/mod.rs, apn.rs: the state of the data context, from its definition to its
-- activation. `DataService` borrows the device's network, on which its functions act.
use fibocom_cellular_rs.Prelude.{
  ℕ, zero, suc, Bool, true, false, not, ◌||◌, Option, none, some, List, [], ◌∷◌, ◌==◌,
  if◌then◌else◌,
}
use fibocom_cellular_rs.Command.{
  Bytes, Command, MobileControl, Psn, Functionality, ResetMode, PacketSwitchedParam,
  PacketSwitchedParamReq, PacketSwitchedNetworkDataParam, PacketSwitchedAction, ProtocolType,
  AuthenticationType, GprsAttachedState, PdpContextStatus, PdpContextState, PacketSwitchedParamReq,
  PacketSwitchedNetworkDataParam,
}
use fibocom_cellular_rs.Error.{DataError, NbError, data_of_network}
use fibocom_cellular_rs.Env.{Env, Duration}
use fibocom_cellular_rs.Effect.{M, ◌>>=◌, ◌>>◌, pure, throw, get, when, map_err, modify}
use fibocom_cellular_rs.BlockingTimer.{wait}
use fibocom_cellular_rs.Network.{Network, ContextState, context_state_eq, send_internal}
use fibocom_cellular_rs.Text.{string}
use fibocom_cellular_rs.Network.Urcs.{profile_id}

-- apn.rs
pub data Apn : Type 0 where
  given : Bytes → Apn
  automatic : Apn

pub record ApnInfo : Type 0 where
  pub apn : Apn
  pub user_name : Option Bytes
  pub password : Option Bytes

unfoldable pub new_apn_info : Bytes → ApnInfo
new_apn_info apn = record { apn = Apn.given apn; user_name = none; password = none }

-- CONTEXT_ID
abbrev pub context_id : ℕ
context_id = 1

-- "IP"
abbrev pub ip_type : Bytes
ip_type = b'I' ∷ b'P' ∷ []

-- Ipv4Addr::unspecified()
abbrev pub unspecified : Bytes
unspecified = 0 ∷ 0 ∷ 0 ∷ 0 ∷ []

abbrev pub set_context : {E : Type 0} → ContextState → M Network E (Unit {0})
set_context c = modify λ n. record n { context_state = c }

unfoldable pub is_attached : GprsAttachedState → Bool
is_attached GprsAttachedState.attached = true
is_attached GprsAttachedState.detached = false

unfoldable pub is_activated : PdpContextStatus → Bool
is_activated PdpContextStatus.activated = true
is_activated PdpContextStatus.deactivated = false

-- `find_map(..).unwrap_or(false)`: the first entry for the context decides.
unfoldable pub is_context_activated : ℕ → List PdpContextState → Bool
unfolding is_activated
is_context_activated cid [] = false
is_context_activated cid (state ∷ rest) =
    if state.cid == cid then is_activated state.status else is_context_activated cid rest

abbrev pub given_apn : Apn → Option Bytes
given_apn (Apn.given apn) = some apn
given_apn Apn.automatic = none

module _ (env : Env) where
  -- A command whose error becomes the data service's, and whose response is not used.
  abbrev pub run : Command → M Network DataError (Unit {0})
  run c = do _ ← map_err data_of_network (send_internal env c true); pure tt

  abbrev pub run_nb : Command → M Network (NbError DataError) (Unit {0})
  run_nb c = map_err NbError.other (run c)

  -- An automatic access point is left to the network.
  unfoldable pub define_apn : ℕ → Apn → M Network DataError (Unit {0})
  define_apn cid (Apn.given apn) =
      run (Command.psn (Psn.set_pdp_context_definition cid ip_type apn))
  define_apn cid Apn.automatic = pure tt

  -- Define a PDP context, with the radio off.
  unfoldable pub define_context : ℕ → ApnInfo → M Network DataError (Unit {0})
  unfolding context_state_eq
  define_context cid apn_info = do
    n ← get
    when (context_state_eq n.context_state ContextState.setup) (do
      run (
          Command.mobile_control (
            MobileControl.set_module_functionality Functionality.minimum
              (if env.sara_r5 then none else some ResetMode.dont_reset)))
      define_apn cid apn_info.apn
      run (
          Command.mobile_control
            (MobileControl.set_module_functionality Functionality.full (some ResetMode.dont_reset)))
      set_context ContextState.activating)

  -- The loop of `attach_network`, with `n` polls left.
  unfoldable pub poll_attached : ℕ → M Network (NbError DataError) (Unit {0})
  unfolding is_attached
  poll_attached zero = throw NbError.would_block
  poll_attached (suc n) = do
    reply ←
        map_err (λ e. NbError.other (data_of_network e))
          (send_internal env (Command.psn Psn.get_gprs_attached) true)
    if is_attached reply.state then pure tt else (do wait env (Duration.secs 1); poll_attached n)

  unfoldable pub attach_network : M Network (NbError DataError) (Unit {0})
  attach_network = poll_attached 10

  abbrev pub set_config : ℕ → PacketSwitchedParam → M Network (NbError DataError) (Unit {0})
  set_config profile param = run_nb (Command.psn (Psn.set_packet_switched_config profile param))

  -- The text becomes a string of that capacity.
  abbrev pub set_config_if :
      (profile capacity : ℕ)
      → (Bytes → PacketSwitchedParam)
      → Option Bytes
      → M Network (NbError DataError) (Unit {0})
  set_config_if profile capacity param none = pure tt
  set_config_if profile capacity param (some text) = do
    value ← string env capacity text
    set_config profile (param value)

  -- Activate context using AT+UPSD commands
  unfoldable pub activate_context_upsd : ℕ → ApnInfo → M Network (NbError DataError) (Unit {0})
  unfolding context_state_eq
  activate_context_upsd profile apn_info = do
    n ← get
    when (not (context_state_eq n.context_state ContextState.active)) (do
      data_ ←
          map_err (λ e. NbError.other (data_of_network e))
            (send_internal env
              (Command.psn (
                Psn.get_packet_switched_network_data profile
                  PacketSwitchedNetworkDataParam.psd_profile_status))
              true)
      when (data_.param_tag == 0) (do
        set_context ContextState.activating
        set_config_if profile 99 PacketSwitchedParam.apn (given_apn apn_info.apn)
        set_config_if profile 64 PacketSwitchedParam.username apn_info.user_name
        set_config_if profile 64 PacketSwitchedParam.password apn_info.password
        if env.sara_r5
            then (do
              set_config profile (PacketSwitchedParam.protocol_type ProtocolType.ipv4)
              set_config profile (PacketSwitchedParam.map_profile 1))
            else (do
              set_config profile (PacketSwitchedParam.ip_address unspecified)
              set_config profile (PacketSwitchedParam.authentication AuthenticationType.auto)
              set_config profile (PacketSwitchedParam.ip_address unspecified))
        run_nb (Command.psn (Psn.set_packet_switched_action profile PacketSwitchedAction.activate)))
      set_context ContextState.active)

  -- Map the profile onto the context if it is mapped elsewhere.
  unfoldable pub map_profile :
      ℕ → ℕ → PacketSwitchedParam → M Network (NbError DataError) (Unit {0})
  map_profile cid profile (PacketSwitchedParam.map_profile context) =
      when (not (context == cid)) (do
        set_config profile (PacketSwitchedParam.map_profile cid)
        run_nb (
            Command.psn (
              Psn.get_packet_switched_network_data profile
                PacketSwitchedNetworkDataParam.psd_profile_status)))
  map_profile cid profile _ = pure tt

  -- The part of `activate_context` for the modules with a packet switched profile.
  unfoldable pub activate_profile : ℕ → ℕ → M Network (NbError DataError) (Unit {0})
  activate_profile cid profile = do
    config ←
        map_err (λ e. NbError.other (data_of_network e))
          (send_internal env
            (Command.psn
              (Psn.get_packet_switched_config profile PacketSwitchedParamReq.map_profile))
            true)
    map_profile cid profile config.param
    data_ ←
        map_err (λ e. NbError.other (data_of_network e))
          (send_internal env
            (Command.psn (
              Psn.get_packet_switched_network_data profile
                PacketSwitchedNetworkDataParam.psd_profile_status))
            true)
    when (data_.param_tag == 0) (
        run_nb (Command.psn (Psn.set_packet_switched_action profile PacketSwitchedAction.activate)))

  -- Activate context using 3GPP commands
  unfoldable pub activate_context : ℕ → ℕ → M Network (NbError DataError) (Unit {0})
  unfolding context_state_eq is_context_activated
  activate_context cid profile = do
    n ← get
    when (not (context_state_eq n.context_state ContextState.active)) (do
      states ←
          map_err (λ e. NbError.other (data_of_network e))
            (send_internal env (Command.psn Psn.get_pdp_context_state) true)
      if is_context_activated cid states
          then (do
            when (not (env.sara_r4 || env.lara_r6)) (activate_profile cid profile)
            set_context ContextState.active)
          else (do
            run_nb (Command.psn (Psn.set_pdp_context_state PdpContextStatus.activated (some cid)))
            throw NbError.would_block))

  unfoldable pub connect : ApnInfo → M Network (NbError DataError) (Unit {0})
  unfolding context_state_eq
  connect apn_info = do
    n ← get
    when (not (context_state_eq n.context_state ContextState.active)) (do
      attach_network
      if env.upsd_context_activation
          then activate_context_upsd profile_id apn_info
          else activate_context context_id profile_id)
