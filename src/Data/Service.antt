-- ===== src/Data/Service.antt =====
-- services/data/mod.rs: `DataService::try_new` and `Device::data_service`.
use fibocom_cellular_rs.Prelude.{Bool, true, false, none, some, ◌∷◌, if◌then◌else◌}
use fibocom_cellular_rs.Error.{DataError, DeviceError, NbError, device_of_data, data_of_network}
use fibocom_cellular_rs.Command.{Command, Response, Urc}
use fibocom_cellular_rs.Env.{Env, Event}
use fibocom_cellular_rs.Network.{send_internal}
use fibocom_cellular_rs.Effect.{
  either, M, ok, ◌>>=◌, ◌>>◌, pure, throw, get, when, attempt, map_err,
}
use fibocom_cellular_rs.Sockets.{SocketSetOps}
use fibocom_cellular_rs.Device.State.{Device, on_network}
use fibocom_cellular_rs.Device.Spin.{spin}
use fibocom_cellular_rs.Data.Context.{ApnInfo, context_id, define_context, connect}
use fibocom_cellular_rs.Data.Ingress.{DataService, on_service_network, socket_ingress_all}

-- The device's network and sockets, lent to a data service.
unfoldable pub on_service : {S E A : Type 0} → M (DataService S) E A → M (Device S) E A
on_service m d l =
    let r = m (record { network = d.network; sockets = d.sockets }) l in
    (r.0, record d { network = r.1.network; sockets = r.1.sockets }, r.2)

abbrev pub nb_device_of_data : NbError DataError → NbError DeviceError
nb_device_of_data (NbError.other e) = NbError.other (device_of_data e)
nb_device_of_data NbError.would_block = NbError.would_block

abbrev has_sockets : {S : Type 0} → DataService S → Bool
has_sockets d = elim d.sockets [ none ↦ false | some _ ↦ true ]

module _ (env : Env) {S Sock : Type 0} (ops : SocketSetOps S Sock) where
  unfoldable pub try_new : ApnInfo → M (DataService S) (NbError DataError) (Unit {0})
  try_new apn_info = do
    on_service_network (connect env apn_info)
    d ← get
    when (has_sockets d) (map_err NbError.other (socket_ingress_all env ops))

  -- Left out of a build with `upsd-context-activation`.
  unfoldable pub define : ApnInfo → M (Device S) (NbError DeviceError) (Unit {0})
  define apn_info =
      if env.upsd_context_activation
      then pure tt
      else map_err (λ e. NbError.other (device_of_data e))
          (on_network (define_context env context_id apn_info))

  -- What `data_service` does next, by what `spin` returned.
  unfoldable pub after_spin :
      ApnInfo → NbError DeviceError → M (Device S) (NbError DeviceError) (Unit {0})
  after_spin apn_info NbError.would_block = do define apn_info; throw NbError.would_block
  after_spin apn_info (NbError.other e) = throw (NbError.other e)

  -- The service itself is the part of the device that `on_service` lends.
  unfoldable pub data_service : ApnInfo → M (Device S) (NbError DeviceError) (Unit {0})
  data_service apn_info = do
    spun ← attempt (spin env ops)
    either (after_spin apn_info)
        (λ _. do define apn_info; map_err nb_device_of_data (on_service (try_new apn_info))) spun

-- DataService::send_at
unfoldable pub send_at :
    {S : Type 0} → Env → (c : Command) → M (DataService S) DataError (Response c)
send_at env c = map_err data_of_network (on_service_network (send_internal env c true))

-- DataService::handle_urc: the caller's closure `f`, which may change what it has captured, here of
-- type `X`, is given the next message if there is one. What it returns is dropped.
unfoldable pub handle_urc :
    {S X : Type 0} → Env → (Urc → X → Bool × X) → X → M (DataService S) DataError X
handle_urc env f captured d l = elim (env.network_urc l) [
  | none ↦ (ok captured, d, Event.network_urc_polled ∷ l)
  | some urc ↦ (ok (f urc captured).1, d, Event.network_urc_polled ∷ l)
]
