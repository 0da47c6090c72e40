-- ===== src/Device/Reaching/Spinning.antt =====
-- client.rs: initialization, events and `spin`.
use fibocom_cellular_rs.Prelude.{ℕ, zero, suc, Bool, Option, ◌⊎◌, inl, inr, ◌≡◌, ◌∷◌, arith}
use fibocom_cellular_rs.Command.{Command}
use fibocom_cellular_rs.Error.{NetworkError, GenericError}
use fibocom_cellular_rs.Env.{Env, Event, Log}
use fibocom_cellular_rs.Effect.{modify}
use fibocom_cellular_rs.Effect.Laws.{Keeps}
use fibocom_cellular_rs.Network.Reachable.{World}
use fibocom_cellular_rs.Network.Reaching.{process_events-IsReached}
use fibocom_cellular_rs.Sockets.{SocketSetOps}
use fibocom_cellular_rs.Device.State.{Device}
use fibocom_cellular_rs.Device.Setup.{
  send, poll_pin, select_sim_card, enable_registration_urcs, select_sim_slot, configure_line,
  recover_baud, clear_buffers, setup_at_commands, ensure_power, start_registration, initialize,
}
use fibocom_cellular_rs.Device.Spin.{
  handle_urc_internal, after_network_events, process_events, settle, spin,
}
use fibocom_cellular_rs.Device.Reaching.{
  IsDeviceInvariant, IsDeviceInvariant-Endures, device_rules, is_alive-Keeps, power_on-Keeps,
  hard_reset-Keeps, hard_power_off-Keeps,
}

module _ (env : Env) (from : World → Type 0) {S : Type 0} (P : Device S → Log → Type 0)
    (inv : IsDeviceInvariant env from P) where
  pub send-Keeps : (c : Command) (b : Bool) → Keeps P (send env {S = S} c b)
  unfolding send
  send-Keeps c b = search device_rules depth 40

  select_sim_slot-Keeps : Keeps P (select_sim_slot env {S = S})
  unfolding select_sim_slot
  select_sim_slot-Keeps = search (device_rules, send-Keeps) depth 40

  configure_line-Keeps : Keeps P (configure_line env {S = S})
  unfolding configure_line
  configure_line-Keeps = search (device_rules, send-Keeps) depth 40

  pub enable_registration_urcs-Keeps : Keeps P (enable_registration_urcs env {S = S})
  unfolding enable_registration_urcs
  enable_registration_urcs-Keeps = search (device_rules, send-Keeps) depth 60

  poll_pin-Keeps : (n : ℕ) → Keeps P (poll_pin env {S = S} n)
  unfolding poll_pin
  poll_pin-Keeps zero = search device_rules
  poll_pin-Keeps (suc n) = let ih = poll_pin-Keeps n in search device_rules depth 40

  pub select_sim_card-Keeps : Keeps P (select_sim_card env {S = S})
  unfolding select_sim_card
  select_sim_card-Keeps = search (device_rules, poll_pin-Keeps, send-Keeps) depth 40

  recover_baud-Keeps : Keeps P (recover_baud env {S = S})
  unfolding recover_baud
  recover_baud-Keeps = search (device_rules, hard_reset-Keeps, hard_power_off-Keeps) depth 40

  module _ {Sock : Type 0} (ops : SocketSetOps S Sock) where
    clear_buffers-Keeps : Keeps P (clear_buffers env ops)
    unfolding clear_buffers modify
    clear_buffers-Keeps = record { keeps = λ d l r. inv.socketed d _ l r }

    pub setup_at_commands-Keeps : Keeps P (setup_at_commands env ops)
    unfolding setup_at_commands
    setup_at_commands-Keeps =
        search
          (
            device_rules, clear_buffers-Keeps, power_on-Keeps, is_alive-Keeps, recover_baud-Keeps,
            select_sim_slot-Keeps, select_sim_card-Keeps, configure_line-Keeps,
          )
          depth 60

    ensure_power-Keeps : Keeps P (ensure_power env ops)
    unfolding ensure_power
    ensure_power-Keeps = search (device_rules, power_on-Keeps, hard_reset-Keeps) depth 60

    pub initialize-Keeps : Keeps P (start_registration env ops) → Keeps P (initialize env ops)
    unfolding initialize
    initialize-Keeps starts =
        search (device_rules, ensure_power-Keeps, setup_at_commands-Keeps) depth 60

    handle_urc_internal-sockets :
        (d : Device S) (l : Log)
        → ((handle_urc_internal env ops d l).1
            ≡ record d { sockets = (handle_urc_internal env ops d l).1.sockets })
          × (((handle_urc_internal env ops d l).2 ≡ l)
              ⊎ ((handle_urc_internal env ops d l).2 ≡ Event.device_urc_polled ∷ l))
    unfolding handle_urc_internal
    handle_urc_internal-sockets d l = (ground arith, ground arith)

    handle_urc_internal-Keeps : Keeps P (handle_urc_internal env ops)
    handle_urc_internal-Keeps = record {
      keeps = λ d l p.
          let same = handle_urc_internal-sockets d l in
          let polled =
            (IsDeviceInvariant-Endures env from inv).endures Event.device_urc_polled d l p in
          placed d same.0 p polled same.1;
    }
      where
        placed :
            (d : Device S) {d' : Device S} {o : Option S} {l l' : Log} {e : Event}
            → d' ≡ record d { sockets = o }
            → P d l
            → P d (e ∷ l)
            → ((l' ≡ l) ⊎ (l' ≡ e ∷ l))
            → P d' l'
        placed d {o = o} {l = l} h p p' (inl k) = rw (h, k) (inv.socketed d o l p)
        placed d {o = o} {l = l} {e = e} h p p' (inr k) = rw (h, k) (inv.socketed d o (e ∷ l) p')

    after_network_events-Keeps : (e : NetworkError) → Keeps P (after_network_events env ops e)
    unfolding after_network_events
    after_network_events-Keeps (NetworkError.generic GenericError.timeout) =
        search (device_rules, hard_reset-Keeps) depth 60
    after_network_events-Keeps e = search device_rules depth 60

    process_events-Keeps : Keeps P (process_events env ops)
    unfolding process_events
    process_events-Keeps =
        search
          (
            device_rules, handle_urc_internal-Keeps, process_events-IsReached,
            after_network_events-Keeps,
          )
          depth 60

    settle-Keeps : Keeps P (settle env ops)
    unfolding settle
    settle-Keeps = search device_rules depth 60

    pub spin-Keeps : Keeps P (start_registration env ops) → Keeps P (spin env ops)
    unfolding spin
    spin-Keeps starts =
        search (device_rules, initialize-Keeps, process_events-Keeps, settle-Keeps) depth 60
