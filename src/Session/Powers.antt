-- ===== src/Session/Powers.antt =====
-- power.rs, client.rs: the calls of a device that no other call makes.
use fibocom_cellular_rs.Prelude.{ℕ, false}
use fibocom_cellular_rs.Command.{
  Command, SystemFeatures, FsFactoryRestoreType, NvmFactoryRestoreType, MobileControl,
  NetworkService,
}
use fibocom_cellular_rs.Env.{Env, Log}
use fibocom_cellular_rs.Effect.Laws.{Keeps}
use fibocom_cellular_rs.Network.Reachable.{World}
use fibocom_cellular_rs.Network.Reaching.{send_internal-IsReached}
use fibocom_cellular_rs.Sockets.{SocketSetOps}
use fibocom_cellular_rs.Device.State.{Device}
use fibocom_cellular_rs.Device.Power.{factory_reset, soft_power_off}
use fibocom_cellular_rs.Device.Spin.{send_at, signal_strength}
use fibocom_cellular_rs.Device.Reaching.{
  IsDeviceInvariant, device_rules, soft_reset-Keeps, hard_reset-Keeps,
}

module _ (env : Env) (from : World → Type 0) {S : Type 0} (P : Device S → Log → Type 0)
    (inv : IsDeviceInvariant env from P) where
  pub factory_reset-Keeps : (fuel : ℕ) → Keeps P (factory_reset env {S = S} fuel)
  unfolding factory_reset
  factory_reset-Keeps fuel =
      let restore = λ (f : FsFactoryRestoreType) (n : NvmFactoryRestoreType).
        send_internal-IsReached env from
          (Command.system_features (SystemFeatures.set_factory_configuration f n)) false in
      search (device_rules, soft_reset-Keeps, hard_reset-Keeps, restore) depth 60

  pub soft_power_off-Keeps : Keeps P (soft_power_off env {S = S})
  unfolding soft_power_off
  soft_power_off-Keeps =
      let off =
        send_internal-IsReached env from (Command.mobile_control MobileControl.module_switch_off) in
      search (device_rules, off) depth 60

  module _ {Sock : Type 0} (ops : SocketSetOps S Sock) where
    pub send_at-Keeps : (c : Command) → Keeps P (send_at env ops c)
    unfolding send_at
    send_at-Keeps c = search device_rules depth 60

    pub signal_strength-Keeps : Keeps P (signal_strength env ops)
    unfolding signal_strength
    signal_strength-Keeps =
        send_at-Keeps (Command.network_service NetworkService.get_signal_quality)
