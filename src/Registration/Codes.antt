-- ===== src/Registration/Codes.antt =====
-- registration.rs and command/network_service/impl_.rs: the registration codes.
use fibocom_cellular_rs.Prelude.{Bool, true, false, ◌≡◌, arith, ◌⊎◌, inl, inr, ◌↔◌, ap}
use fibocom_cellular_rs.Error.{NetworkError}
use fibocom_cellular_rs.Command.{
  NetworkRegistrationStat, GprsNetworkRegistrationStat, EpsNetworkRegistrationStat,
  network_stat_code, gprs_stat_code, eps_stat_code,
}
use fibocom_cellular_rs.Registration.Domain.{Status, status_of_code, is_registered}
use fibocom_cellular_rs.Registration.Params.{
  RegType, RadioAccessNetwork, reg_type_of_ran, ran_of_reg_type, ran_of_usize, ran_code,
  status_of_creg, status_of_cgreg, status_of_cereg,
}

-- A network type survives its code and its kind of report, and a kind of report its network type.
pub ran_of_usize-ran_code :
    ((ran : RadioAccessNetwork)
      → (ran_of_usize (ran_code ran) ≡ ran) × (ran_of_reg_type (reg_type_of_ran ran) ≡ ran))
    × ((kind : RegType) → reg_type_of_ran (ran_of_reg_type kind) ≡ kind)
unfolding ran_of_usize ran_code ran_of_reg_type reg_type_of_ran
ran_of_usize-ran_code = (λ ran. ground arith, λ kind. ground arith)

-- NetworkRegistrationStat::is_access_alive
unfoldable pub is_access_alive : NetworkRegistrationStat → Bool
is_access_alive NetworkRegistrationStat.registered = true
is_access_alive NetworkRegistrationStat.registered_roaming = true
is_access_alive _ = false

-- NetworkRegistrationStat::registration_ok
unfoldable pub registration_ok : NetworkRegistrationStat → NetworkError ⊎ NetworkRegistrationStat
registration_ok NetworkRegistrationStat.registration_denied = inl NetworkError.registration_denied
registration_ok v = inr v

-- A CREG report counts as registered exactly if its access is alive, and as denied exactly if
-- `registration_ok` refuses it.
pub status_of_creg-is_access_alive :
    (v : NetworkRegistrationStat)
    → (is_registered (status_of_creg v) ≡ is_access_alive v)
      × ((registration_ok v ≡ inl NetworkError.registration_denied)
          ↔ (status_of_creg v ≡ Status.denied))
unfolding is_registered status_of_creg is_access_alive registration_ok
status_of_creg-is_access_alive v = (ground arith, ground arith)

-- Two reports with the same code count alike, whichever of the three kinds they are.
pub status_of_creg_agrees :
    ((v : NetworkRegistrationStat) (w : GprsNetworkRegistrationStat)
      → network_stat_code v ≡ gprs_stat_code w
      → status_of_creg v ≡ status_of_cgreg w)
    × ((v : GprsNetworkRegistrationStat) (w : EpsNetworkRegistrationStat)
        → gprs_stat_code v ≡ eps_stat_code w
        → status_of_cgreg v ≡ status_of_cereg w)
unfolding status_of_creg status_of_cgreg status_of_cereg
status_of_creg_agrees = (λ v w h. ap status_of_code h, λ v w h. ap status_of_code h)
