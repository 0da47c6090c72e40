-- ===== src/Registration/Tests.antt =====
-- The theorems on registration.rs at concrete reports.
use fibocom_cellular_rs.Prelude.{◌≡◌, refl, [], ◌∷◌, true, not, ◌&&◌, ◌||◌, Option, some}
use fibocom_cellular_rs.Command.{RatAct}
use fibocom_cellular_rs.Error.{NetworkError}
use fibocom_cellular_rs.Registration.Domain.{Status, status_eq, sticky}
use fibocom_cellular_rs.Registration.Params.{RegType, RegistrationParams}
use fibocom_cellular_rs.Registration.State.{compare_and_set}
use fibocom_cellular_rs.Registration.Timing.{Reports, replay, newest, is_rising, sticky-replay}
use fibocom_cellular_rs.Registration.Update.{
  domain, domain_registered, compare_and_set-domain, compare_and_set-check_imsi,
}
use fibocom_cellular_rs.Samples.{dead_env, connected_status}

-- Registered at home at 5, and so again at 9.
abbrev at_home : Reports
at_home = (9, Status.home) ∷ (5, Status.home) ∷ (2, Status.searching) ∷ []

sticky-replay_example : sticky (replay at_home) ≡ true
unfolding newest status_eq is_rising
sticky-replay_example =
    sticky-replay 9 Status.home ((5, Status.home) ∷ (2, Status.searching) ∷ []) refl

-- The LTE domain reports that it has found a home network.
abbrev lte_home : RegistrationParams
lte_home = record {
  reg_type = RegType.cereg;
  status = Status.home;
  act = RatAct.unknown;
  cell_id = Option.none;
  lac = Option.none;
}

compare_and_set-domain_example :
    domain RegType.cereg
      (compare_and_set {E = NetworkError} dead_env lte_home connected_status []).1
    ≡ some (record { status = Status.home; updated = some 0; started = some 0 })
unfolding status_eq
compare_and_set-domain_example =
    compare_and_set-domain dead_env lte_home connected_status [] connected_status.eps refl

compare_and_set-check_imsi_example :
    (compare_and_set {E = NetworkError} dead_env lte_home connected_status []).1.check_imsi ≡ (
      connected_status.check_imsi
      || (not (domain_registered RegType.cereg connected_status)
          && domain_registered RegType.cereg
              (compare_and_set {E = NetworkError} dead_env lte_home connected_status []).1))
compare_and_set-check_imsi_example =
    compare_and_set-check_imsi dead_env lte_home connected_status []
