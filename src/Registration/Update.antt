-- ===== src/Registration/Update.antt =====
-- registration.rs: what a report does to the registration state.
use fibocom_cellular_rs.Prelude.{
  Bool, false, not, ◌&&◌, ◌||◌, Option, none, some, ◌≡◌, ◌≢◌, arith, if◌then◌else◌,
}
use fibocom_cellular_rs.Env.{Env, Log}
use fibocom_cellular_rs.Effect.{combinators, ok}
use fibocom_cellular_rs.Error.{NetworkError}
use fibocom_cellular_rs.Registration.Domain.{
  status_eq, CellularRegistrationStatus, set_status, registered,
}
use fibocom_cellular_rs.Registration.Params.{RegType, RegistrationParams}
use fibocom_cellular_rs.Registration.State.{RegistrationState, set_cgi, compare_and_set}

-- The status that reports of a kind go to; reports of an unknown kind go nowhere.
abbrev pub domain : RegType → RegistrationState → Option CellularRegistrationStatus
domain RegType.creg s = some s.csd
domain RegType.cgreg s = some s.psd
domain RegType.cereg s = some s.eps
domain RegType.unknown s = none

-- Whether the domain of a kind is registered.
abbrev pub domain_registered : RegType → RegistrationState → Bool
domain_registered kind s = elim (domain kind s) [ none ↦ false | some c ↦ registered c ]

-- A report of a known kind gives its domain the reported status at the time of the clock, and
-- a new time of start only if the status differs from the one before.
pub compare_and_set-domain :
    (env : Env) (p : RegistrationParams) (s : RegistrationState) (l : Log)
    (c : CellularRegistrationStatus)
    → domain p.reg_type s ≡ some c
    → domain p.reg_type (compare_and_set {E = NetworkError} env p s l).1
      ≡ some (record {
        status = p.status;
        updated = some (env.now l);
        started = if status_eq c.status p.status then c.started else some (env.now l);
      })
unfolding combinators compare_and_set set_cgi set_status
compare_and_set-domain env p s l c h = ground arith

-- Whatever a report is, it touches the status of no other domain, nor the connection state, the
-- times of the checks and the interventions, and it fails for no state; one of an unknown kind
-- changes nothing and reads no clock.
pub compare_and_set-frame :
    (env : Env) (p : RegistrationParams) (s : RegistrationState) (l : Log)
    → ((compare_and_set {E = NetworkError} env p s l).0 ≡ ok tt)
      × ((kind : RegType)
          → kind ≢ p.reg_type
          → domain kind (compare_and_set {E = NetworkError} env p s l).1 ≡ domain kind s)
      × ((compare_and_set {E = NetworkError} env p s l).1.conn_state ≡ s.conn_state)
      × ((compare_and_set {E = NetworkError} env p s l).1.reg_check_time ≡ s.reg_check_time)
      × ((compare_and_set {E = NetworkError} env p s l).1.reg_start_time ≡ s.reg_start_time)
      × ((compare_and_set {E = NetworkError} env p s l).1.registration_interventions
          ≡ s.registration_interventions)
      × (p.reg_type ≡ RegType.unknown
          → compare_and_set {E = NetworkError} env p s l ≡ (ok tt, s, l))
unfolding combinators compare_and_set set_cgi
compare_and_set-frame env p s l = (
  ground arith,
  λ kind h. ground arith,
  ground arith,
  ground arith,
  ground arith,
  ground arith,
  λ h. ground arith,
)

-- The IMSI is to be checked after a report exactly if it was to be before, or if the report has
-- made an unregistered domain registered.
pub compare_and_set-check_imsi :
    (env : Env) (p : RegistrationParams) (s : RegistrationState) (l : Log)
    → (compare_and_set {E = NetworkError} env p s l).1.check_imsi ≡ (
        s.check_imsi
        || (not (domain_registered p.reg_type s)
            && domain_registered p.reg_type (compare_and_set {E = NetworkError} env p s l).1))
unfolding combinators compare_and_set set_cgi
compare_and_set-check_imsi env p s l = ground arith
