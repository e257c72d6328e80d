-- ===== src/Server/Health.antt =====
-- driver/healthcheck/health.go, and the handler of `/health` in driver/controller.go over the one
-- check that the controller has (driver/health.go).
use csi_thalassa.Prelude.{ℕ, String, ◌≡◌, refl, ◌↔◌, List, [], ◌∷◌, arith, if◌then◌else◌}
use csi_thalassa.Exec.{Result, ok, err, failed, Exec}
use csi_thalassa.Iaas.{Cloud}
use csi_thalassa.Config.{check_health, health_filters}

pub record HealthCheck (State : Type 0) : Type 0 where
  pub name : String
  pub check : Exec State (Unit {0})

abbrev pub first_failure : Result (Unit {0}) → Result (Unit {0}) → Result (Unit {0})
first_failure (err e) r = err e
first_failure (ok _) r = r

module _ {State : Type 0} where
  -- `HealthChecker.Check`: the checks run as the goroutines of a group without a context, so that
  -- no failure stops another. The list has them in the order in which they run, one after the
  -- other.
  unfoldable pub check_all : List (HealthCheck State) → Exec State (Unit {0})
  check_all [] s = (ok tt, s)
  check_all (c ∷ checks) s =
      let (r, s') = c.check s in let (r', s'') = check_all checks s' in (first_failure r r', s'')

  -- The handler of `/health`: the status code of its answer.
  unfoldable pub serve_health : List (HealthCheck State) → Exec State ℕ
  unfolding check_all
  serve_health checks s =
      let (r, s') = check_all checks s in (ok (if failed r then 500 else 200), s')

  -- Every check passes in the state that those before it left.
  abbrev pub AllPass : List (HealthCheck State) → State → Type 0
  AllPass [] s = Unit {0}
  AllPass (c ∷ checks) s = ((c.check s).0 ≡ ok tt) × AllPass checks (c.check s).1

  -- The state that all of the checks leave.
  abbrev pub after_all : List (HealthCheck State) → State → State
  after_all [] s = s
  after_all (c ∷ checks) s = after_all checks (c.check s).1

  check_all-AllPass :
      (checks : List (HealthCheck State)) (s : State)
      → ((check_all checks s).0 ≡ ok tt) ↔ AllPass checks s
  unfolding check_all
  check_all-AllPass [] s = ground arith
  check_all-AllPass (c ∷ checks) s = ground (arith, check_all-AllPass checks (c.check s).1)

  check_all-after_all :
      (checks : List (HealthCheck State)) (s : State) → (check_all checks s).1 ≡ after_all checks s
  unfolding check_all
  check_all-after_all [] s = refl
  check_all-after_all (c ∷ checks) s = check_all-after_all checks (c.check s).1

  -- The health handler answers 200 exactly if every check passes, and no check is left out because
  -- another one failed.
  pub serve_health-AllPass :
      (checks : List (HealthCheck State)) (s : State)
      → (((serve_health checks s).0 ≡ ok 200) ↔ AllPass checks s)
        × ((serve_health checks s).1 ≡ after_all checks s)
  unfolding serve_health
  serve_health-AllPass checks s =
      (ground (arith, check_all-AllPass checks s), check_all-after_all checks s)

-- What NewDriver configures.
abbrev pub controller_checks : (c : Cloud) → String → List (HealthCheck c.State)
controller_checks c region = record { name = "thalassa"; check = check_health c region } ∷ []

-- The health handler of the controller answers 200 if the API lists the driver's region, or all of
-- them where it has none, and 500 if that call fails.
pub serve_health-list_regions :
    (c : Cloud) (region : String) (s : c.State)
    → let (r, s') = c.list_regions (health_filters region) s in
      serve_health (controller_checks c region) s ≡ (ok (if failed r then 500 else 200), s')
unfolding serve_health check_health
serve_health-list_regions c region s = ground arith
