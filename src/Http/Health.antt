-- ===== src/Http/Health.antt =====
-- backend/apps/core/health.py and the view of backend/apps/core/views.py. Whether the database and
-- Redis answered is an input.
use rhombus_ai.Base.{ℕ, String, Bool, List, [], ◌∷◌, all, str_eq, if◌then◌else◌}

abbrev pub healthy_text : String
healthy_text = "ok"

abbrev pub failed_text : String
failed_text = "error"

unfoldable pub check_database : Bool → String
check_database connected = if connected then healthy_text else failed_text

unfoldable pub check_redis : Bool → String
check_redis answered = if answered then healthy_text else failed_text

pub record Health : Type 0 where
  pub status : String
  pub db : String
  pub redis : String
  pub http_status : ℕ

unfoldable pub run_health_checks : Bool → Bool → List String
unfolding check_database check_redis
run_health_checks connected answered = check_database connected ∷ check_redis answered ∷ []

unfoldable pub health : Bool → Bool → Health
unfolding run_health_checks check_database check_redis
health connected answered =
    let healthy =
      all (λ result. str_eq result healthy_text) (run_health_checks connected answered) in
    record {
      status = if healthy then "ok" else "degraded";
      db = check_database connected;
      redis = check_redis answered;
      http_status = if healthy then 200 else 503;
    }
