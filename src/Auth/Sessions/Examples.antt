-- ===== src/Auth/Sessions/Examples.antt =====
-- The theorem about the sessions at a concrete input.
use agentis_backend.Prelude.{select, some, ◌≡◌, true, refl}
use agentis_backend.Config.{defaults}
use agentis_backend.Http.{◌>>=◌}
use agentis_backend.Auth.Refresh.{refresh}
use agentis_backend.Auth.Model.{get_user}
use agentis_backend.Auth.Sample.{lib, db}
use agentis_backend.Auth.Sessions.{Call, refreshing, run}
use agentis_backend.Auth.Sessions.Steps.{Refines}
use agentis_backend.Auth.Sessions.Refinement.{run_refines}

abbrev exchange : Call
exchange = refreshing 10 3 "new" (some "live")

exchange_succeeds : (run defaults lib exchange db).0 ≡ true
unfolding run refresh get_user ◌>>=◌ select
exchange_succeeds = refl

run_refines_example : Refines defaults lib exchange db (run defaults lib exchange db)
run_refines_example = run_refines defaults lib exchange db
