-- ===== src/Sandbox/Sample.antt =====
-- A docker for the tests, whose containers are ready at the third request.
use agentis_backend.Prelude.{◌*◌, true, [], ◌∷◌, ◌==◌}
use agentis_backend.Http.{ok}
use agentis_backend.Sandbox.{Docker}

abbrev pub docker : Docker
docker = record {
  task_text = λ n. "t";
  run = λ spec. ok "c1";
  reload = λ id. ok (("agentis_default", "10.0.0.2") ∷ []);
  remove = λ id. true;
  healthy = λ endpoint n. n == 3;
  clock = λ n. n * 500;
}
