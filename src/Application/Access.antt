-- ===== src/Application/Access.antt =====
-- Who is served by the endpoints that depend on get_current_user.
use agentis_backend.Prelude.{◌≡◌, ◌⊎◌}
use agentis_backend.Database.{Session}
use agentis_backend.Http.{Result, ok, err, Exec}
use agentis_backend.Auth.Model.{User, AuthDb}
use agentis_backend.Application.{Deployment, App, Served, opened, ended}
use agentis_backend.Application.Presented.{Presents, IsRefusal}
use agentis_backend.Application.Requests.{Credentials, Chance, Reply}

abbrev pub Refused : Result Reply → Type 0
Refused (ok reply) = ⊥
Refused (err e) = IsRefusal e

module _ (d : Deployment) (c : Chance) (creds : Credentials) (app : App) where
  -- The endpoint answers: it runs for the user of the credentials, on the tables as they were, and what the
  -- request gives and leaves is what it gives and leaves.
  abbrev pub Answers : (User → Exec Served Reply) → Result Reply × App → Type 0
  Answers answer out =
      (u : User) × (s : Session AuthDb) × Presents d.platform c.now creds app.auth u
      × (s.stored ≡ app.auth)
      × (out ≡ ended (answer u (record (opened app) { auth = s })))

  abbrev AnswersOrRefuses : (User → Exec Served Reply) → Result Reply × App → Type 0
  AnswersOrRefuses answer out = Answers answer out ⊎ (Refused out.0 × (out.1 ≡ app))
