-- ===== src/Tasks/Examples.antt =====
-- The theorems about the tasks at concrete inputs.
use agentis_backend.Prelude.{
  ◌≡◌, ◌∙◌, refl, true, none, some, List, [], ◌∷◌, ◌≤◌, arith, select, count,
}
use mathlib.Core.Quot
use agentis_backend.Tasks.Repository as Repo
use agentis_backend.Http.Rules.{Post}
use agentis_backend.Tasks.Repository.Owner.{IsOwnPage, list_tasks-IsOwnPage}
use agentis_backend.Tasks.Repository.Table.{Table, Swap, list_tasks-Table}
use agentis_backend.Config.{defaults}
use agentis_backend.Http.{ok, err, http}
use agentis_backend.Auth.Model.{User, user}
use agentis_backend.Sandbox.Sample.{docker}
use agentis_backend.Tasks.Schemas.{TaskCreate, to_response, not_found}
use agentis_backend.Tasks.Repository.{count_running_tasks}
use agentis_backend.Tasks.Api.{Backend, Services, create_task, get_task, cancel_task, stream_task}
use agentis_backend.Tasks.Api.Limits.{create_task_limit, stranger_not_found}
use agentis_backend.Tasks.Api.Cancel.{cancelled_at, cancel_task_idempotent}
use agentis_backend.Tasks.Model.{Task, running, completed}
use agentis_backend.Tasks.Repository.{admits, newest_first}
use agentis_backend.Tasks.Repository.Pages.{listing, follow, follow_complete}
use agentis_backend.Tasks.Sample.{letters, letters-IsFaithful, task, everything}

abbrev three : List Task
three = task 1 7 running ∷ task 2 7 completed ∷ task 3 8 running ∷ []

follow_complete_example :
    follow letters (λ goal words. true) everything 2 three 3 none
    ≡ listing (λ goal words. true) everything three
unfolding newest_first select admits
follow_complete_example =
    follow_complete letters 1000 10 (letters-IsFaithful 1000 10) (λ goal words. true) everything 1
      three
      (
        ((λ e. omega (arith, e)), ((λ e. omega (arith, e)), tt)),
        (((λ e. omega (arith, e)), tt), (tt, tt)),
      )
      (omega arith) 3 (omega arith)

abbrev services : Services
services = record {
  delay = λ id. ok tt;
  revoke = λ id. ok tt;
  docker = docker;
  cursor_text = letters;
  matches = λ goal words. true;
}

abbrev bob : User
bob = record {
  id = 7;
  email = "bob@example.org";
  name = none;
  password_hash = none;
  role = user;
  language = "en";
  token_used_this_month = 0;
  deleted_at = none;
}

abbrev backend : Backend
backend = record {
  tasks = three;
  events = record { steps = []; published = [] };
  queued = [];
  revoked = [];
  sandboxes = record { sessions = []; containers = [] };
}

abbrev body : TaskCreate
body = record {
  goal = "sum the numbers";
  language = none;
  max_iterations = none;
  allowed_tools = none;
  notify_webhook = none;
}

create_task_limit_example :
    count_running_tasks 7 (create_task defaults services 4 200 body bob backend).1.tasks ≤ 5
unfolding count_running_tasks count
create_task_limit_example =
    create_task_limit defaults services 7 4 200 body bob backend (omega arith)

stranger_not_found_example :
    (get_task defaults services 3 bob backend ≡ (err (http not_found), backend))
    × (stream_task defaults services 3 bob (some "2") [] backend ≡ (err (http not_found), backend))
    × (cancel_task defaults services 200 3 bob backend ≡ (err (http not_found), backend))
stranger_not_found_example =
    stranger_not_found defaults services 200 3 bob (some "2") [] backend refl refl

cancel_task_idempotent_example :
    let b' = (cancel_task defaults services 200 1 bob backend).1 in
    ((cancel_task defaults services 200 1 bob backend).0
      ≡ ok (to_response (cancelled_at 200 (task 1 7 running))))
    × (cancel_task defaults services 300 1 bob b'
        ≡ (ok (to_response (cancelled_at 200 (task 1 7 running))), b'))
unfolding select
cancel_task_idempotent_example =
    cancel_task_idempotent defaults services 200 300 1 bob (task 1 7 running) backend refl refl

-- The same rows in another order.
abbrev others : List Task
others = task 2 7 completed ∷ task 3 8 running ∷ task 1 7 running ∷ []

three-others : ◌≡◌ {A = Table} (Quot.mk three) (Quot.mk others)
three-others =
    Quot.sound (Swap.here (omega arith)) ∙ Quot.sound (Swap.there (Swap.here (omega arith)))

list_tasks-Table_example :
    Repo.list_tasks letters (λ goal words. true) everything none 2 three
    ≡ Repo.list_tasks letters (λ goal words. true) everything none 2 others
list_tasks-Table_example =
    list_tasks-Table letters (λ goal words. true) everything 2 none three others three-others

-- The first page, of one task, of those of user 7.
list_tasks-IsOwnPage_example : Post (IsOwnPage 7 1) (
    Repo.list_tasks letters
      (λ goal words. true)
      (record everything { owner = some 7 })
      none
      1
      three)
list_tasks-IsOwnPage_example =
    list_tasks-IsOwnPage letters 7 1 (λ goal words. true) (record everything { owner = some 7 })
      refl refl three none
