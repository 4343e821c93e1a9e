-- ===== src/Orchestrator/Budget.antt =====
-- app/orchestrator/budget.py: the token budgets of a task and of a user.
use agentis_backend.Prelude.{
  ℕ, zero, suc, ◌+◌, Option, none, some, List, ◌==◌, ltb, if◌then◌else◌, update_where,
}
use agentis_backend.Config.{Settings}
use agentis_backend.Http.{Result, ok, err, budget_exceeded}
use agentis_backend.Auth.Model.{User, get_user}

-- An argument that is not given, or 0, stands for the setting.
abbrev pub or_setting : Option ℕ → ℕ → ℕ
or_setting none setting = setting
or_setting (some zero) setting = setting
or_setting (some (suc n)) setting = suc n

abbrev pub used_by : Option User → ℕ
used_by none = 0
used_by (some u) = u.token_used_this_month

-- check_budgets
unfoldable pub check_budgets :
    Settings
    → List User
    → (user_id task_tokens_so_far estimated_next : ℕ)
    → (per_task_budget user_monthly_budget : Option ℕ) → Result (Unit {0})
unfolding get_user
check_budgets cfg users user_id so_far next per_task monthly =
    if ltb (or_setting per_task cfg.token_budget_per_task) (so_far + next)
    then err (budget_exceeded "per_task")
    else if ltb (or_setting monthly cfg.token_budget_user_monthly)
        (used_by (get_user user_id users) + next)
    then err (budget_exceeded "user_monthly")
    else ok tt

-- record_usage
unfoldable pub record_usage : (user_id tokens : ℕ) → List User → List User
unfolding update_where
record_usage user_id tokens =
    update_where (λ u. u.id == user_id)
      (λ u. record u { token_used_this_month = u.token_used_this_month + tokens })
