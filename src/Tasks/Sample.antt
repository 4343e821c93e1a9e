-- ===== src/Tasks/Sample.antt =====
-- Small inputs for the tests of the tasks: numbers as strings of one letter, and tasks.
use Prim.Native.Char.{Char, code}
use Prim.Native.String.{[], ◌∷◌}
use Prim.Native.String.compare.{cons-nil}
use text.Mathlib.TextLemmas.{nil-append, cons-append}
use agentis_backend.Prelude.{
  ℕ, zero, suc, String, ◌≡◌, refl, ap, ◌∙◌, Bool, true, false, Option, none, some, List, ◌==◌, ◌+◌,
  if◌then◌else◌, arith,
}
use agentis_backend.Prelude as P
use agentis_backend.PyText.{is_empty, ◌⧺◌}
use agentis_backend.Orchestrator.State.{pos}
use agentis_backend.Tasks.Model.{Task, TaskStatus}
use agentis_backend.Tasks.Repository.{Filters}
use agentis_backend.Tasks.Cursor.{CursorText}
use agentis_backend.Tasks.Repository.Pages.{IsFaithful}

pub unary : ℕ → String
unary zero = []
unary (suc n) = "a" ∷ unary n

pub value : String → Option ℕ
value [] = some 0
value (c ∷ s) = elim (value s) [ none ↦ none | some n ↦ some (suc n) ]

abbrev push : Char → List String → List String
push c P.[] = P.[]
push c (P.◌∷◌ x xs) = P.◌∷◌ (c ∷ x) xs

pub split : String → List String
split [] = P.◌∷◌ [] P.[]
split (c ∷ s) = if code c == b'|' then P.◌∷◌ [] (split s) else push c (split s)

abbrev one_less : Option ℕ → Option ℕ
one_less none = none
one_less (some zero) = none
one_less (some (suc n)) = some n

abbrev pub letters : CursorText
letters = record {
  isoformat = λ t. unary (suc t);
  fromisoformat = λ s. one_less (value s);
  uuid_str = unary;
  uuid_parse = value;
  b64encode = λ s. s;
  b64decode = λ s. some s;
  split_bar = split;
}

value-unary : (n : ℕ) → value (unary n) ≡ some n
unfolding value unary
value-unary zero = refl
value-unary (suc n) = rw (value-unary n, value)

split-unary : (n : ℕ) → split (unary n) ≡ P.◌∷◌ (unary n) P.[]
unfolding split unary
split-unary zero = refl
split-unary (suc n) = rw (split-unary n)

split-bar : (t n : ℕ) → split (unary t ⧺ "|" ⧺ unary n) ≡ P.◌∷◌ (unary t) (P.◌∷◌ (unary n) P.[])
unfolding split unary
split-bar zero n = rw (nil-append "|", cons-append, nil-append, split-unary n)
split-bar (suc t) n =
    rw (cons-append _ (unary t) "|", cons-append _ (unary t ⧺ "|") (unary n), split-bar t n)

unary-some : (n : ℕ) → is_empty (unary (suc n)) ≡ false
unfolding unary
unary-some n = rw (cons-nil "a" (unary n)) refl

pub letters-IsFaithful : (times ids : ℕ) → IsFaithful letters times ids
letters-IsFaithful times ids = record {
  b64 = λ s. refl;
  b64_some = λ s h. h;
  iso = λ t h. ap one_less (value-unary (suc t));
  iso_some = λ t h. unary-some t;
  uuid = λ n h. value-unary n;
  bar = λ t n h k. split-bar (suc t) n;
}

abbrev pub task : ℕ → ℕ → TaskStatus → Task
task id owner status = record {
  id = id;
  user_id = owner;
  organization_id = none;
  goal = "sum the numbers";
  status = status;
  language = "en";
  plan = none;
  allowed_tools = none;
  max_iterations = pos 10;
  result_summary = none;
  error_message = none;
  error_code = none;
  partial = false;
  notify_webhook = none;
  total_tokens = 0;
  total_steps = 0;
  created_at = 100 + id;
  started_at = none;
  completed_at = none;
  deleted_at = none;
}

abbrev pub everything : Filters
everything = record {
  owner = none;
  statuses = none;
  language = none;
  created_after = none;
  created_before = none;
  search = none;
  include_deleted = false;
}
