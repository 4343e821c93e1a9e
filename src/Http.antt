-- ===== src/Http.antt =====
-- What a request handler does with a failure, and app/main.py's exception handlers. A handler is an
-- action on a state: what it wrote before it raised stays written in the state that comes back.
pub mod Rules
use agentis_backend.Prelude.{ℕ, String, ◌≡◌, refl, Bool, List, [], Option, none, some, ◌∷◌, ◌++◌}

pub record HttpException : Type 0 where
  pub status_code : ℕ
  pub code : String
  pub message : String
  pub headers : List (String × String)

abbrev pub http_error : ℕ → String → String → HttpException
http_error status code message = record {
  status_code = status;
  code = code;
  message = message;
  headers = [];
}

-- `http` is a raised HTTPException, `invalid_request` the RequestValidationError of a body that pydantic
-- refuses, with the text of its errors. `crash` is any other exception: one of the database
-- or of Python, which no handler of the application catches; `budget_exceeded` is BudgetExceeded.
pub data Failure : Type 0 where
  http : HttpException → Failure
  crash : String → Failure
  invalid_request : (errors : String) → Failure
  budget_exceeded : (scope : String) → Failure

pub data Result {ℓ} (A : Type ℓ) : Type ℓ where
  ok : A → Result A
  err : Failure → Result A

-- The body of an error response, and its headers.
pub record ErrorResponse : Type 0 where
  pub status_code : ℕ
  pub code : String
  pub message : String
  pub headers : List (String × String)

-- http_exception_handler, validation_exception_handler and global_exception_handler. Every HTTPException of
-- the application has a dictionary with a "code" for its detail, so the other branch of the former is not
-- reached.
unfoldable pub error_response : Failure → ErrorResponse
error_response (http e) = record {
  status_code = e.status_code;
  code = e.code;
  message = e.message;
  headers = e.headers;
}
error_response (invalid_request errors) = record {
  status_code = 422;
  code = "validation_error";
  message = errors;
  headers = [];
}
error_response _ = record {
  status_code = 500;
  code = "internal_error";
  message = "An unexpected error occurred";
  headers = [];
}

-- request_logging_middleware gives a response that comes back to it the id of the request. The answer to an
-- exception that no handler names is made outside the middleware, through which the exception passes.
abbrev pub with_request_id : String → ErrorResponse → ErrorResponse
with_request_id id r = record r { headers = r.headers ++ ("X-Request-ID", id) ∷ [] }

unfoldable pub error_sent : String → Failure → ErrorResponse
unfolding error_response
error_sent id (http e) = with_request_id id (error_response (http e))
error_sent id (invalid_request errors) =
    with_request_id id (error_response (invalid_request errors))
error_sent id e = error_response e

abbrev pub Exec {ℓ} : Type ℓ → Type ℓ → Type ℓ
Exec S A = S → Result A × S

module _ {ℓ} {S A : Type ℓ} where
  abbrev pub lift : Result A → Exec S A
  lift r db = (r, db)

  abbrev pub pure : A → Exec S A
  pure a db = (ok a, db)

  abbrev pub gets : (S → A) → Exec S A
  gets read db = (ok (read db), db)

  abbrev pub raise : HttpException → Exec S A
  raise e db = (err (http e), db)

  abbrev pub fail : String → Exec S A
  fail e db = (err (crash e), db)

abbrev pub modify : {S : Type 0} → (S → S) → Exec S Unit
modify change db = (ok tt, change db)

module _ {ℓ} {S A B : Type ℓ} where
  abbrev pub and_then : Result A → (A → Exec S B) → Exec S B
  and_then (ok a) next = next a
  and_then (err e) next = λ db. (err e, db)

  infixl 5 ◌>>=◌ ◌>>◌
  unfoldable pub ◌>>=◌ : Exec S A → (A → Exec S B) → Exec S B
  ◌>>=◌ first next db = let (r, db') = first db in and_then r next db'

  abbrev pub ◌>>◌ : Exec S A → Exec S B → Exec S B
  first >> second = first >>= λ _. second

-- Query.scalar_one_or_none: more than one row is MultipleResultsFound.
abbrev pub scalar_one_or_none {ℓ} : {A : Type ℓ} → List A → Result (Option A)
scalar_one_or_none [] = ok none
scalar_one_or_none (x ∷ []) = ok (some x)
scalar_one_or_none (x ∷ y ∷ rest) = err (crash "MultipleResultsFound")
