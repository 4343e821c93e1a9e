-- ===== src/Auth/Login/Passwords.antt =====
-- Which passwords registration takes.
use agentis_backend.Prelude.{
  ℕ, String, ◌≡◌, refl, Bool, true, false, ◌&&◌, none, some, arith, leb, ◌⊎◌, inl, inr, Bool-cases,
}
use agentis_backend.PyText.{len, any_char}
use agentis_backend.Config.{Settings}
use agentis_backend.Database.{respond}
use agentis_backend.Http.{err, invalid_request}
use agentis_backend.Auth.Model.{AuthDb, Platform}
use agentis_backend.Auth.Register.{
  Validation, RegisterRequest, validate_password_strength, register, post_register,
}

-- Twelve characters at least, one of them upper case and one a digit.
abbrev pub is_strong : Validation → String → Bool
is_strong v p = leb 12 (len p) && any_char v.isupper p && any_char v.isdigit p

module _ (v : Validation) (password : String) where
  weak :
      is_strong v password ≡ false
      → (message : String) × (validate_password_strength v password ≡ some message)
  unfolding validate_password_strength
  weak h =
      elim (validate_password_strength v password)
          as (λ r.
            r ≡ validate_password_strength v password → (message : String) × (r ≡ some message)) [
              | none ↦ λ e. absurd (ground (arith, h, e))
              | some message ↦ λ e. (message, refl)
            ]
        refl

  strong : is_strong v password ≡ true → validate_password_strength v password ≡ none
  unfolding validate_password_strength
  strong h = ground arith

-- Registration takes exactly the passwords of twelve characters or more with an upper case letter and a
-- digit among them: with any other it is refused as an invalid request and stores nothing; with such a
-- password it runs as the handler does.
pub post_register_lem :
    (cfg : Settings) (lib : Platform) (v : Validation) (now user_id id : ℕ) (raw : String)
    (r : RegisterRequest) (db : AuthDb)
    → let answer = respond (post_register cfg lib v now user_id id raw r) db in
      ((is_strong v r.password ≡ true)
        × (answer ≡ respond (register cfg lib now user_id id raw r) db))
      ⊎ ((is_strong v r.password ≡ false)
          × (errors : String) × (answer ≡ (err (invalid_request errors), db)))
unfolding post_register
post_register_lem cfg lib v now user_id id raw r db = elim (Bool-cases (is_strong v r.password)) [
  | inl fits ↦ inl (fits, rw (strong v r.password fits) refl)
  | inr fails ↦
      let (message, raises) = weak v r.password fails in
      inr (fails, v.report message, rw raises refl)
]
