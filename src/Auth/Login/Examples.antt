-- ===== src/Auth/Login/Examples.antt =====
-- The theorems about registration, login and new API keys at concrete inputs.
use agentis_backend.Prelude.{
  ◌≡◌, Option, none, some, String, arith, ltb, leb, ◌&&◌, ◌⊎◌, true, false, if◌then◌else◌, count,
}
use Prim.Native.Char.{code}
use agentis_backend.PyText.{◌⧺◌}
use agentis_backend.Config.{defaults}
use agentis_backend.Database.{Session, respond, begin}
use agentis_backend.Http.{ok, err, invalid_request}
use agentis_backend.Auth.Model.{User, AuthDb, Platform, decoded, expired_signature}
use agentis_backend.Auth.Sample as Sample
use agentis_backend.Auth.Sample.{db}
use agentis_backend.Auth.Login.{FailCounts}
use agentis_backend.Auth.Register.{Validation, RegisterRequest, register, post_register, find_user}
use agentis_backend.Auth.Login.Access.{account}
use agentis_backend.Auth.Login.Grants.{claims}
use agentis_backend.Auth.Login.Passwords.{is_strong, post_register_lem}
use agentis_backend.Auth.Login.Emails.{HasDistinctEmails, register-HasDistinctEmails}

abbrev bea : RegisterRequest
bea = record { email = "bea@x.org"; password = "Secret-Pass-2"; name = none; language = "de" }

-- Tokens of bea that were issued at 20 and expire an hour later.
abbrev lib : Platform
lib = record Sample.lib {
  uuid_parse = λ s. some 2;
  jwt_decode = λ t s.
      if ltb t 3620
      then decoded (claims defaults Sample.lib 20 (account defaults Sample.lib 2 bea))
      else expired_signature;
}

abbrev registered : Session AuthDb
registered = (register defaults lib 10 2 7 "first" bea (begin db)).1

-- Four failed logins that count until 900.
abbrev four : FailCounts
four k = record { count = 4; expires_at = 900 }

db-HasDistinctEmails : HasDistinctEmails lib db
unfolding count
db-HasDistinctEmails email = ground arith

register-HasDistinctEmails_example :
    let after = (respond (register defaults lib 10 2 7 "first" bea) db).1 in
    HasDistinctEmails lib after
    × ((email : String) → (u : Option User) × (find_user lib email after ≡ ok u))
register-HasDistinctEmails_example =
    register-HasDistinctEmails defaults lib 10 2 7 "first" bea db db-HasDistinctEmails

abbrev latin : Validation
latin = record {
  isupper = λ c. leb b'A' (code c) && leb (code c) b'Z';
  isdigit = λ c. leb b'0' (code c) && leb (code c) b'9';
  report = λ message. "password: " ⧺ message;
}

abbrev weak_bea : RegisterRequest
weak_bea = record bea { password = "secretsecret" }

post_register_lem_example :
    let answer = respond (post_register defaults lib latin 10 2 7 "first" weak_bea) db in
    ((is_strong latin "secretsecret" ≡ true)
      × (answer ≡ respond (register defaults lib 10 2 7 "first" weak_bea) db))
    ⊎ ((is_strong latin "secretsecret" ≡ false)
        × (errors : String) × (answer ≡ (err (invalid_request errors), db)))
post_register_lem_example = post_register_lem defaults lib latin 10 2 7 "first" weak_bea db
