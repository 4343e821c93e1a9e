-- ===== src/Database.antt =====
-- app/database.py: a request's database session over a database of type `D`.
use agentis_backend.Http.{Exec, Result, gets, modify}

-- `stored` is what the database holds, `session` what this session sees. A session that ends without a
-- commit is rolled back.
pub record Session (D : Type 0) : Type 0 where
  pub stored : D
  pub session : D

module _ {D : Type 0} where
  abbrev pub begin : D → Session D
  begin db = record { stored = db; session = db }

  -- The action's result, and the database after its session is closed.
  abbrev pub respond : {A : Type 0} → Exec (Session D) A → D → Result A × D
  respond m db = let (r, s) = m (begin db) in (r, s.stored)

  abbrev pub commit : Exec (Session D) Unit
  commit = modify (λ s. record s { stored = s.session })

  abbrev pub read : {A : Type 0} → (D → A) → Exec (Session D) A
  read f = gets (λ s. f s.session)

  abbrev pub write : (D → D) → Exec (Session D) Unit
  write f = modify (λ s. record s { session = f s.session })
