-- ===== src/Http/Rules.antt =====
-- Rules to reason about actions: what a successful result satisfies, and how far an action moves a
-- number that the state holds.
use agentis_backend.Prelude.{
  ℕ, ◌+◌, ◌≤◌, ◌≡◌, refl, ◌∙◌, String, Bool, true, false, if◌then◌else◌, arith,
}
use agentis_backend.Http.{Result, ok, err, Exec, pure, gets, fail, and_then, ◌>>=◌}

-- If the result is a value, it satisfies `P`.
abbrev pub Post {ℓ κ} : {A : Type ℓ} → (A → Type κ) → Result A → Type κ
Post P (ok a) = P a
Post P (err e) = Unit

-- Every value that the action returns satisfies `P`.
pub record Ensures {ℓ} {S A : Type ℓ} (P : A → Type ℓ) (m : Exec S A) : Type ℓ where
  pub at : (s : S) → Post P (m s).0

module _ {ℓ} {S A : Type ℓ} {P : A → Type ℓ} where
  pub Ensures-pure : (a : A) → P a → Ensures {S = S} P (pure a)
  Ensures-pure a h = record { at = λ s. h }

  pub Ensures-fail : (text : String) → Ensures {S = S} P (fail text)
  Ensures-fail text = record { at = λ s. tt }

module _ {ℓ} {S A B : Type ℓ} {P : B → Type ℓ} where
  Post-and_then :
      (r : Result A) (f : A → Exec S B) (s : S)
      → ((a : A) → Ensures P (f a))
      → Post P (and_then r f s).0
  Post-and_then (ok a) f s h = (h a).at s
  Post-and_then (err e) f s h = tt

  pub Ensures-bind :
      (m : Exec S A) (f : A → Exec S B) → ((a : A) → Ensures P (f a)) → Ensures P (m >>= f)
  unfolding ◌>>=◌
  Ensures-bind m f h = record { at = λ s. let (r, t) = m s in Post-and_then r f t h }

-- Whatever its result, the action adds at most `n` to the number `size`.
pub record Costs {ℓ} {S A : Type ℓ} (size : S → ℕ) (n : ℕ) (m : Exec S A) : Type ℓ where
  pub at : (s : S) → size (m s).1 ≤ size s + n

module _ {ℓ} {S A : Type ℓ} {size : S → ℕ} where
  pub Costs-pure : (a : A) → Costs size 0 (pure a)
  Costs-pure a = record { at = λ s. omega arith }

  pub Costs-fail : (text : String) → Costs size 0 (fail {A = A} text)
  Costs-fail text = record { at = λ s. omega arith }

  pub Costs-more : {m : Exec S A} (k n : ℕ) → k ≤ n → Costs size k m → Costs size n m
  Costs-more k n h c = record { at = λ s. omega (arith, c.at s) }

  pub Costs-if :
      (b : Bool) (m n : Exec S A) (k : ℕ)
      → Costs size k m
      → Costs size k n
      → Costs size k (if b then m else n)
  Costs-if true m n k cm cn = cm
  Costs-if false m n k cm cn = cn

module _ {ℓ} {S A B : Type ℓ} {size : S → ℕ} where
  Costs-and_then :
      (r : Result A) (f : A → Exec S B) (n : ℕ)
      → ((a : A) → Costs size n (f a))
      → Costs size n (and_then r f)
  Costs-and_then (ok a) f n h = h a
  Costs-and_then (err e) f n h = record { at = λ s. omega arith }

  pub Costs-bind :
      (m : Exec S A) (f : A → Exec S B) (k n : ℕ)
      → Costs size k m
      → ((a : A) → Costs size n (f a))
      → Costs size (k + n) (m >>= f)
  unfolding ◌>>=◌
  Costs-bind m f k n cm cf = record {
    at = λ s. let (r, t) = m s in omega (arith, cm.at s, (Costs-and_then r f n cf).at t);
  }

-- What follows an action that succeeds.
pub bind_ok :
    {S A B : Type 0}
    → (m : Exec S A) (f : A → Exec S B) (s t : S) (a : A) → m s ≡ (ok a, t)
    → (m >>= f) s ≡ f a t
unfolding ◌>>=◌
bind_ok m f s t a e = rw e refl

-- The action returns a value, which satisfies `P`, from every state.
pub record Gives {S A : Type 0} (P : A → Type 0) (m : Exec S A) : Type 0 where
  pub at : (s : S) → (a : A) × (t : S) × (m s ≡ (ok a, t)) × P a

module _ {S A : Type 0} {P : A → Type 0} where
  pub Gives-pure : (a : A) → P a → Gives {S = S} P (pure a)
  Gives-pure a h = record { at = λ s. (a, s, refl, h) }

  pub Gives-imp : {Q : A → Type 0} {m : Exec S A} → ((a : A) → P a → Q a) → Gives P m → Gives Q m
  Gives-imp imp g = record { at = λ s. let (a, t, e, h) = g.at s in (a, t, e, imp a h) }

  pub Gives-gets : (read : S → A) → ((a : A) → P a) → Gives P (gets read)
  Gives-gets read h = record { at = λ s. (read s, s, refl, h (read s)) }

module _ {S A B : Type 0} {P : A → Type 0} {Q : B → Type 0} where
  pub Gives-bind :
      (m : Exec S A) (f : A → Exec S B)
      → Gives P m
      → ((a : A) → P a → Gives Q (f a))
      → Gives Q (m >>= f)
  Gives-bind m f first next = record {
    at = λ s.
        let (a, t, e, h) = first.at s in
        let (b, u, e', k) = (next a h).at t in (b, u, bind_ok m f s t a e ∙ e', k);
  }

-- Whatever its result, the action keeps what holds of the state.
pub record Keeps {S A : Type 0} (I : S → Type 0) (m : Exec S A) : Type 0 where
  pub at : (s : S) → I s → I (m s).1

module _ {S A : Type 0} {I : S → Type 0} where
  pub Keeps-pure : (a : A) → Keeps I (pure a)
  Keeps-pure a = record { at = λ s h. h }

  pub Keeps-gets : (read : S → A) → Keeps I (gets read)
  Keeps-gets read = record { at = λ s h. h }

  pub Keeps-fail : (text : String) → Keeps I (fail {A = A} text)
  Keeps-fail text = record { at = λ s h. h }

  pub Keeps-if : (b : Bool) (m n : Exec S A) → Keeps I m → Keeps I n → Keeps I (if b then m else n)
  Keeps-if true m n km kn = km
  Keeps-if false m n km kn = kn

module _ {S A B : Type 0} {I : S → Type 0} where
  Keeps-and_then :
      (r : Result A) (f : A → Exec S B) → ((a : A) → Keeps I (f a)) → Keeps I (and_then r f)
  Keeps-and_then (ok a) f h = h a
  Keeps-and_then (err e) f h = record { at = λ s h. h }

  pub Keeps-bind :
      (m : Exec S A) (f : A → Exec S B) → Keeps I m → ((a : A) → Keeps I (f a)) → Keeps I (m >>= f)
  unfolding ◌>>=◌
  Keeps-bind m f km kf = record {
    at = λ s h. let (r, t) = m s in (Keeps-and_then r f kf).at t (km.at s h);
  }

pub ruleset keeps = (Keeps-pure, Keeps-gets, Keeps-fail, Keeps-if, Keeps-bind)
