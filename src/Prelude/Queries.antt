-- ===== src/Prelude/Queries.antt =====
-- Laws of the table queries of `Lists`.
use Prim.Native.Nat.{◌+◌, ◌≤◌}
use mathlib.Core.Path.{◌≡◌, refl, ap}
use mathlib.Core.Bool.{Bool, true, false, ◌&&◌}
use mathlib.Core.List.{List, [], ◌∷◌, ◌++◌}
use mathlib.Core.Option.{some}
use mathlib.Core.Logic.{inl, inr}
use native.Mathlib.Omega.{arith}
use agentis_backend.Prelude.Tests.{Bool-cases}
use agentis_backend.Prelude.Lists.{length, select, count, update_where, find, any, All, Some}

module _ {ℓ} {A : Type ℓ} (p : A → Bool) where
  pub select-append : (xs ys : List A) → select p (xs ++ ys) ≡ select p xs ++ select p ys
  unfolding select
  select-append [] ys = refl
  select-append (x ∷ xs) ys = ground (arith, select-append xs ys)

  pub select_of_true : (x : A) (xs : List A) → p x ≡ true → select p (x ∷ xs) ≡ x ∷ select p xs
  unfolding select
  select_of_true x xs e = rw e

  pub select_of_false : (x : A) (xs : List A) → p x ≡ false → select p (x ∷ xs) ≡ select p xs
  unfolding select
  select_of_false x xs e = rw e

  pub count-append : (xs ys : List A) → count p (xs ++ ys) ≡ count p xs + count p ys
  unfolding count
  count-append [] ys = omega arith
  count-append (x ∷ xs) ys = ground (arith, count-append xs ys)

  pub length-select : (xs : List A) → length (select p xs) ≡ count p xs
  unfolding select count
  length-select [] = refl
  length-select (x ∷ xs) = ground (arith, length-select xs)

  pub count_of_any : (xs : List A) → any p xs ≡ false → count p xs ≡ 0
  unfolding count
  count_of_any [] h = refl
  count_of_any (x ∷ xs) h = ground (arith, count_of_any xs)

  pub select_of_any : (xs : List A) → any p xs ≡ false → select p xs ≡ []
  unfolding select
  select_of_any [] h = refl
  select_of_any (x ∷ xs) h = ground (arith, select_of_any xs)

  -- What a query returns satisfies the query.
  pub select-All : (xs : List A) → All (λ x. p x ≡ true) (select p xs)
  unfolding select
  select-All [] = tt
  select-All (x ∷ xs) = elim (Bool-cases (p x)) [
    | inl e ↦ rw e (e, select-All xs)
    | inr e ↦ rw e (select-All xs)
  ]

module _ {ℓ} {A : Type ℓ} where
  -- A query among the rows of a query.
  pub select-select :
      (p q : A → Bool) (xs : List A) → select (λ x. q x && p x) xs ≡ select p (select q xs)
  unfolding select
  select-select p q [] = refl
  select-select p q (x ∷ xs) = ground (arith, select-select p q xs)

  -- A weaker query first changes nothing.
  pub select-select_of_imp :
      (p q : A → Bool)
      → ((x : A) → p x ≡ true → q x ≡ true)
      → (xs : List A) → select p (select q xs) ≡ select p xs
  unfolding select
  select-select_of_imp p q imp [] = refl
  select-select_of_imp p q imp (x ∷ xs) = ground (arith, imp x, select-select_of_imp p q imp xs)

  pub select_of_All : (p : A → Bool) (xs : List A) → All (λ x. p x ≡ true) xs → select p xs ≡ xs
  unfolding select
  select_of_All p [] h = refl
  select_of_All p (x ∷ xs) (e, h) = rw e (ap (◌∷◌ x) (select_of_All p xs h))

  pub All-select {κ} :
      (P : A → Type κ) (p : A → Bool) (xs : List A) → All P xs → All P (select p xs)
  unfolding select
  All-select P p [] h = tt
  All-select P p (x ∷ xs) (e, h) = elim (Bool-cases (p x)) [
    | inl yes_p ↦ rw yes_p (e, All-select P p xs h)
    | inr no_p ↦ rw no_p (All-select P p xs h)
  ]

-- What fails everywhere in a table fails on the rows that a query selects.
pub All-select_of_any {ℓ} :
    {A : Type ℓ} (p q : A → Bool) (xs : List A)
    → any p xs ≡ false
    → All (λ x. p x ≡ false) (select q xs)
unfolding select
All-select_of_any p q [] h = tt
All-select_of_any p q (x ∷ xs) h = elim (Bool-cases (q x)) [
  | inl e ↦ rw e (ground arith, All-select_of_any p q xs (ground arith))
  | inr e ↦ rw e (All-select_of_any p q xs (ground arith))
]

module _ {ℓ} {A : Type ℓ} (p q : A → Bool) (f : A → A) where
  -- A query commutes with an update that does not change its answer.
  pub select-update_where :
      ((x : A) → p (f x) ≡ p x)
      → (xs : List A) → select p (update_where q f xs) ≡ update_where q f (select p xs)
  unfolding select update_where
  select-update_where keep [] = refl
  select-update_where keep (x ∷ xs) = ground (arith, keep x, select-update_where keep xs)

  pub any-update_where :
      ((x : A) → p (f x) ≡ p x) → (xs : List A) → any p (update_where q f xs) ≡ any p xs
  unfolding update_where
  any-update_where keep [] = refl
  any-update_where keep (x ∷ xs) = ground (arith, keep x, any-update_where keep xs)

  pub count-update_where :
      ((x : A) → p (f x) ≡ p x) → (xs : List A) → count p (update_where q f xs) ≡ count p xs
  unfolding count update_where
  count-update_where keep [] = refl
  count-update_where keep (x ∷ xs) = ground (arith, keep x, count-update_where keep xs)

  -- An update that makes every row it touches fail the query.
  pub count-update_where_le :
      ((x : A) → q x ≡ true → p (f x) ≡ false)
      → (xs : List A) → count p (update_where q f xs) ≤ count p xs
  unfolding count update_where
  count-update_where_le drop [] = omega arith
  count-update_where_le drop (x ∷ xs) = ground (arith, drop x, count-update_where_le drop xs)

  -- It leaves none, if it touches every row that satisfies the query.
  pub select-update_where_none :
      ((x : A) → q x ≡ true → p (f x) ≡ false)
      → ((x : A) → p x ≡ true → q x ≡ true)
      → (xs : List A) → select p (update_where q f xs) ≡ []
  unfolding select update_where
  select-update_where_none drop all [] = refl
  select-update_where_none drop all (x ∷ xs) =
      ground (arith, drop x, all x, select-update_where_none drop all xs)

  -- It does not show, if it touches no row of the query, before or after.
  pub select-update_where_other :
      ((x : A) → q x ≡ true → p (f x) ≡ false)
      → ((x : A) → q x ≡ true → p x ≡ false)
      → (xs : List A) → select p (update_where q f xs) ≡ select p xs
  unfolding select update_where
  select-update_where_other after before [] = refl
  select-update_where_other after before (x ∷ xs) =
      ground (arith, after x, before x, select-update_where_other after before xs)

module _ {ℓ} {A : Type ℓ} (p : A → Bool) where
  -- What is found satisfies the query.
  pub find-true : (xs : List A) (x : A) → find p xs ≡ some x → p x ≡ true
  unfolding find
  find-true [] x h = ground (arith, h)
  find-true (y ∷ ys) x h = ground (arith, find-true ys x)

  -- An update of what a query finds, that does not change the query's answer, shows in what is found.
  pub find-update_where :
      (f : A → A)
      → ((x : A) → p (f x) ≡ p x)
      → (xs : List A) (x : A) → find p xs ≡ some x
      → find p (update_where p f xs) ≡ some (f x)
  unfolding find update_where
  find-update_where f keep [] x h = ground (arith, h)
  find-update_where f keep (y ∷ ys) x h = ground (arith, keep y, find-update_where f keep ys x)

-- What a query returns is in the table and satisfies the query.
pub select-Some :
    {A : Type 0}
    → (p : A → Bool) (xs : List A) (y : A) (ys : List A) → select p xs ≡ y ∷ ys
    → Some (λ x. (x ≡ y) × (p x ≡ true)) xs
unfolding select
select-Some p [] y ys h = cc
select-Some p (x ∷ xs) y ys h = elim (Bool-cases (p x)) [
  | inl e ↦ inl (ground (arith, h), e)
  | inr e ↦ inr (select-Some p xs y ys (ground (arith, h)))
]

pub Some-mono :
    {A : Type 0}
    → (P Q : A → Type 0) → ((x : A) → P x → Q x)
    → (xs : List A) → Some P xs
    → Some Q xs
Some-mono P Q f [] h = absurd h
Some-mono P Q f (x ∷ xs) (inl h) = inl (f x h)
Some-mono P Q f (x ∷ xs) (inr h) = inr (Some-mono P Q f xs h)
