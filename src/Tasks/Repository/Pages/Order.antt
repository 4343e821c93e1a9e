-- ===== src/Tasks/Repository/Pages/Order.antt =====
-- The order of list_tasks: by time of creation, then by id, the newest first.
use agentis_backend.Prelude.{
  ℕ, ◌≡◌, ◌≢◌, refl, sym, Bool, true, false, List, [], ◌∷◌, ◌++◌, arith, All, select, select_of_All,
  All-select, Bool-cases, inl, inr,
}
use agentis_backend.Tasks.Model.{Task}
use agentis_backend.Tasks.Repository.{precedes, insert_newest, newest_first, last_of}

abbrev pub key : Task → ℕ × ℕ
key t = (t.created_at, t.id)

abbrev pub Descends : List Task → Type 0
Descends [] = Unit
Descends (t ∷ ts) = All (λ u. precedes u (key t) ≡ true) ts × Descends ts

abbrev pub DistinctIds : List Task → Type 0
DistinctIds [] = Unit
DistinctIds (t ∷ ts) = All (λ u. u.id ≢ t.id) ts × DistinctIds ts

pub precedes_irrefl : (t : Task) → precedes t (key t) ≡ false
precedes_irrefl t = ground arith

pub precedes_trans :
    (t u : Task) (c : ℕ × ℕ) → precedes t (key u) ≡ true → precedes u c ≡ true → precedes t c ≡ true
precedes_trans t u c h k = ground arith

pub precedes_asymm : (t u : Task) → precedes t (key u) ≡ true → precedes u (key t) ≡ false
precedes_asymm t u h = ground arith

precedes_total : (t u : Task) → u.id ≢ t.id → precedes t (key u) ≡ false → precedes u (key t) ≡ true
precedes_total t u ne h = ground arith

All-map {ℓ κ μ} :
    {A : Type ℓ} (P : A → Type κ) (Q : A → Type μ)
    → ((a : A) → P a → Q a)
    → (xs : List A) → All P xs
    → All Q xs
All-map P Q f [] h = tt
All-map P Q f (x ∷ xs) (p, h) = (f x p, All-map P Q f xs h)

pub All-true : (xs : List Task) → All (λ x. ◌≡◌ {A = Bool} true true) xs
All-true [] = tt
All-true (x ∷ xs) = (refl, All-true xs)

All-insert :
    (P : Task → Type 0) (t : Task) (xs : List Task) → P t → All P xs → All P (insert_newest t xs)
unfolding insert_newest
All-insert P t [] p h = (p, tt)
All-insert P t (u ∷ xs) p (q, h) = elim (Bool-cases (precedes t (key u))) [
  | inl e ↦ rw e (q, All-insert P t xs p h)
  | inr e ↦ rw e (p, (q, h))
]

insert-Descends :
    (t : Task) (xs : List Task)
    → All (λ u. u.id ≢ t.id) xs
    → Descends xs
    → Descends (insert_newest t xs)
unfolding insert_newest
insert-Descends t [] ne d = (tt, tt)
insert-Descends t (u ∷ xs) (ne, nes) (below, d) = elim (Bool-cases (precedes t (key u))) [
  | inl e ↦
      rw e (All-insert (λ v. precedes v (key u) ≡ true) t xs e below, insert-Descends t xs nes d)
  | inr e ↦
      let first = precedes_total t u ne e in
      rw e ((first, All-map _ _ (λ v h. precedes_trans v u (key t) h first) xs below), (below, d))
]

pub newest_first-All : (P : Task → Type 0) (xs : List Task) → All P xs → All P (newest_first xs)
unfolding newest_first
newest_first-All P [] h = tt
newest_first-All P (t ∷ xs) (p, h) = All-insert P t (newest_first xs) p (newest_first-All P xs h)

pub newest_first-Descends : (xs : List Task) → DistinctIds xs → Descends (newest_first xs)
unfolding newest_first
newest_first-Descends [] h = tt
newest_first-Descends (t ∷ xs) (ne, h) =
    insert-Descends t (newest_first xs) (newest_first-All (λ u. u.id ≢ t.id) xs ne)
      (newest_first-Descends xs h)

insert_front :
    (t : Task) (xs : List Task)
    → All (λ u. precedes t (key u) ≡ false) xs
    → insert_newest t xs ≡ t ∷ xs
unfolding insert_newest
insert_front t [] h = refl
insert_front t (u ∷ xs) (e, h) = rw e

select-insert_drop :
    (p : Task → Bool) (t : Task) (xs : List Task)
    → p t ≡ false
    → select p (insert_newest t xs) ≡ select p xs
unfolding insert_newest select
select-insert_drop p t [] e = rw e
select-insert_drop p t (u ∷ xs) e = ground (arith, select-insert_drop p t xs e)

select-insert_keep :
    (p : Task → Bool) (t : Task) (xs : List Task)
    → p t ≡ true
    → Descends xs
    → select p (insert_newest t xs) ≡ insert_newest t (select p xs)
unfolding insert_newest select
select-insert_keep p t [] e d = rw e
select-insert_keep p t (u ∷ xs) e (below, d) = elim (Bool-cases (precedes t (key u))) [
  | inl before ↦ ground (arith, select-insert_keep p t xs e d)
  | inr after ↦ elim (Bool-cases (p u)) [
    | inl keep ↦ rw (after, e, keep, after)
    | inr lose ↦
        rw (after, e, lose)
          (sym (
            insert_front t (select p xs) (
              All-select _ p xs (
                All-map _ (λ v. precedes t (key v) ≡ false) (λ v h. ground (arith, h, after)) xs
                  below))))
  ]
]

-- Sorting commutes with a query.
pub newest_first-select :
    (p : Task → Bool) (xs : List Task)
    → DistinctIds xs
    → newest_first (select p xs) ≡ select p (newest_first xs)
unfolding newest_first select
newest_first-select p [] h = refl
newest_first-select p (t ∷ xs) (ne, h) = elim (Bool-cases (p t)) [
  | inl e ↦
      rw (e, newest_first-select p xs h)
        (sym (select-insert_keep p t (newest_first xs) e (newest_first-Descends xs h)))
  | inr e ↦ rw (e, newest_first-select p xs h) (sym (select-insert_drop p t (newest_first xs) e))
]

pub Descends-select : (p : Task → Bool) (xs : List Task) → Descends xs → Descends (select p xs)
unfolding select
Descends-select p [] d = tt
Descends-select p (t ∷ xs) (below, d) = elim (Bool-cases (p t)) [
  | inl e ↦ rw e (All-select _ p xs below, Descends-select p xs d)
  | inr e ↦ rw e (Descends-select p xs d)
]

pub DistinctIds-select :
    (p : Task → Bool) (xs : List Task) → DistinctIds xs → DistinctIds (select p xs)
unfolding select
DistinctIds-select p [] d = tt
DistinctIds-select p (t ∷ xs) (ne, d) = elim (Bool-cases (p t)) [
  | inl e ↦ rw e (All-select _ p xs ne, DistinctIds-select p xs d)
  | inr e ↦ rw e (DistinctIds-select p xs d)
]

pub All-last :
    (P : Task → Type 0) (t : Task) (rest more : List Task)
    → All P (t ∷ rest ++ more)
    → P (last_of t rest)
All-last P t [] more h = h.0
All-last P t (u ∷ rest) more h = All-last P u rest more h.1

-- After the last task of a page come the tasks that precede its key, and only those.
pub select_after :
    (t : Task) (rest more : List Task)
    → Descends (t ∷ rest ++ more)
    → select (λ u. precedes u (key (last_of t rest))) (t ∷ rest ++ more) ≡ more
unfolding select
select_after t [] more (below, d) =
    rw (precedes_irrefl t) (select_of_All (λ u. precedes u (key t)) more below)
select_after t (u ∷ rest) more (below, d) =
    rw (precedes_asymm (last_of u rest) t (All-last _ u rest more below))
      (select_after u rest more d)
