-- ===== src/Sandbox/Address.antt =====
-- app/sandbox/manager.py: the address that _start_container takes of a container's networks.
use agentis_backend.Prelude.{
  String, ◌≡◌, ◌⊎◌, sym, subst, true, false, List, [], ◌∷◌, select, All, Some, str_eq, eq_iff,
  Bool-cases, inl, inr,
}
use agentis_backend.PyText.{is_empty}
use agentis_backend.Sandbox.{address_of, first_address}

-- The first of the addresses, if there is one, is empty.
abbrev pub IsBlank : List (String × String) → Type 0
IsBlank [] = Unit
IsBlank ((name, ip) ∷ rest) = is_empty ip ≡ true

-- The address of a container: that in the sandboxes' network, else one in another of its networks, else, where it
-- has none, the empty text.
abbrev pub IsAddress : (network : String) → List (String × String) → String → Type 0
IsAddress network networks ip =
    ((is_empty ip ≡ false) × Some (λ n. (n.0 ≡ network) × (n.1 ≡ ip)) networks)
    ⊎ (IsBlank (select (λ n. str_eq n.0 network) networks)
        × (is_empty ip ≡ false)
        × Some (λ n. n.1 ≡ ip) networks)
    ⊎ (All (λ n. is_empty n.1 ≡ true) networks × (ip ≡ ""))

pub address_of-Some :
    (network : String) (xs : List (String × String)) (ip : String)
    → address_of network xs ≡ ip
    → is_empty ip ≡ false
    → Some (λ n. (n.0 ≡ network) × (n.1 ≡ ip)) xs
unfolding address_of
address_of-Some network [] ip e h =
    let filled : is_empty "" ≡ false = subst (λ a. is_empty a ≡ false) (sym e) h in cc
address_of-Some network ((name, addr) ∷ xs) ip e h = elim (Bool-cases (str_eq name network)) [
  | inl same ↦ inl ((eq_iff name network).0 same, rw same at e)
  | inr other ↦ inr (address_of-Some network xs ip (rw other at e) h)
]

pub address_of-IsBlank :
    (network : String) (xs : List (String × String))
    → is_empty (address_of network xs) ≡ true
    → IsBlank (select (λ n. str_eq n.0 network) xs)
unfolding address_of select
address_of-IsBlank network [] h = tt
address_of-IsBlank network ((name, addr) ∷ xs) h = elim (Bool-cases (str_eq name network)) [
  | inl same ↦ rw same (rw same at h)
  | inr other ↦ rw other (address_of-IsBlank network xs (rw other at h))
]

pub first_address-cases :
    (xs : List (String × String)) (ip : String)
    → first_address xs ≡ ip
    → ((is_empty ip ≡ false) × Some (λ n. n.1 ≡ ip) xs)
      ⊎ (All (λ n. is_empty n.1 ≡ true) xs × (ip ≡ ""))
unfolding first_address
first_address-cases [] ip e = inr (tt, sym e)
first_address-cases ((name, addr) ∷ xs) ip e = elim (Bool-cases (is_empty addr)) [
  | inr filled ↦
      let same : addr ≡ ip = rw filled at e in
      inl (subst (λ a. is_empty a ≡ false) same filled, inl same)
  | inl blank ↦ elim (first_address-cases xs ip (rw blank at e)) [
    | inl (filled, there) ↦ inl (filled, inr there)
    | inr (blank_rest, none_there) ↦ inr ((blank, blank_rest), none_there)
  ]
]
