-- ===== src/Tools/BuiltIn/Once.antt =====
-- The built-in tools are registered once, in their order.
use agentis_backend.Prelude.{
  ◌≡◌, ◌∙◌, refl, ap, Bool, true, false, ◌||◌, none, some, List, [], ◌∷◌, ◌++◌, arith, str_eq, any,
  String,
}
use agentis_backend.Config.{Settings}
use agentis_backend.Tools.Registry.{Tool, Registry, register}
use agentis_backend.Tools.BuiltIn.{
  Network, browser_tool, code_executor_tool, file_system_tool, web_search_tool, then_register,
  register_all_tools,
}

abbrev pub has_name : String → Registry → Bool
has_name name registry = any (λ t. str_eq t.name name) registry

any-append : (p : Tool → Bool) (xs ys : List Tool) → any p (xs ++ ys) ≡ (any p xs || any p ys)
any-append p [] ys = refl
any-append p (x ∷ xs) ys = ground (arith, any-append p xs ys)

append_assoc : (xs ys zs : List Tool) → (xs ++ ys) ++ zs ≡ xs ++ (ys ++ zs)
append_assoc [] ys zs = refl
append_assoc (x ∷ xs) ys zs = ap (◌∷◌ x) (append_assoc xs ys zs)

register_new :
    (t : Tool) (registry : Registry)
    → has_name t.name registry ≡ false
    → register t registry ≡ some (registry ++ t ∷ [])
unfolding register
register_new t registry h = rw h refl

register_taken :
    (t : Tool) (registry : Registry) → has_name t.name registry ≡ true → register t registry ≡ none
unfolding register
register_taken t registry h = rw h refl

-- A tool of another name is added after some that were.
register-append :
    (t : Tool) (registry more : Registry)
    → has_name t.name registry ≡ false
    → has_name t.name more ≡ false
    → register t (registry ++ more) ≡ some (registry ++ (more ++ t ∷ []))
register-append t registry more h none_more =
    register_new t (registry ++ more)
      (any-append (λ s. str_eq s.name t.name) registry more ∙ rw h none_more)
    ∙ ap some (append_assoc registry more (t ∷ []))

module _ (cfg : Settings) (net : Network) where
  abbrev pub built_in : Registry
  built_in =
      browser_tool cfg net
      ∷ code_executor_tool cfg net
      ∷ file_system_tool cfg net
      ∷ web_search_tool cfg net
      ∷ []

  -- None of the tools' names is taken.
  pub record IsFree (registry : Registry) : Type 0 where
    pub browser : has_name "browser" registry ≡ false
    pub code_executor : has_name "code_executor" registry ≡ false
    pub file_system : has_name "file_system" registry ≡ false
    pub web_search : has_name "web_search" registry ≡ false

  -- In a registry that has none of their names, registration adds the four tools, in order, after those that
  -- are there, and a second registration is refused.
  pub register_all_tools-register_all_tools :
      (registry : Registry)
      → IsFree registry
      → (register_all_tools cfg net registry ≡ some (registry ++ built_in))
        × (register_all_tools cfg net (registry ++ built_in) ≡ none)
  unfolding register_all_tools
  register_all_tools-register_all_tools registry free =
      let b = browser_tool cfg net in
      let c = code_executor_tool cfg net in
      let f = file_system_tool cfg net in
      let w = web_search_tool cfg net in
      (
        ap (λ r. then_register w (then_register f (then_register c r)))
              (register_new b registry free.browser)
            ∙ ap (λ r. then_register w (then_register f r))
                (register-append c registry (b ∷ []) free.code_executor refl)
            ∙ ap (then_register w) (register-append f registry (b ∷ c ∷ []) free.file_system refl)
            ∙ register-append w registry (b ∷ c ∷ f ∷ []) free.web_search refl,
        rw
            (register_taken b (registry ++ built_in)
              (any-append (λ t. str_eq t.name "browser") registry built_in ∙ rw free.browser refl))
            refl,
      )
