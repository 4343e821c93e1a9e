-- ===== src/Sandbox/Lifecycle.antt =====
-- The wait for a sandbox ends, and what create_session leaves behind.
use agentis_backend.Prelude.{
  ℕ, zero, suc, ◌+◌, ◌*◌, ◌≤◌, String, ◌≡◌, ◌≢◌, ◌⊎◌, refl, Bool, true, false, not, Option, none,
  some, List, [], ◌∷◌, arith, select, find, ltb, Bool-cases, inl, inr, ==_refl, is_none, ap, ◌∙◌,
}
use agentis_backend.PyText.{is_empty, is_empty-append, show, ◌⧺◌}
use agentis_backend.Config.{Settings}
use agentis_backend.Http.{Failure, Result, ok, err, and_then, ◌>>=◌}
use agentis_backend.Sandbox.Spec.{container_spec}
use agentis_backend.Sandbox.Address.{
  IsAddress, address_of-Some, address_of-IsBlank, first_address-cases,
}
use agentis_backend.Sandbox.{
  SandboxSession, Docker, Manager, of_session, get_session, drop_session, start_container, started,
  opened, address_of, destroy_found, endpoint_of, destroy_session, await_ready, settle,
  create_session,
}

-- The clock does not go back before the first test, and half a second passes between two tests.
abbrev pub Sleeps : Docker → Type 0
Sleeps docker =
    (docker.clock 0 ≤ docker.clock 1)
    × ((n : ℕ) → docker.clock (suc n) + 500 ≤ docker.clock (suc (suc n)))

reaches : (a b : ℕ) → a ≤ b → a + 15000 ≤ b + 30 * 500
reaches a b h = omega arith

module _ (cfg : Settings) (docker : Docker) where
  await_from :
      Sleeps docker
      → (fuel : ℕ) (endpoint : String) (deadline n : ℕ)
      → deadline ≤ docker.clock (suc n) + fuel * 500
      → is_none (await_ready cfg docker (suc fuel) endpoint deadline (suc n)) ≡ false
  unfolding await_ready
  await_from (start, sleeps) zero endpoint deadline n h = ground arith
  await_from (start, sleeps) (suc fuel) endpoint deadline n h =
      elim (Bool-cases (ltb (docker.clock (suc n)) deadline)) [
        | inr late ↦ rw late refl
        | inl early ↦ elim (Bool-cases (docker.healthy endpoint (suc n))) [
          | inl up ↦ rw (early, up) refl
          | inr down ↦
              rw (early, down)
                (await_from (start, sleeps) fuel endpoint deadline (suc n)
                  (omega (arith, sleeps n, h)))
        ]
      ]

  -- If half a second passes between two tests of the clock, the wait for a sandbox ends within 31 tests.
  pub await_ends :
      Sleeps docker
      → (endpoint : String) → await_ready cfg docker 31 endpoint (docker.clock 0 + 15000) 1 ≢ none
  await_ends (start, sleeps) endpoint e =
      let ends : is_none (await_ready cfg docker 31 endpoint (docker.clock 0 + 15000) 1) ≡ false =
        await_from (start, sleeps) 30 endpoint (docker.clock 0 + 15000) 0
          (reaches (docker.clock 0) (docker.clock 1) start) in
      ground (arith, ends, e)

find-drop :
    (task : ℕ) (xs : List SandboxSession)
    → find (of_session task) (select (λ s. not (of_session task s)) xs) ≡ none
unfolding find select
find-drop task [] = refl
find-drop task (s ∷ xs) = ground (arith, find-drop task xs)

get-drop : (task : ℕ) (m : Manager) → get_session task (drop_session task m) ≡ none
unfolding get_session drop_session
get-drop task m = find-drop task m.sessions

-- What create_session leaves of a manager: its result.
module _ (cfg : Settings) (docker : Docker) (task : ℕ) (m : Manager) where
  -- The session is stored, and is that of the container that docker started and read again.
  abbrev pub IsStored : SandboxSession → Manager → Type 0
  IsStored s m' =
      (get_session task m' ≡ some s)
      × (s.task_id ≡ task)
      × (networks : List (String × String)) × (ip : String) × (docker.run
            (container_spec cfg (docker.task_text task))
          ≡ ok s.container_id)
      × (docker.reload s.container_id ≡ ok networks)
      × IsAddress cfg.sandbox_network networks ip
      × (s.endpoint ≡ "http://" ⧺ ip ⧺ ":" ⧺ show cfg.sandbox_rpc_port)

  -- No container was started and nothing is changed; or one was started and could not be read again, and it is
  -- all that is changed; or the task has no session.
  abbrev pub IsGivenUp : Failure → Manager → Type 0
  IsGivenUp e m' =
      ((docker.run (container_spec cfg (docker.task_text task)) ≡ err e) × (m' ≡ m))
      ⊎ ((id : String) × (docker.run (container_spec cfg (docker.task_text task)) ≡ ok id)
          × (docker.reload id ≡ err e)
          × (m' ≡ record m { containers = id ∷ m.containers }))
      ⊎ (get_session task m' ≡ none)

  abbrev pub Leaves : Result SandboxSession × Manager → Type 0
  Leaves (ok s, m') = IsStored s m'
  Leaves (err e, m') = IsGivenUp e m'

  -- Such a session has a text for its endpoint.
  pub IsStored-filled :
      (s : SandboxSession) (m' : Manager) → IsStored s m' → is_empty s.endpoint ≡ false
  IsStored-filled s m' (_, _, networks, ip, _, _, _, text) =
      ap is_empty text
      ∙ is_empty-append _ (show cfg.sandbox_rpc_port)
          (is_empty-append _ ":" (is_empty-append "http://" _ refl))

  -- Where none was, none is.
  pub given_up-get_session :
      (e : Failure) (m' : Manager)
      → IsGivenUp e m'
      → get_session task m ≡ none
      → get_session task m' ≡ none
  unfolding get_session
  given_up-get_session e m' (inl (_, same)) h = rw same h
  given_up-get_session e m' (inr (inl (id, _, _, same))) h = rw same h
  given_up-get_session e m' (inr (inr gone)) h = gone

module _ (cfg : Settings) (docker : Docker) where
  destroy_found-none :
      (task : ℕ) (found : Option SandboxSession) (m : Manager)
      → get_session task m ≡ found
      → get_session task (destroy_found cfg docker task found m) ≡ none
  unfolding get_session drop_session select
  destroy_found-none task none m h = h
  destroy_found-none task (some s) m h = elim (Bool-cases (docker.remove s.container_id)) [
    | inl e ↦ rw e (find-drop task m.sessions)
    | inr e ↦ rw e (find-drop task m.sessions)
  ]

  pub get-destroy :
      (task : ℕ) (m : Manager) → get_session task (destroy_session cfg docker task m) ≡ none
  unfolding destroy_session
  get-destroy task m = destroy_found-none task (get_session task m) m refl

  endpoint_of-cases :
      (networks : List (String × String))
      → (ip : String) × IsAddress cfg.sandbox_network networks ip
        × (endpoint_of cfg docker networks ≡ "http://" ⧺ ip ⧺ ":" ⧺ show cfg.sandbox_rpc_port)
  endpoint_of-cases networks =
      elim (Bool-cases (is_empty (address_of cfg.sandbox_network networks))) [
        | inr e ↦ (_, inl (e, address_of-Some cfg.sandbox_network networks _ refl e), rw e refl)
        | inl e ↦ elim (first_address-cases networks _ refl) [
          | inl (filled, there) ↦ (
            _,
            inr (inl (address_of-IsBlank cfg.sandbox_network networks e, filled, there)),
            rw e refl,
          )
          | inr (blank, none_there) ↦ (_, inr (inr (blank, none_there)), rw e refl)
        ]
      ]

  settle-Leaves :
      (task : ℕ) (m m' : Manager) (s : SandboxSession) (ready : Option Bool)
      → IsStored cfg docker task m s m'
      → Leaves cfg docker task m (settle cfg docker task s ready m')
  settle-Leaves task m m' s (some true) h = h
  settle-Leaves task m m' s (some false) h = inr (inr (get-destroy task m'))
  settle-Leaves task m m' s none h = inr (inr (get-destroy task m'))

  abbrev waited : ℕ → Result SandboxSession × Manager → Result SandboxSession × Manager
  waited task (r, m) =
      and_then r
        (λ s.
          settle cfg docker task s
            (await_ready cfg docker 31 s.endpoint (docker.clock 0 + 15000) 1))
        m

  opened-Leaves :
      (task : ℕ) (m : Manager) (id : String) (r : Result (List (String × String)))
      → docker.run (container_spec cfg (docker.task_text task)) ≡ ok id
      → docker.reload id ≡ r
      → Leaves cfg docker task m
          (waited task (opened cfg docker task id r (record m { containers = id ∷ m.containers })))
  unfolding get_session find
  opened-Leaves task m id (err e) ran lost = inr (inl (id, ran, lost, refl))
  opened-Leaves task m id (ok networks) ran read =
      let (ip, address, text) = endpoint_of-cases networks in
      settle-Leaves task m _ _ _
        (rw (==_refl task) refl, refl, networks, ip, ran, read, address, text)

  started-Leaves :
      (task : ℕ) (m : Manager) (r : Result String)
      → docker.run (container_spec cfg (docker.task_text task)) ≡ r
      → Leaves cfg docker task m (waited task (started cfg docker task r m))
  started-Leaves task m (err e) lost = inl (lost, refl)
  started-Leaves task m (ok id) ran = opened-Leaves task m id (docker.reload id) ran refl

  -- With a result, the session is stored under the task; its container is the one that docker started, and its
  -- endpoint is at the container's address in the sandboxes' network, or in another where it has none there, or
  -- at no address where it has none at all. With an error, no container was started and nothing is changed, or
  -- one was started, could not be read again, and is all that is changed, or the task has no session.
  pub create_session_lem :
      (task : ℕ) (m : Manager) → Leaves cfg docker task m (create_session cfg docker task m)
  unfolding create_session ◌>>=◌ start_container
  create_session_lem task m =
      started-Leaves task m (docker.run (container_spec cfg (docker.task_text task))) refl
