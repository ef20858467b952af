-- ===== src/Requests/Capacity.antt =====
-- When `create_container` of helpers.py launches a container.
use ctf_plugin_docker_per_te.Prelude.{
  ℕ, ◌<◌, String, ◌≡◌, ◌≢◌, refl, sym, ap, subst, ◌∙◌, Bool, true, false, not, ◌||◌, leb, nat_eq,
  Option, none, some, List, first, length, get, arith, All, In, nat_eq_iff,
}
use ctf_plugin_docker_per_te.Text.Numbers.{ℤ, is_positive, to_ℕ}
use ctf_plugin_docker_per_te.Result.{Result, ok, err}
use ctf_plugin_docker_per_te.Models.{Challenge, Solve, ContainerInfo, Session, rollback}
use ctf_plugin_docker_per_te.Models.Queries.{find_challenge, first-eq-none, All-map}
use ctf_plugin_docker_per_te.Models.Accounts.{IsSolve, found-challenge, unsolved-All}
use ctf_plugin_docker_per_te.Records.{solve_exists_for_account}
use ctf_plugin_docker_per_te.Manager.{Fault, World, continue-eq-ok, recover-eq-ok}
use ctf_plugin_docker_per_te.Manager.Connection.{int_of}
use ctf_plugin_docker_per_te.Manager.Containers.{LockReply, unsupported, acquired, busy}
use ctf_plugin_docker_per_te.Manager.Launching.{Created}
use ctf_plugin_docker_per_te.Requests.{
  Runtime, Reply, created, active_or_failed, at_capacity, launch, running_or_launched, unless_full,
  with_active, judged, within, unless_solved, unsolved, create_container, as_reply,
}
use ctf_plugin_docker_per_te.Requests.Active.{Active, counted-Active}
use ctf_plugin_docker_per_te.Requests.Endpoint.{build_connection_payload, Payload}

not_on : false ≡ true → ⊥
not_on h = cc h

abbrev is_created : Reply → Bool
is_created (created p) = true
is_created r = false

abbrev answers_created : Result Fault Reply → Bool
answers_created (ok r) = is_created r
answers_created (err e) = false

module _ {D : Type 0} (runtime : Runtime D) (request_host : Option String) (xid : ℕ)
    (is_team : Bool) where
  -- The account has fewer active containers than it may have, none of them for this challenge, and
  -- the manager has made a new one.
  abbrev Launched : Challenge → ℤ → List ContainerInfo → Payload → Type 0
  Launched challenge n active p =
      (is_positive n ≡ true)
      × (length active < to_ℕ n)
      × (first (λ (i : ContainerInfo). nat_eq i.challenge_id challenge.id) active ≡ none)
      × ((w1 : World D) × (w2 : World D) × (c : Created) × (runtime.create_container challenge xid
              is_team w1
            ≡ (ok c, w2))
          × (p.port ≡ c.port)
          × (p.expires ≡ c.expires))

  has_room : (b : Bool) (m n : ℕ) → (leb n m || not b) ≡ false → (b ≡ true) × (m < n)
  has_room b m n h = ground arith

  abbrev Made : Challenge → Payload → Type 0
  Made challenge p =
      (w1 : World D) × (w2 : World D) × (c : Created) × (runtime.create_container challenge xid
          is_team w1
        ≡ (ok c, w2))
      × (p.port ≡ c.port)
      × (p.expires ≡ c.expires)

  created_injective :
      {p q : Payload} {w w' : World D}
      → ◌≡◌ {A = Result Fault Reply × World D} (ok (created p), w) (ok (created q), w')
      → p ≡ q
  created_injective h = cc h

  launch-Made :
      (challenge : Challenge) (p : Payload) (w w' : World D)
      → launch runtime request_host xid is_team challenge w ≡ (ok (created p), w')
      → Made challenge p
  unfolding build_connection_payload
  launch-Made challenge p w w' h =
      let (c, w1, made, h1) =
        continue-eq-ok (runtime.create_container challenge xid is_team w) _ h in
      let same = created_injective h1 in
      (
        w,
        w1,
        c,
        made,
        sym (ap (λ (q : Payload). q.port) same),
        sym (ap (λ (q : Payload). q.expires) same),
      )

  -- An answer other than "created".
  refused :
      {p : Payload} {w w' : World D} (r : Reply)
      → not (is_created r) ≡ true
      → ◌≡◌ {A = Result Fault Reply × World D} (ok r, w) (ok (created p), w')
      → ⊥
  refused r other h =
      not_on (sym (ap (λ (r : Result Fault Reply × World D). not (answers_created r.0)) h) ∙ other)

  running-Made :
      (challenge : Challenge) (running : Option ContainerInfo) (p : Payload) (w w' : World D)
      → running_or_launched runtime request_host xid is_team challenge running w
        ≡ (ok (created p), w')
      → (running ≡ none) × Made challenge p
  running-Made challenge (some info) p w w' h = absurd (refused _ refl h)
  running-Made challenge none p w w' h = (
    refl,
    launch-Made challenge p w w' (
        recover-eq-ok (launch runtime request_host xid is_team challenge w) (as_reply runtime)
          (λ e v bad. not_on (ap (λ (r : Result Fault Reply). answers_created r) bad)) h),
  )

  unless_full-Launched :
      (challenge : Challenge) (n : ℤ) (active : List ContainerInfo) (full : Bool) (p : Payload)
      (w w' : World D)
      → unless_full runtime request_host xid is_team challenge n active full w
        ≡ (ok (created p), w')
      → (full ≡ false)
        × (first (λ (i : ContainerInfo). nat_eq i.challenge_id challenge.id) active ≡ none)
        × Made challenge p
  unless_full-Launched challenge n active true p w w' h = absurd (refused _ refl h)
  unless_full-Launched challenge n active false p w w' h =
      let (fresh, made) = running-Made challenge _ p w w' h in (refl, fresh, made)

  with_active-Launched :
      (challenge : Challenge) (n : ℤ) (active : List ContainerInfo) (p : Payload) (w w' : World D)
      → with_active runtime request_host xid is_team challenge n active w ≡ (ok (created p), w')
      → Launched challenge n active p
  with_active-Launched challenge n active p w w' h =
      let (room, fresh, made) =
        unless_full-Launched challenge n active
          (at_capacity runtime request_host xid is_team active n) p w w' h in
      let (positive, below) = has_room (is_positive n) (length active) (to_ℕ n) room in
      (positive, below, fresh, made)

  judged-Launched :
      (challenge : Challenge) (n : ℤ) (found : Result Fault (List ContainerInfo)) (p : Payload)
      (w w' : World D)
      → judged runtime request_host xid is_team challenge n found w ≡ (ok (created p), w')
      → (active : List ContainerInfo) × (found ≡ ok active) × Launched challenge n active p
  judged-Launched challenge n (err e) p w w' h = absurd (refused _ refl h)
  judged-Launched challenge n (ok active) p w w' h =
      (active, refl, with_active-Launched challenge n active p w w' h)

  -- What the account's active containers are, when they are counted.
  abbrev Counted : World D → List ContainerInfo → Type 0
  Counted w active =
      (w1 : World D) × (active_or_failed runtime request_host xid is_team w ≡ (ok (ok active), w1))

  abbrev AdmittedBy : Challenge → Payload → World D → Type 0
  AdmittedBy challenge p w =
      (n : ℤ) × (int_of 3 (get w.manager.settings "max_containers") ≡ some n)
      × (active : List ContainerInfo) × Counted w active
      × Launched challenge n active p

  within-Admitted :
      (challenge : Challenge) (max : Option ℤ) (p : Payload) (w w' : World D)
      → within runtime request_host xid is_team challenge max w ≡ (ok (created p), w')
      → (n : ℤ) × (max ≡ some n)
        × (active : List ContainerInfo) × Counted w active
        × Launched challenge n active p
  within-Admitted challenge none p w w' h = absurd (refused _ refl h)
  within-Admitted challenge (some n) p w w' h =
      let (found, w1, counted, h1) =
        continue-eq-ok (active_or_failed runtime request_host xid is_team w) _ h in
      let (active, same, launched) = judged-Launched challenge n found p w1 w' h1 in
      (
        n,
        refl,
        active,
        (
          w1,
          subst (λ r. active_or_failed runtime request_host xid is_team w ≡ (ok r, w1)) same
              counted,
        ),
        launched,
      )

  unless_solved-Admitted :
      (challenge : Challenge) (solve : Option Solve) (p : Payload) (w w' : World D)
      → unless_solved runtime request_host xid is_team challenge solve w ≡ (ok (created p), w')
      → (solve ≡ none) × AdmittedBy challenge p w
  unless_solved-Admitted challenge (some s) p w w' h = absurd (refused _ refl h)
  unless_solved-Admitted challenge none p w w' h = (refl, within-Admitted challenge _ p w w' h)

  unsolved-Admitted :
      (chal_id : ℕ) (s : Session) (found : Option Challenge) (p : Payload) (w w' : World D)
      → unsolved runtime request_host xid is_team chal_id s found w ≡ (ok (created p), w')
      → (challenge : Challenge) × (found ≡ some challenge)
        × (solve_exists_for_account is_team chal_id xid s.view ≡ none)
        × AdmittedBy challenge p w
  unsolved-Admitted chal_id s none p w w' h = absurd (refused _ refl h)
  unsolved-Admitted chal_id s (some challenge) p w w' h =
      let (unsolved, admitted) =
        unless_solved-Admitted challenge (solve_exists_for_account is_team chal_id xid s.view) p w
          w' h in
      (challenge, refl, unsolved, admitted)

  -- The account has room: its active containers are fewer than `max_containers`, none of them is
  -- for this challenge, and the manager has made a new one, with the answer's port and expiry.
  abbrev pub Admitted : Challenge → Payload → World D → Type 0
  Admitted challenge p w =
      (n : ℤ) × (int_of 3 (get w.manager.settings "max_containers") ≡ some n)
      × (active : List ContainerInfo) × Active runtime is_team xid w.session.view.infos active
      × (is_positive n ≡ true)
      × (length active < to_ℕ n)
      × All (λ (info : ContainerInfo). info.challenge_id ≢ challenge.id) active
      × Made challenge p

  by-Admitted :
      (challenge : Challenge) (p : Payload) (w : World D)
      → AdmittedBy challenge p w
      → Admitted challenge p w
  by-Admitted challenge p w (n, max, active, (w1, counted), (positive, below, fresh, made)) = (
    n,
    max,
    active,
    counted-Active runtime is_team xid request_host w w1 active counted,
    positive,
    below,
    All-map _ _ active
        (λ (info : ContainerInfo) other same.
          not_on (sym other ∙ (nat_eq_iff info.challenge_id challenge.id).1 same))
        (first-eq-none _ active fresh),
    made,
  )

  -- The challenge is in the table and has no solve of the account there, and the account has room.
  abbrev pub Admissible : ℕ → Payload → World D → Type 0
  Admissible chal_id p w =
      (challenge : Challenge) × In challenge w.session.view.challenges
      × (challenge.id ≡ chal_id)
      × All (λ (solve : Solve). IsSolve is_team xid chal_id solve → ⊥) w.session.view.solves
      × Admitted challenge p w

  unsolved-Admissible :
      (chal_id : ℕ) (p : Payload) (w w' : World D)
      → unsolved runtime request_host xid is_team chal_id w.session
          (find_challenge w.session.view chal_id)
          w
        ≡ (ok (created p), w')
      → Admissible chal_id p w
  unsolved-Admissible chal_id p w w' h =
      let (challenge, found, fresh, admitted) =
        unsolved-Admitted chal_id w.session (find_challenge w.session.view chal_id) p w w' h in
      let (there, same) = found-challenge w.session.view chal_id challenge found in
      (
        challenge,
        there,
        same,
        unsolved-All w.session.view is_team xid chal_id fresh,
        by-Admitted challenge p w admitted,
      )

  abbrev pub refreshed : World D → World D
  refreshed w = record w { session = rollback w.session }

  -- The handler answers "created" only if it holds the lock of the account or the database has
  -- none, the challenge exists and the account has no solve of it, the account's active containers
  -- (its committed rows whose container the manager finds running) are fewer than `max_containers`,
  -- none of them is for the challenge, and the manager has made a new container; the answer has
  -- that container's port and expiry.
  pub created-Admitted :
      (lock : LockReply) (chal_id : ℕ) (p : Payload) (w w' : World D)
      → create_container runtime request_host xid is_team lock chal_id w ≡ (ok (created p), w')
      → (lock ≢ busy) × Admissible chal_id p (refreshed w)
  unfolding create_container
  created-Admitted unsupported chal_id p w w' h =
      ((λ bad. cc bad), unsolved-Admissible chal_id p (refreshed w) w' h)
  created-Admitted acquired chal_id p w w' h =
      ((λ bad. cc bad), unsolved-Admissible chal_id p (refreshed w) w' h)
  created-Admitted busy chal_id p w w' h = absurd (refused _ refl h)
