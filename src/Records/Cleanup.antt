-- ===== src/Records/Cleanup.antt =====
-- What `cleanup_container_records` of helpers.py leaves in the database.
use ctf_plugin_docker_per_te.Prelude.{
  String, ◌≡◌, refl, sym, ap, ◌∙◌, inl, inr, Bool, true, false, not, ◌==◌, eq_iff, Option, none,
  some, List, [], ◌∷◌, first, keep, map, All, Bool-cases, Option-cases,
}
use ctf_plugin_docker_per_te.Models.{Challenge, Owner, ContainerInfo, ContainerFlag, Db, Session}
use ctf_plugin_docker_per_te.Models.Queries.{find_challenge, find_info}
use ctf_plugin_docker_per_te.Flags.{owned_row}
use ctf_plugin_docker_per_te.Records.{
  is_attached, detached, released_flags, other_infos, commit_if, cleanup_container_records,
}

abbrev pub map_option {ℓ} : {A : Type ℓ} → (A → A) → Option A → Option A
map_option f none = none
map_option f (some x) = some (f x)

first-keep {ℓ} :
    {A : Type ℓ} (test kept : A → Bool) (xs : List A)
    → ((x : A) → test x ≡ true → kept x ≡ true)
    → first test (keep kept xs) ≡ first test xs
first-keep test kept [] imp = refl
first-keep test kept (x ∷ xs) imp = elim (Bool-cases (test x)) [
  | inl hit ↦ rw (imp x hit, hit) refl
  | inr miss ↦ elim (Bool-cases (kept x)) [
    | inl held ↦ rw (held, miss) (first-keep test kept xs imp)
    | inr gone ↦ rw (gone, miss) (first-keep test kept xs imp)
  ]
]

first-keep-none {ℓ} :
    {A : Type ℓ} (test : A → Bool) (xs : List A) → first test (keep (λ x. not (test x)) xs) ≡ none
first-keep-none test [] = refl
first-keep-none test (x ∷ xs) = elim (Bool-cases (test x)) [
  | inl hit ↦ rw hit (first-keep-none test xs)
  | inr miss ↦ rw (miss, miss) (first-keep-none test xs)
]

All-keep {ℓ} :
    {A : Type ℓ} (test : A → Bool) (xs : List A) → All (λ x. test x ≡ true) (keep test xs)
All-keep test [] = tt
All-keep test (x ∷ xs) = elim (Bool-cases (test x)) [
  | inl hit ↦ rw hit (hit, All-keep test xs)
  | inr miss ↦ rw miss (All-keep test xs)
]

detached-free :
    (container_id : String) (f : ContainerFlag)
    → not (is_attached container_id (detached container_id f)) ≡ true
detached-free container_id f = elim (Bool-cases (is_attached container_id f)) [
  | inl hit ↦ rw hit refl
  | inr miss ↦ rw (miss, miss) refl
]

All-detached :
    (container_id : String) (fs : List ContainerFlag)
    → All (λ f. not (is_attached container_id f) ≡ true) (map (detached container_id) fs)
All-detached container_id [] = tt
All-detached container_id (f ∷ fs) = (detached-free container_id f, All-detached container_id fs)

released-free :
    (flag_mode container_id : String) (fs : List ContainerFlag)
    → All (λ f. not (is_attached container_id f) ≡ true) (released_flags flag_mode container_id fs)
released-free flag_mode container_id fs = elim (Bool-cases (flag_mode == "static")) [
  | inl static ↦ rw static (All-keep (λ f. not (is_attached container_id f)) fs)
  | inr random ↦ rw random (All-detached container_id fs)
]

some_injective {ℓ} : {A : Type ℓ} {a b : A} → ◌≡◌ {A = Option A} (some a) (some b) → a ≡ b
some_injective h = cc h

commit_if-view : (now : Bool) (s s' : Session) → commit_if now (some s) ≡ some s' → s'.view ≡ s.view
commit_if-view true s s' h = sym (ap (λ (t : Session). t.view) (some_injective h))
commit_if-view false s s' h = sym (ap (λ (t : Session). t.view) (some_injective h))

-- What a cleanup that returns has done, committed or not.
cleanup-inv :
    (info : ContainerInfo) (now : Bool) (s s' : Session)
    → cleanup_container_records (some info) now s ≡ some s'
    → (c : Challenge) × (find_challenge s.view info.challenge_id ≡ some c)
      × (s'.view ≡ record s.view {
        flags = released_flags c.flag_mode info.container_id s.view.flags;
        infos = other_infos info.container_id s.view.infos;
      })
unfolding cleanup_container_records
cleanup-inv info now s s' h = elim (Option-cases (find_challenge s.view info.challenge_id)) [
  | inl gone ↦ cc (rw gone at h)
  | inr (c, found) ↦ (c, found, commit_if-view now _ s' (rw found at h))
]

apart_from : (a b c : String) → (a == b) ≡ true → (c == b) ≡ false → not (a == c) ≡ true
apart_from a b c same apart = elim (Bool-cases (a == c)) [
  | inr differ ↦ rw differ refl
  | inl meet ↦
      let hit : (c == b) ≡ true =
        (eq_iff c b).1 (sym ((eq_iff a c).0 meet) ∙ (eq_iff a b).0 same) in
      cc (hit, apart)
]

-- A cleanup that returns has removed the container's row and no other container's, and no flag
-- is attached to the container any more.
pub cleanup-forgets :
    (info : ContainerInfo) (now : Bool) (s s' : Session)
    → cleanup_container_records (some info) now s ≡ some s'
    → (find_info s'.view info.container_id ≡ none)
      × ((other : String)
          → (info.container_id == other) ≡ false
          → find_info s'.view other ≡ find_info s.view other)
      × All (λ f. not (is_attached info.container_id f) ≡ true) s'.view.flags
unfolding find_info
cleanup-forgets info now s s' h =
    let (c, found, after) = cleanup-inv info now s s' h in
    (
      rw (ap (λ (db : Db). db.infos) after)
          (first-keep-none (λ i. i.container_id == info.container_id) s.view.infos),
      (λ other apart. rw (ap (λ (db : Db). db.infos) after) (
          first-keep (λ i. i.container_id == other) (λ i. not (i.container_id == info.container_id))
            s.view.infos (λ i here. apart_from i.container_id other info.container_id here apart))),
      rw (ap (λ (db : Db). db.flags) after)
          (released-free c.flag_mode info.container_id s.view.flags),
    )

first-map {ℓ} :
    {A : Type ℓ} (test : A → Bool) (f : A → A) (xs : List A)
    → ((x : A) → test (f x) ≡ test x)
    → first test (map f xs) ≡ map_option f (first test xs)
first-map test f [] same = refl
first-map test f (x ∷ xs) same = elim (Bool-cases (test x)) [
  | inl hit ↦ rw (same x, hit) refl
  | inr miss ↦ rw (same x, miss) (first-map test f xs same)
]

detached-owned_row :
    (c : Challenge) (owner : Owner) (submitted container_id : String) (f : ContainerFlag)
    → owned_row c owner submitted (detached container_id f) ≡ owned_row c owner submitted f
detached-owned_row c owner submitted container_id f =
    elim (Bool-cases (is_attached container_id f)) [
      | inl hit ↦ rw hit refl
      | inr miss ↦ rw miss refl
    ]

-- The teardown of a random-flag challenge keeps its flags: whatever flag an account could submit
-- before, it finds the same row afterwards, detached from the container if it was attached.
pub cleanup-keeps_random :
    (info : ContainerInfo) (now : Bool) (s s' : Session) (c : Challenge)
    → cleanup_container_records (some info) now s ≡ some s'
    → find_challenge s.view info.challenge_id ≡ some c
    → (c.flag_mode == "static") ≡ false
    → (challenge : Challenge) (owner : Owner) (submitted : String)
    → first (owned_row challenge owner submitted) s'.view.flags
      ≡ map_option
          (detached info.container_id)
          (first (owned_row challenge owner submitted) s.view.flags)
cleanup-keeps_random info now s s' c h here random challenge owner submitted =
    let (c', found, after) = cleanup-inv info now s s' h in
    let same : c' ≡ c = some_injective (sym found ∙ here) in
    let rows : s'.view.flags ≡ map (detached info.container_id) s.view.flags =
      ap (λ (db : Db). db.flags) after
      ∙ ap (λ (c : Challenge). released_flags c.flag_mode info.container_id s.view.flags) same
      ∙ rw random refl in
    ap (first (owned_row challenge owner submitted)) rows
    ∙ first-map (owned_row challenge owner submitted) (detached info.container_id) s.view.flags
        (detached-owned_row challenge owner submitted info.container_id)
