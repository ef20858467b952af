-- ===== src/Flags/Stored.antt =====
-- helpers.py: the row that a submission is accepted for.
use ctf_plugin_docker_per_te.Prelude.{
  ℕ, ◌≡◌, refl, String, Bool, true, false, ◌&&◌, ◌||◌, nat_eq, nat_eq_iff, ◌==◌, Option, some, List,
  [], ◌∷◌, ◌++◌, any, first, inl, inr, Bool-cases, Option-cases, subst,
}
use ctf_plugin_docker_per_te.Result.{Result, ok}
use ctf_plugin_docker_per_te.Models.{Challenge, Owner, ContainerInfo, ContainerFlag, User, Session}
use ctf_plugin_docker_per_te.Flags.{
  FlagError, add_flag, found_or_added, owner_filters, issued_here, container_row, owned_row,
  container_id_of, get_expected_static_flag, get_container_flag,
}

-- Whether a table has a row with the number of another.
abbrev pub HasRow : List ContainerFlag → ContainerFlag → Type 0
HasRow rows flag = any (λ f. nat_eq f.id flag.id) rows ≡ true

either : (a b : Bool) → b ≡ true → (a || b) ≡ true
either true b e = refl
either false b e = e

first-HasRow :
    (test : ContainerFlag → Bool) (rows : List ContainerFlag) (flag : ContainerFlag)
    → first test rows ≡ some flag
    → HasRow rows flag
first-HasRow test [] flag h = cc h
first-HasRow test (row ∷ rows) flag h = elim (Bool-cases (test row)) [
  | inl hit ↦
      let same : row ≡ flag = cc (rw hit at h) in
      rw (← same, (nat_eq_iff row.id row.id).1 refl) refl
  | inr miss ↦ either (nat_eq row.id flag.id) _ (first-HasRow test rows flag (rw miss at h))
]

last-HasRow : (rows : List ContainerFlag) (flag : ContainerFlag) → HasRow (rows ++ flag ∷ []) flag
last-HasRow [] flag = rw ((nat_eq_iff flag.id flag.id).1 refl) refl
last-HasRow (row ∷ rows) flag = either (nat_eq row.id flag.id) _ (last-HasRow rows flag)

carried-HasRow :
    (a flag : ContainerFlag) (s s' : Session)
    → ◌≡◌ {A = Result FlagError ContainerFlag × Session} (ok a, s) (ok flag, s')
    → HasRow s.view.flags a
    → HasRow s'.view.flags flag
carried-HasRow a flag s s' h there =
    let row : a ≡ flag = cc h in
    let session : s ≡ s' = cc h in
    subst (λ t. HasRow t.view.flags flag) session (subst (HasRow s.view.flags) row there)

found-HasRow :
    (test : ContainerFlag → Bool) (challenge_id : ℕ) (container_id : Option String)
    (submitted : String) (owner : Owner) (s s' : Session) (flag : ContainerFlag)
    → found_or_added
        (first test s.view.flags)
        (add_flag challenge_id container_id submitted owner s)
        s
      ≡ (ok flag, s')
    → HasRow s'.view.flags flag
unfolding add_flag
found-HasRow test challenge_id container_id submitted owner s s' flag h =
    elim (Option-cases (first test s.view.flags)) [
      | inl missing ↦ carried-HasRow _ flag _ s' (rw missing at h) (last-HasRow s.view.flags _)
      | inr (f, found) ↦
          carried-HasRow f flag s s' (rw found at h) (first-HasRow test s.view.flags f found)
    ]

-- Whoever it is issued for, the row that an accepted submission names stands in the table that
-- `get_container_flag` leaves.
pub accepted-HasRow :
    (sha256 : String → String) (is_team : Bool) (submitted : String) (user : User)
    (container : Option ContainerInfo) (challenge : Challenge) (now : ℕ) (s s' : Session)
    (flag : ContainerFlag)
    → get_container_flag sha256 is_team submitted user container challenge now s ≡ (ok flag, s')
    → HasRow s'.view.flags flag
unfolding get_container_flag
accepted-HasRow sha256 is_team submitted user container challenge now s s' flag h =
    let owner = owner_filters is_team user in
    elim (Option-cases (issued_here container submitted)) [
      | inr (info, issued) ↦
          found-HasRow (container_row challenge info submitted) challenge.id
            (some info.container_id) submitted owner s s' flag (rw issued at h)
      | inl elsewhere ↦
          elim (Option-cases (first (owned_row challenge owner submitted) s.view.flags)) [
            | inr (f, found) ↦
                carried-HasRow f flag s s' (rw (elsewhere, found) at h)
                  (first-HasRow (owned_row challenge owner submitted) s.view.flags f found)
            | inl missing ↦
                elim (Bool-cases (
                  challenge.flag_mode == "static"
                  && submitted == get_expected_static_flag s.view challenge)) [
                    | inl right ↦
                        found-HasRow (owned_row challenge owner submitted) challenge.id
                          (container_id_of container) submitted owner s s' flag
                          (rw (elsewhere, missing, right) at h)
                    | inr wrong ↦ cc (rw (elsewhere, missing, wrong) at h)
                  ]
          ]
    ]
