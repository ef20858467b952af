-- ===== src/Flags/Accepted.antt =====
-- Whose flags `get_container_flag` accepts.
use text.Mathlib.TextPositions.{eq_refl}
use ctf_plugin_docker_per_te.Prelude.{
  ℕ, String, ◌≡◌, refl, sym, ap, ◌⊎◌, inl, inr, Bool, true, ◌&&◌, nat_eq, nat_eq_iff, ◌==◌, eq_iff,
  Option, none, some, List, first, arith, Bool-cases, Option-cases,
}
use ctf_plugin_docker_per_te.Result.{ok}
use ctf_plugin_docker_per_te.Models.{Challenge, Owner, ContainerInfo, ContainerFlag, User, Session}
use ctf_plugin_docker_per_te.Models.Queries.{text_eq, owner_eq_iff, first-eq-some}
use ctf_plugin_docker_per_te.Flags.{
  owner_filters, get_expected_static_flag, add_flag, issued_here, container_id_of, found_or_added,
  container_row, owned_row, get_container_flag,
}

-- The row answers the submission, and it was issued for the account's container, or belongs to the
-- account.
pub record IsOwnFlag (submitted : String) (owner : Owner) (container : Option ContainerInfo)
    (challenge : Challenge) (flag : ContainerFlag) : Type 0 where
  pub challenge_lem : flag.challenge_id ≡ challenge.id
  pub submitted_lem : flag.flag ≡ submitted
  pub provenance :
      ((info : ContainerInfo) × (container ≡ some info)
        × (info.flag ≡ submitted)
        × (flag.container_id ≡ some info.container_id))
      ⊎ (flag.owner ≡ owner)

pub text_eq_iff : (a b : Option String) → text_eq a b ≡ true → a ≡ b
text_eq_iff none none h = refl
text_eq_iff (some s) (some t) h = ap some ((eq_iff s t).0 h)
text_eq_iff none (some t) h = cc h
text_eq_iff (some s) none h = cc h

issued_here-inv :
    (container : Option ContainerInfo) (submitted : String) (info : ContainerInfo)
    → issued_here container submitted ≡ some info
    → (container ≡ some info) × (info.flag ≡ submitted)
issued_here-inv none submitted info h = cc h
issued_here-inv (some i) submitted info h = elim (Bool-cases (submitted == i.flag)) [
  | inl same ↦
      let e : i ≡ info = cc (rw same at h) in (ap some e, rw (← e) (sym ((eq_iff _ _).0 same)))
  | inr other ↦ cc (rw other at h)
]

module _ (submitted : String) (owner : Owner) (container : Option ContainerInfo)
    (challenge : Challenge) (flag : ContainerFlag) where
  container_row-IsOwnFlag :
      (info : ContainerInfo)
      → issued_here container submitted ≡ some info
      → container_row challenge info submitted flag ≡ true
      → IsOwnFlag submitted owner container challenge flag
  container_row-IsOwnFlag info issued row =
      let (here, same) = issued_here-inv container submitted info issued in
      record {
        challenge_lem = ground arith;
        submitted_lem = (eq_iff _ _).0 (ground arith);
        provenance = inl (info, here, same, text_eq_iff _ _ (ground arith));
      }

  owned_row-IsOwnFlag :
      owned_row challenge owner submitted flag ≡ true
      → IsOwnFlag submitted owner container challenge flag
  owned_row-IsOwnFlag row = record {
    challenge_lem = ground arith;
    submitted_lem = (eq_iff _ _).0 (ground arith);
    provenance = inr ((owner_eq_iff _ _).0 (ground arith));
  }

found_or_added-passes :
    (test : ContainerFlag → Bool) (rows : List ContainerFlag) (added : ContainerFlag × Session)
    (s s' : Session) (flag : ContainerFlag)
    → test added.0 ≡ true
    → found_or_added (first test rows) added s ≡ (ok flag, s')
    → test flag ≡ true
found_or_added-passes test rows added s s' flag fresh h = elim (Option-cases (first test rows)) [
  | inl missing ↦ let same : added.0 ≡ flag = cc (rw missing at h) in rw (← same) fresh
  | inr (f, found) ↦
      let same : f ≡ flag = cc (rw found at h) in rw (← same) (first-eq-some test rows f found)
]

nat_eq_refl : (n : ℕ) → nat_eq n n ≡ true
nat_eq_refl n = (nat_eq_iff n n).1 refl

added_container_row :
    (challenge : Challenge) (info : ContainerInfo) (submitted : String) (owner : Owner)
    (s : Session)
    → container_row challenge info submitted
        (add_flag challenge.id (some info.container_id) submitted owner s).0
      ≡ true
unfolding add_flag
added_container_row challenge info submitted owner s =
    rw (nat_eq_refl challenge.id) (rw (eq_refl info.container_id) (eq_refl submitted))

added_owned_row :
    (challenge : Challenge) (container_id : Option String) (submitted : String) (owner : Owner)
    (s : Session)
    → owned_row challenge owner submitted (add_flag challenge.id container_id submitted owner s).0
      ≡ true
unfolding add_flag
added_owned_row challenge container_id submitted owner s =
    rw (nat_eq_refl challenge.id) (rw (eq_refl submitted) ((owner_eq_iff owner owner).1 refl))

-- A submission is accepted only for a row of this challenge with the submitted flag, which was
-- issued for the account's own running container or belongs to the account: the flag of another
-- team or user is never accepted.
pub accepted-IsOwnFlag :
    (sha256 : String → String) (is_team : Bool) (submitted : String) (user : User)
    (container : Option ContainerInfo) (challenge : Challenge) (now : ℕ) (s s' : Session)
    (flag : ContainerFlag)
    → get_container_flag sha256 is_team submitted user container challenge now s ≡ (ok flag, s')
    → IsOwnFlag submitted (owner_filters is_team user) container challenge flag
unfolding get_container_flag
accepted-IsOwnFlag sha256 is_team submitted user container challenge now s s' flag h =
    let owner = owner_filters is_team user in
    elim (Option-cases (issued_here container submitted)) [
      | inr (info, issued) ↦
          container_row-IsOwnFlag submitted owner container challenge flag info issued (
            found_or_added-passes (container_row challenge info submitted) s.view.flags
              (add_flag challenge.id (some info.container_id) submitted owner s) s s' flag
              (added_container_row challenge info submitted owner s) (rw issued at h))
      | inl elsewhere ↦
          owned_row-IsOwnFlag submitted owner container challenge flag
            (elim (Option-cases (first (owned_row challenge owner submitted) s.view.flags)) [
              | inr (f, found) ↦
                  let same : f ≡ flag = cc (rw (elsewhere, found) at h) in
                  rw (← same)
                    (first-eq-some (owned_row challenge owner submitted) s.view.flags f found)
              | inl missing ↦
                  elim (Bool-cases (
                    challenge.flag_mode == "static"
                    && submitted == get_expected_static_flag s.view challenge)) [
                      | inl right ↦
                          found_or_added-passes (owned_row challenge owner submitted) s.view.flags
                            (add_flag challenge.id (container_id_of container) submitted owner s) s
                            s' flag
                            (added_owned_row challenge (container_id_of container) submitted owner
                              s)
                            (rw (elsewhere, missing, right) at h)
                      | inr wrong ↦ cc (rw (elsewhere, missing, wrong) at h)
                    ]
            ])
    ]
