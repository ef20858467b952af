-- ===== src/Flags/Repeat.antt =====
-- A rejected submission that is made again.
use ctf_plugin_docker_per_te.Prelude.{
  ℕ, String, ◌≡◌, refl, sym, ap, ap₂, subst, ◌∙◌, inl, inr, Bool, false, ◌&&◌, nat_eq, ◌==◌, Option,
  none, some, first, Bool-cases,
}
use ctf_plugin_docker_per_te.Result.{err}
use ctf_plugin_docker_per_te.Models.{Challenge, ContainerInfo, ContainerFlag, User, Session}
use ctf_plugin_docker_per_te.Flags.{
  FlagError, incorrect, owner_filters, get_expected_static_flag, is_foreign, issued_here, owned_row,
  review_foreign, get_container_flag,
}
use ctf_plugin_docker_per_te.Flags.Reuse.{Leaves, log_reused_once, rejected-inv, rejected-Leaves}

module _ (sha256 : String → String) (is_team : Bool) (challenge : Challenge) (submitted : String)
    (user : User) (now later : ℕ) (s s' : Session) where
  Leaves-flags :
      Leaves sha256 is_team challenge submitted user now s s' → s'.view.flags ≡ s.view.flags
  Leaves-flags (inl same) = ap (λ (t : Session). t.view.flags) same
  Leaves-flags (inr (_, _, _, _, _, _, e)) = ap (λ (t : Session). t.view.flags) e

  Leaves-static_flags :
      Leaves sha256 is_team challenge submitted user now s s'
      → s'.view.static_flags ≡ s.view.static_flags
  Leaves-static_flags (inl same) = ap (λ (t : Session). t.view.static_flags) same
  Leaves-static_flags (inr (_, _, _, _, _, _, e)) = ap (λ (t : Session). t.view.static_flags) e

  expected_kept :
      Leaves sha256 is_team challenge submitted user now s s'
      → get_expected_static_flag s'.view challenge ≡ get_expected_static_flag s.view challenge
  unfolding get_expected_static_flag
  expected_kept kept = rw (Leaves-static_flags kept) refl

module _ (sha256 : String → String) (is_team : Bool) (challenge : Challenge) (user : User)
    (now later : ℕ) (s : Session) where
  review_again :
      (found : Option ContainerFlag)
      → let s' = review_foreign sha256 is_team challenge found user now s in
        review_foreign sha256 is_team challenge found user later s' ≡ s'
  unfolding review_foreign
  review_again none = refl
  review_again (some flag) =
      elim (Bool-cases (challenge.flag_mode == "random" && is_foreign sha256 is_team flag user)) [
        | inl suspect ↦ rw suspect (log_reused_once sha256 is_team flag user now later s)
        | inr quiet ↦ rw quiet refl
      ]

-- A session in which no row answers the submission rejects it.
rejects_of :
    (sha256 : String → String) (is_team : Bool) (submitted : String) (user : User)
    (container : Option ContainerInfo) (challenge : Challenge) (later : ℕ) (s' : Session)
    → issued_here container submitted ≡ none
    → first (owned_row challenge (owner_filters is_team user) submitted) s'.view.flags ≡ none
    → (challenge.flag_mode == "static" && submitted == get_expected_static_flag s'.view challenge)
      ≡ false
    → get_container_flag sha256 is_team submitted user container challenge later s' ≡ (
      err incorrect,
      review_foreign sha256 is_team challenge
          (first (λ f. nat_eq f.challenge_id challenge.id && f.flag == submitted) s'.view.flags)
          user
          later
          s',
    )
unfolding get_container_flag
rejects_of sha256 is_team submitted user container challenge later s' elsewhere missing wrong =
    rw (elsewhere, missing, wrong) refl

-- The same rejected submission made again, at any later time, is rejected again and changes
-- nothing: a reuse is logged once.
pub rejected_again :
    (sha256 : String → String) (is_team : Bool) (submitted : String) (user : User)
    (container : Option ContainerInfo) (challenge : Challenge) (now later : ℕ) (s s' : Session)
    (e : FlagError)
    → get_container_flag sha256 is_team submitted user container challenge now s ≡ (err e, s')
    → get_container_flag sha256 is_team submitted user container challenge later s' ≡ (err e, s')
rejected_again sha256 is_team submitted user container challenge now later s s' e h =
    let (elsewhere, missing, wrong, same, after) =
      rejected-inv sha256 is_team submitted user container challenge now s s' e h in
    let kept = (rejected-Leaves sha256 is_team submitted user container challenge now s s' e h).1 in
    let flags = Leaves-flags sha256 is_team challenge submitted user now later s s' kept in
    let expected = expected_kept sha256 is_team challenge submitted user now later s s' kept in
    let missing' : first (owned_row challenge (owner_filters is_team user) submitted) s'.view.flags
        ≡ none =
      rw flags missing in
    let wrong' : (challenge.flag_mode == "static"
          && submitted == get_expected_static_flag s'.view challenge)
        ≡ false =
      rw expected wrong in
    rejects_of sha256 is_team submitted user container challenge later s' elsewhere missing' wrong'
    ∙ ap₂ (λ e t. (err e, t)) (sym same)
        (ap
            (λ rows.
              review_foreign sha256 is_team challenge
                (first (λ f. nat_eq f.challenge_id challenge.id && f.flag == submitted) rows) user
                later s')
            flags
          ∙ subst
              (λ t.
                review_foreign sha256 is_team challenge
                  (first (λ f. nat_eq f.challenge_id challenge.id && f.flag == submitted)
                    s.view.flags)
                  user later t
                ≡ t)
              (sym after)
              (review_again sha256 is_team challenge user now later s (
                first (λ f. nat_eq f.challenge_id challenge.id && f.flag == submitted)
                  s.view.flags)))
