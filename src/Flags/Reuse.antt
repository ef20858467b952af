-- ===== src/Flags/Reuse.antt =====
-- helpers.py: what a rejected submission leaves behind.
use Prim.Native.String
use text.Mathlib.TextPositions.{eq_refl}
use ctf_plugin_docker_per_te.Prelude.{
  ℕ, String, ◌≡◌, ◌≢◌, In, refl, ◌⊎◌, inl, inr, Bool, true, false, ◌&&◌, nat_eq, nat_eq_iff, ◌==◌,
  eq_iff, Option, none, some, [], ◌∷◌, ◌++◌, first, arith, Bool-cases, Option-cases,
}
use ctf_plugin_docker_per_te.Result.{err}
use ctf_plugin_docker_per_te.Models.{
  Challenge, Owner, ContainerInfo, ContainerFlag, CheatLog, Db, User, Session, commit, set_view,
}
use ctf_plugin_docker_per_te.Models.Queries.{
  owner_eq_iff, id_eq_iff, first-append, first-eq-some, first-In,
}
use ctf_plugin_docker_per_te.Flags.{
  FlagError, incorrect, owner_filters, get_expected_static_flag, issued_here, found_or_added,
  owned_row, fingerprint, same_reuse, reuse_log, log_reused_flag_submission, is_foreign,
  review_foreign, get_container_flag,
}

-- The row belongs to another team in team mode, to another user otherwise.
abbrev pub IsOthers : Bool → ContainerFlag → User → Type 0
IsOthers true flag user = flag.owner.team_id ≢ user.team_id
IsOthers false flag user = flag.owner.user_id ≢ some user.id

-- The submitter, by the column of the mode.
abbrev pub submitter : Bool → User → Owner
submitter true user = record { team_id = user.team_id; user_id = none }
submitter false user = record { team_id = none; user_id = some user.id }

same_submitter :
    (is_team : Bool) (user : User) → owner_filters is_team user ≡ submitter is_team user
same_submitter true user = refl
same_submitter false user = refl

no_bool : true ≡ false → ⊥
no_bool h = cc h

foreign-IsOthers :
    (sha256 : String → String) (is_team : Bool) (flag : ContainerFlag) (user : User)
    → is_foreign sha256 is_team flag user ≡ true
    → IsOthers is_team flag user
foreign-IsOthers sha256 true flag user h =
    λ same. no_bool (ground (arith, h, (id_eq_iff flag.owner.team_id user.team_id).1 same))
foreign-IsOthers sha256 false flag user h =
    λ same. no_bool (ground (arith, h, (id_eq_iff flag.owner.user_id (some user.id)).1 same))

module _ (sha256 : String → String) (is_team : Bool) where
  same_reuse_self :
      (flag : ContainerFlag) (user : User) (now : ℕ)
      → same_reuse sha256 is_team flag user (reuse_log sha256 is_team flag user now) ≡ true
  same_reuse_self flag user now =
      rw
        (
          eq_refl (fingerprint sha256 is_team flag.flag),
          (nat_eq_iff flag.challenge_id flag.challenge_id).1 refl,
          (owner_eq_iff flag.owner flag.owner).1 refl,
        )
        ((owner_eq_iff (owner_filters is_team user) (owner_filters is_team user)).1 refl)

  -- Logging again, at any time, changes nothing.
  pub log_reused_once :
      (flag : ContainerFlag) (user : User) (now later : ℕ) (s : Session)
      → let s' = log_reused_flag_submission sha256 is_team flag user now s in
        log_reused_flag_submission sha256 is_team flag user later s' ≡ s'
  unfolding log_reused_flag_submission
  log_reused_once flag user now later s =
      elim (Option-cases (first (same_reuse sha256 is_team flag user) s.view.cheat_logs)) [
        | inl fresh ↦ rw fresh (
            rw
              (first-append (same_reuse sha256 is_team flag user) s.view.cheat_logs
                (reuse_log sha256 is_team flag user now) fresh)
              (rw (same_reuse_self flag user now) refl))
        | inr (log, known) ↦ rw (known, known) refl
      ]

  -- The entry that a foreign row gives rise to.
  abbrev pub logged : ContainerFlag → User → ℕ → Session → Session
  logged flag user now s = commit (
      set_view s (record s.view {
        cheat_logs = s.view.cheat_logs ++ reuse_log sha256 is_team flag user now ∷ [];
      }))

  -- One entry more in the cheat log, committed: the digest of the text, the challenge, the owner of
  -- the row and the submitter.
  abbrev pub reported : Challenge → String → ContainerFlag → User → ℕ → Session → Session
  reported challenge submitted flag user now s =
      let entry : CheatLog = record {
        reused_flag = String.◌++◌ "sha256:" (sha256 submitted);
        challenge_id = challenge.id;
        original = flag.owner;
        second = submitter is_team user;
        timestamp = now;
      } in
      let db : Db = record s.view { cheat_logs = s.view.cheat_logs ++ entry ∷ [] } in
      record { view = db; saved = db }

  -- Nothing happens, or one entry about another account's row of a random-flag challenge is added.
  abbrev pub Leaves : Challenge → String → User → ℕ → Session → Session → Type 0
  Leaves challenge submitted user now s s' =
      (s' ≡ s)
      ⊎ ((flag : ContainerFlag) × In flag s.view.flags
          × (challenge.flag_mode ≡ "random")
          × (flag.flag ≡ submitted)
          × (flag.challenge_id ≡ challenge.id)
          × IsOthers is_team flag user
          × (s' ≡ reported challenge submitted flag user now s))

  logged-reported :
      (challenge : Challenge) (submitted : String) (flag : ContainerFlag) (user : User) (now : ℕ)
      (s : Session)
      → flag.flag ≡ submitted
      → flag.challenge_id ≡ challenge.id
      → logged flag user now s ≡ reported challenge submitted flag user now s
  logged-reported challenge submitted flag user now s text here =
      rw (text, here, same_submitter is_team user) refl

  both : (a b : Bool) → (a && b) ≡ true → (a ≡ true) × (b ≡ true)
  both a b h = ground arith

  module _ (challenge : Challenge) (submitted : String) (user : User) (now : ℕ) (s : Session) where
    abbrev pub issued_row : ContainerFlag → Bool
    issued_row f = nat_eq f.challenge_id challenge.id && f.flag == submitted

    review_foreign-Leaves :
        (found : Option ContainerFlag)
        → first issued_row s.view.flags ≡ found
        → Leaves challenge submitted user now s
            (review_foreign sha256 is_team challenge found user now s)
    unfolding review_foreign log_reused_flag_submission
    review_foreign-Leaves none e = inl refl
    review_foreign-Leaves (some flag) e =
        elim (Bool-cases (challenge.flag_mode == "random" && is_foreign sha256 is_team flag user)) [
          | inr quiet ↦ rw quiet (inl refl)
          | inl suspect ↦
              rw suspect
                (elim (Option-cases
                  (first (same_reuse sha256 is_team flag user) s.view.cheat_logs)) [
                    | inr (log, known) ↦ rw known (inl refl)
                    | inl fresh ↦
                        let (here, same) =
                          both _ _ (first-eq-some issued_row s.view.flags flag e) in
                        rw fresh (
                          inr (
                            flag,
                            first-In issued_row s.view.flags flag e,
                            (eq_iff _ _).0 (both _ _ suspect).0,
                            (eq_iff _ _).0 same,
                            (nat_eq_iff _ _).0 here,
                            foreign-IsOthers sha256 is_team flag user (both _ _ suspect).1,
                            logged-reported challenge submitted flag user now s
                                ((eq_iff _ _).0 same) ((nat_eq_iff _ _).0 here),
                          ))
                  ])
        ]

  -- How a submission comes to be rejected.
  module _ (submitted : String) (user : User) (container : Option ContainerInfo)
      (challenge : Challenge) (now : ℕ) (s s' : Session) (e : FlagError) where
    found_or_added-no_err :
        (found : Option ContainerFlag) (added : ContainerFlag × Session)
        → found_or_added found added s ≡ (err e, s')
        → ⊥
    found_or_added-no_err none added h = cc h
    found_or_added-no_err (some f) added h = cc h

    pub rejected-inv :
        get_container_flag sha256 is_team submitted user container challenge now s ≡ (err e, s')
        → (issued_here container submitted ≡ none)
          × (first (owned_row challenge (owner_filters is_team user) submitted) s.view.flags ≡ none)
          × ((challenge.flag_mode == "static"
                && submitted == get_expected_static_flag s.view challenge)
              ≡ false)
          × (e ≡ incorrect)
          × (s'
              ≡ review_foreign sha256 is_team challenge
                  (first (issued_row challenge submitted user now s) s.view.flags)
                  user
                  now
                  s)
    unfolding get_container_flag
    rejected-inv h = elim (Option-cases (issued_here container submitted)) [
      | inr (info, issued) ↦ absurd (found_or_added-no_err _ _ (rw issued at h))
      | inl elsewhere ↦
          elim (Option-cases
            (first (owned_row challenge (owner_filters is_team user) submitted) s.view.flags)) [
              | inr (f, found) ↦ cc (rw (elsewhere, found) at h)
              | inl missing ↦
                  elim (Bool-cases (
                    challenge.flag_mode == "static"
                    && submitted == get_expected_static_flag s.view challenge)) [
                      | inl right ↦
                          absurd (found_or_added-no_err _ _ (rw (elsewhere, missing, right) at h))
                      | inr wrong ↦
                          let h' = rw (elsewhere, missing, wrong) at h in
                          (elsewhere, missing, wrong, cc h', cc h')
                    ]
            ]
    ]

-- A rejected submission answers "Incorrect" and changes nothing, but for one case: the submission
-- is the flag of a row of another team (in team mode) or user, for this random-flag challenge. Then
-- one entry may be added to the cheat log and committed; it holds "sha256:" and the digest of the
-- flag, the row's owner and the submitter. No flag and no container is touched.
pub rejected-Leaves :
    (sha256 : String → String) (is_team : Bool) (submitted : String) (user : User)
    (container : Option ContainerInfo) (challenge : Challenge) (now : ℕ) (s s' : Session)
    (e : FlagError)
    → get_container_flag sha256 is_team submitted user container challenge now s ≡ (err e, s')
    → (e ≡ incorrect) × Leaves sha256 is_team challenge submitted user now s s'
rejected-Leaves sha256 is_team submitted user container challenge now s s' e h =
    let (_, _, _, same, after) =
      rejected-inv sha256 is_team submitted user container challenge now s s' e h in
    (same, rw after (review_foreign-Leaves sha256 is_team challenge submitted user now s _ refl))
