-- ===== src/ChallengeType/Attempt/Outcome.antt =====
-- What an attempt leaves behind.
use ctf_plugin_docker_per_te.Prelude.{
  ℕ, ◌/◌, ◌≡◌, refl, sym, ap, ◌∙◌, String, Bool, true, false, ◌&&◌, nat_eq, Option, none, some,
  List, [], ◌∷◌, any, map, if◌then◌else◌, Bool-cases, inl, inr,
}
use ctf_plugin_docker_per_te.Result.{Result, ok, err}
use ctf_plugin_docker_per_te.Models.{Challenge, ContainerInfo, ContainerFlag, User, Session, commit}
use ctf_plugin_docker_per_te.Models.Accounts.{ActiveContainer, found-ActiveContainer}
use ctf_plugin_docker_per_te.Flags.{
  FlagError, get_xid_and_flag, get_container_flag, owner_filters, mark_used,
}
use ctf_plugin_docker_per_te.Flags.Accepted.{IsOwnFlag, accepted-IsOwnFlag}
use ctf_plugin_docker_per_te.Flags.Stored.{HasRow, accepted-HasRow}
use ctf_plugin_docker_per_te.Manager.{World, Fault, continue-eq-ok}
use ctf_plugin_docker_per_te.Requests.{Runtime}
use ctf_plugin_docker_per_te.ChallengeType.Attempt.{
  Verdict, correct, kill_active, judged, active_container, attempt_as, attempt,
}

-- A row with the number of another, marked as used.
abbrev pub HasUsed : List ContainerFlag → ContainerFlag → Type 0
HasUsed rows flag = any (λ f. nat_eq f.id flag.id && f.used) rows ≡ true

used_rows :
    (rows : List ContainerFlag) (flag : ContainerFlag)
    → HasRow rows flag
    → HasUsed (map (λ f. if nat_eq f.id flag.id then record f { used = true } else f) rows) flag
used_rows [] flag h = h
used_rows (row ∷ rows) flag h = elim (Bool-cases (nat_eq row.id flag.id)) [
  | inl hit ↦ rw (hit, hit) refl
  | inr miss ↦ rw (miss, miss) (used_rows rows flag (rw miss at h))
]

module _ {D : Type 0} (runtime : Runtime D) (sha256 : String → String) (is_team : Bool)
    (user : Option User) (submission : Option String) (challenge : Challenge) where
  -- The world in which the row of the flag is marked and committed.
  abbrev pub marked : World D → ContainerFlag → Session → World D
  marked w flag s = record w { session = commit (mark_used flag s) }

  -- The account's container, if there is one, has been handed to the manager to kill.
  abbrev pub Torn : Option ContainerInfo → World D → World D → Type 0
  Torn none w w' = w' ≡ w
  Torn (some info) w w' = runtime.kill_container info.container_id w ≡ (ok tt, w')

  kill-Torn :
      (active : Option ContainerInfo) (w w' : World D)
      → kill_active runtime sha256 is_team user submission challenge active w ≡ (ok tt, w')
      → Torn active w w'
  kill-Torn none w w' h = sym (ap (λ (r : Result Fault Unit × World D). r.1) h)
  kill-Torn (some info) w w' h = h

  -- An account's accepted submission, its row, and what is done with it.
  pub record IsCorrect (w w' : World D) : Type 0 where
    pub account : User
    pub x_id : ℕ
    pub submitted : String
    pub flag : ContainerFlag
    pub found : Session
    pub container : Option ContainerInfo
    pub submitted_lem : get_xid_and_flag is_team user submission ≡ ok (account, x_id, submitted)
    pub container_lem : ActiveContainer w.session.view is_team x_id challenge.id container
    pub own_flag : IsOwnFlag submitted (owner_filters is_team account) container challenge flag
    pub committed : HasUsed (marked w flag found).session.saved.flags flag
    pub killed : Torn container (marked w flag found) w'

  judged-IsCorrect :
      (account : User) (x_id : ℕ) (submitted : String) (w w' : World D)
      (found : Result FlagError ContainerFlag × Session)
      → get_xid_and_flag is_team user submission ≡ ok (account, x_id, submitted)
      → get_container_flag sha256 is_team submitted account
          (active_container runtime sha256 is_team user submission challenge w.session x_id)
          challenge
          (runtime.time w.daemon / 1000)
          w.session
        ≡ found
      → judged runtime sha256 is_team user submission challenge
          (active_container runtime sha256 is_team user submission challenge w.session x_id)
          found
          w
        ≡ (ok correct, w')
      → IsCorrect w w'
  unfolding mark_used
  judged-IsCorrect account x_id submitted w w' (err e, s) given e' h = absurd (cc h)
  judged-IsCorrect account x_id submitted w w' (ok flag, s) given e' h =
      let active =
        active_container runtime sha256 is_team user submission challenge w.session x_id in
      let (u, w1, kills, done) =
        continue-eq-ok
          (kill_active runtime sha256 is_team user submission challenge active (marked w flag s))
          (λ _ w. (ok correct, w)) h in
      let last : w1 ≡ w' = ap (λ (r : Result Fault Verdict × World D). r.1) done in
      record {
        account = account;
        x_id = x_id;
        submitted = submitted;
        flag = flag;
        found = s;
        container = active;
        submitted_lem = given;
        container_lem = found-ActiveContainer w.session.view is_team x_id challenge.id active refl;
        own_flag =
            accepted-IsOwnFlag sha256 is_team submitted account active challenge
              (runtime.time w.daemon / 1000) w.session s flag e';
        committed = used_rows s.view.flags flag (
            accepted-HasRow sha256 is_team submitted account active challenge
              (runtime.time w.daemon / 1000) w.session s flag e');
        killed =
            kill-Torn active (marked w flag s) w' (kills ∙ ap (λ (v : World D). (ok tt, v)) last);
      }

  attempt_as-IsCorrect :
      (manager : Bool) (found : Result FlagError (User × ℕ × String)) (w w' : World D)
      → get_xid_and_flag is_team user submission ≡ found
      → attempt_as runtime sha256 is_team user submission challenge manager found w
        ≡ (ok correct, w')
      → IsCorrect w w'
  attempt_as-IsCorrect manager (err e) w w' given h = absurd (cc h)
  attempt_as-IsCorrect false (ok found) w w' given h = absurd (cc h)
  attempt_as-IsCorrect true (ok (account, x_id, submitted)) w w' given h =
      judged-IsCorrect account x_id submitted w w' _ given refl h

  -- An attempt is answered with "Correct" only if the submission is the account's own flag; the
  -- flag's row is then marked as used and committed before anything else, and the account's active
  -- container of the challenge (its row in the table), if there is one, has been handed to the manager to kill, which has
  -- raised nothing.
  pub attempt-IsCorrect :
      (manager : Bool) (w w' : World D)
      → attempt runtime sha256 is_team user submission challenge manager w ≡ (ok correct, w')
      → IsCorrect w w'
  unfolding attempt
  attempt-IsCorrect manager w w' h = attempt_as-IsCorrect manager _ w w' refl h
