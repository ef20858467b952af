-- ===== src/ChallengeType/Attempt.antt =====
-- __init__.py: `ContainerChallenge.attempt`, the verdict on a submitted flag.
pub mod Outcome
use ctf_plugin_docker_per_te.Prelude.{
  ℕ, ◌/◌, ◌≡◌, refl, String, Bool, true, false, ◌&&◌, nat_eq, nat_eq_iff, ◌==◌, Option, none, some,
  List, [], ◌∷◌, ◌++◌, any, first, map, All, ◌⊎◌, inl, inr, Bool-cases, Option-cases, if◌then◌else◌,
}
use ctf_plugin_docker_per_te.Result.{Result, ok, err}
use ctf_plugin_docker_per_te.Models.{
  Challenge, ContainerInfo, ContainerFlag, Owner, User, Session, account_owner, commit,
}
use ctf_plugin_docker_per_te.Models.Queries.{find_account_info}
use ctf_plugin_docker_per_te.Flags.{
  FlagError, get_xid_and_flag, get_container_flag, owner_filters, mark_used,
}
use ctf_plugin_docker_per_te.Flags.Accepted.{IsOwnFlag, accepted-IsOwnFlag}
use ctf_plugin_docker_per_te.Manager.{
  World, Fault, Action, continue, continue-eq-ok, ◌>>=◌, ◌>>◌, return, get_daemon, get_session,
  set_session,
}
use ctf_plugin_docker_per_te.Requests.{Runtime}

-- `False` with a message, or `True`.
pub data Verdict : Type 0 where
  rejected : FlagError → Verdict
  unavailable correct : Verdict

module _ {D : Type 0} (runtime : Runtime D) (sha256 : String → String) (is_team : Bool)
    (user : Option User) (submission : Option String) (challenge : Challenge) where
  abbrev pub kill_active : Option ContainerInfo → Action D Unit
  kill_active none = return tt
  kill_active (some container_info) = runtime.kill_container container_info.container_id

  abbrev pub accept : Option ContainerInfo → ContainerFlag → Session → Action D Verdict
  accept container_info container_flag s = do
    set_session (commit (mark_used container_flag s))
    kill_active container_info
    return correct

  abbrev pub judged :
      Option ContainerInfo → Result FlagError ContainerFlag × Session → Action D Verdict
  judged container_info (err e, s) = set_session s >> return (rejected e)
  judged container_info (ok container_flag, s) = accept container_info container_flag s

  -- `find_active_container`
  abbrev pub active_container : Session → ℕ → Option ContainerInfo
  active_container s x_id = find_account_info s.view challenge.id (account_owner is_team x_id)

  abbrev pub attempt_as : Bool → Result FlagError (User × ℕ × String) → Action D Verdict
  attempt_as manager (err e) = return (rejected e)
  attempt_as false (ok found) = return unavailable
  attempt_as true (ok (account, x_id, submitted_flag)) = do
    s ← get_session
    d ← get_daemon
    judged (active_container s x_id) (
        get_container_flag sha256 is_team submitted_flag account (active_container s x_id) challenge
          (runtime.time d / 1000) s)

  -- `attempt`; the truth value is whether there is a container manager
  unfoldable pub attempt : Bool → Action D Verdict
  attempt manager = attempt_as manager (get_xid_and_flag is_team user submission)
