-- ===== src/Requests.antt =====
-- The request handlers of helpers.py: `create_container`, `renew_container`,
-- `view_container_info`, `kill_container`, and what they share.
pub mod Endpoint
pub mod Account
pub mod Active
pub mod Capacity
pub mod Tests
use Prim.Native.String.{◌++◌}
use ctf_plugin_docker_per_te.Prelude.{
  ℕ, zero, suc, ◌/◌, ◌+◌, String, Bool, true, false, not, ◌&&◌, ◌||◌, nat_eq, ◌==◌, leb, Option,
  none, some, List, [], ◌∷◌, first, keep, map, length, if◌then◌else◌, Dict, get,
}
use ctf_plugin_docker_per_te.Text.{strip, lower, or_empty, is_empty, before, decimal}
use ctf_plugin_docker_per_te.Text.Numbers.{ℤ, is_positive, to_ℕ}
use ctf_plugin_docker_per_te.Result.{Result, ok, err}
use ctf_plugin_docker_per_te.Models.{
  Challenge, User, Solve, account_owner, Owner, ContainerInfo, Db, Session, commit, rollback,
  set_view,
}
use ctf_plugin_docker_per_te.Models.Queries.{owner_eq, find_challenge, find_info, find_account_info}
use ctf_plugin_docker_per_te.Records.{solve_exists_for_account}
use ctf_plugin_docker_per_te.Policy.Hardening.{Settings}
use ctf_plugin_docker_per_te.Manager.{
  Fault, container_exception, docker, integrity_error, other_exception, cut_off, Action, ◌>>=◌,
  ◌>>◌, try_except, return, raise, get_daemon, get_session, set_session, get_manager,
}
use ctf_plugin_docker_per_te.Manager.Connection.{setting, int_of}
use ctf_plugin_docker_per_te.Manager.Containers.{cleanup, LockReply, unsupported, acquired, busy}
use ctf_plugin_docker_per_te.Manager.Launching.{Created}
use ctf_plugin_docker_per_te.Requests.Endpoint.{Payload, build_connection_payload}

-- The answers of the handlers.
pub data Reply : Type 0 where
  challenge_not_found already_solved invalid_capacity container_not_found : Reply
  max_containers_reached : ℤ → Reply
  failed : Fault → Reply
  already_running created renewed : Payload → Reply
  not_started no_longer_running killed not_initialized lock_not_acquired : Reply
  connection : Option String → Reply

-- What the handlers need of the manager.
pub record Runtime (D : Type 0) : Type 0 where
  pub is_container_running : String → Action D Bool
  pub create_container : Challenge → ℕ → Bool → Action D Created
  pub kill_container : String → Action D Unit
  pub time : D → ℕ

abbrev pub account_infos : Db → Owner → List ContainerInfo
account_infos db owner = keep (λ i. owner_eq i.owner owner) db.infos

module _ {D : Type 0} (runtime : Runtime D) where
  abbrev commit_now : Action D Unit
  commit_now = do s ← get_session; set_session (commit s)

  -- The loop of `prune_stale_account_containers`: the active containers, and whether one was stale.
  unfoldable pub prune : List ContainerInfo → Action D (List ContainerInfo × Bool)
  prune [] = return ([], false)
  prune (info ∷ infos) =
      let others = prune infos in
      runtime.is_container_running info.container_id >>= λ running.
      if running
      then (others >>= λ r. return (info ∷ r.0, r.1))
      else (cleanup (some info) false >> others >>= λ r. return (r.0, true))

  -- `prune_stale_account_containers`
  unfoldable pub prune_stale_account_containers : ℕ → Bool → Action D (List ContainerInfo)
  prune_stale_account_containers xid is_team = do
    s ← get_session
    r ← prune (account_infos s.view (account_owner is_team xid))
    if r.1 then commit_now else return tt
    return r.0

  abbrev pub as_reply : Fault → Action D Reply
  as_reply e = return (failed e)

  module _ (request_host : Option String) (xid : ℕ) (is_team : Bool) where
    abbrev pub payload : Challenge → String → ℕ → Action D Payload
    payload challenge port expires = do
      m ← get_manager
      return (build_connection_payload m.settings request_host challenge port expires)

    abbrev pub at_capacity : List ContainerInfo → ℤ → Bool
    at_capacity active n = leb (to_ℕ n) (length active) || not (is_positive n)

    abbrev pub launch : Challenge → Action D Reply
    launch challenge = do
      c ← runtime.create_container challenge xid is_team
      p ← payload challenge c.port c.expires
      return (created p)

    abbrev pub running_or_launched : Challenge → Option ContainerInfo → Action D Reply
    running_or_launched challenge none = try_except (launch challenge) as_reply
    running_or_launched challenge (some info) = do
      p ← payload challenge info.port info.expires
      return (already_running p)

    abbrev pub unless_full : Challenge → ℤ → List ContainerInfo → Bool → Action D Reply
    unless_full challenge n active true = return (max_containers_reached n)
    unless_full challenge n active false =
        running_or_launched challenge (first (λ i. nat_eq i.challenge_id challenge.id) active)

    abbrev pub with_active : Challenge → ℤ → List ContainerInfo → Action D Reply
    with_active challenge n active = unless_full challenge n active (at_capacity active n)

    abbrev pub active_or_failed : Action D (Result Fault (List ContainerInfo))
    active_or_failed =
        try_except (prune_stale_account_containers xid is_team >>= λ active. return (ok active))
          (λ e. return (err e))

    abbrev pub judged : Challenge → ℤ → Result Fault (List ContainerInfo) → Action D Reply
    judged challenge n (err e) = return (failed e)
    judged challenge n (ok active) = with_active challenge n active

    abbrev pub within : Challenge → Option ℤ → Action D Reply
    within challenge none = return invalid_capacity
    within challenge (some n) = active_or_failed >>= judged challenge n

    abbrev pub unless_solved : Challenge → Option Solve → Action D Reply
    unless_solved challenge (some _) = return already_solved
    unless_solved challenge none = do
      m ← get_manager
      within challenge (int_of 3 (get m.settings "max_containers"))

    abbrev pub unsolved : ℕ → Session → Option Challenge → Action D Reply
    unsolved chal_id s none = return challenge_not_found
    unsolved chal_id s (some challenge) =
        unless_solved challenge (solve_exists_for_account is_team chal_id xid s.view)

    abbrev pub create_locked : ℕ → Action D Reply
    create_locked chal_id = do
      stale ← get_session
      set_session (rollback stale)
      s ← get_session
      unsolved chal_id s (find_challenge s.view chal_id)

    -- `create_container`, by the reply of the lock of the account (`lock_container_request`)
    unfoldable pub create_container : LockReply → ℕ → Action D Reply
    create_container unsupported chal_id = create_locked chal_id
    create_container acquired chal_id = create_locked chal_id
    create_container busy chal_id = return lock_not_acquired

    -- `running_container.expires = …`
    abbrev pub extended : String → ℕ → List ContainerInfo → List ContainerInfo
    extended container_id expires infos =
        map (λ i. if i.container_id == container_id then record i { expires = expires } else i)
          infos

    abbrev renew_running : Challenge → ContainerInfo → Bool → Action D Reply
    renew_running challenge info false = cleanup (some info) true >> return no_longer_running
    renew_running challenge info true = do
      d ← get_daemon
      m ← get_manager
      s ← get_session
      let expires = runtime.time d / 1000 + m.expiration_seconds
      set_session (
          commit (
            set_view s (record s.view { infos = extended info.container_id expires s.view.infos })))
      p ← payload challenge info.port expires
      return (renewed p)

    abbrev renew_found : Challenge → Option ContainerInfo → Action D Reply
    renew_found challenge none = return container_not_found
    renew_found challenge (some info) =
        try_except (runtime.is_container_running info.container_id >>= renew_running challenge info)
          as_reply

    abbrev renew_challenge : Session → Option Challenge → Action D Reply
    renew_challenge s none = return challenge_not_found
    renew_challenge s (some challenge) =
        renew_found challenge (find_account_info s.view challenge.id (account_owner is_team xid))

    -- `renew_container`; after the first `try` nothing raises
    unfoldable pub renew_container : ℕ → Action D Reply
    renew_container chal_id = do s ← get_session; renew_challenge s (find_challenge s.view chal_id)

    abbrev view_running : Challenge → ContainerInfo → Bool → Action D Reply
    view_running challenge info false = cleanup (some info) true >> return not_started
    view_running challenge info true = do
      p ← payload challenge info.port info.expires
      return (already_running p)

    abbrev view_found : Challenge → Option ContainerInfo → Action D Reply
    view_found challenge none = return not_started
    view_found challenge (some info) =
        try_except (runtime.is_container_running info.container_id >>= view_running challenge info)
          as_reply

    abbrev view_challenge : Session → Option Challenge → Action D Reply
    view_challenge s none = return challenge_not_found
    view_challenge s (some challenge) =
        view_found challenge (find_account_info s.view challenge.id (account_owner is_team xid))

    -- `view_container_info`
    unfoldable pub view_container_info : ℕ → Action D Reply
    view_container_info chal_id = do
      s ← get_session
      view_challenge s (find_challenge s.view chal_id)

  abbrev not_initialized_or_raise : Fault → Action D Reply
  not_initialized_or_raise (container_exception e) = return not_initialized
  not_initialized_or_raise e = raise e

  abbrev kill_info : String → Option ContainerInfo → Action D Reply
  kill_info container_id none = return container_not_found
  kill_info container_id (some info) =
      try_except (runtime.kill_container container_id >> return killed) not_initialized_or_raise

  -- `kill_container`
  unfoldable pub kill_container : String → Action D Reply
  kill_container container_id = do
    s ← get_session
    kill_info container_id (find_info s.view container_id)

abbrev connection_reply : Option Challenge → Reply
connection_reply none = challenge_not_found
connection_reply (some challenge) = connection challenge.connection_type

-- `connect_type`
unfoldable pub connect_type : Db → ℕ → Reply
connect_type db chal_id = connection_reply (find_challenge db chal_id)
