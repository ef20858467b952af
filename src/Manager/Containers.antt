-- ===== src/Manager/Containers.antt =====
-- container_manager.py: `_get_owned_container`, `is_container_running`, `get_container_port`,
-- `kill_container`, `kill_expired_containers` and the other operations on running containers.
pub mod Kill
pub mod Steady
use ctf_plugin_docker_per_te.Prelude.{
  ℕ, ◌/◌, String, Bool, true, false, not, ◌==◌, leb, Option, none, some, List, [], ◌∷◌, keep, map,
}
use ctf_plugin_docker_per_te.Result.{ok, err}
use ctf_plugin_docker_per_te.Models.{ContainerInfo, Session}
use ctf_plugin_docker_per_te.Models.Queries.{find_info}
use ctf_plugin_docker_per_te.Records.{cleanup_container_records}
use ctf_plugin_docker_per_te.Policy.Identity.{owns_labels}
use ctf_plugin_docker_per_te.Policy.Hardening.{Floats}
use ctf_plugin_docker_per_te.Manager.{
  Fault, container_exception, docker, not_found, image_not_found, api_error, docker_error,
  timed_out, ssh_error, auth_error, transport_error, integrity_error, other_exception, value_error,
  cut_off, not_owned, docker_api_error, Container, Docker, Action, ◌>>=◌, ◌>>◌, try_except, return,
  raise, fail, fail_if, call, get_daemon, get_session, set_session, note_kill, get_manager,
}
use ctf_plugin_docker_per_te.Manager.Connection.{run_command}

-- `except docker.errors.APIError as err: raise ContainerException(…)`
abbrev pub api_fault : Fault → Fault
api_fault (docker not_found) = container_exception docker_api_error
api_fault (docker image_not_found) = container_exception docker_api_error
api_fault (docker api_error) = container_exception docker_api_error
api_fault e = e

-- `port[0]["HostPort"]` of the first value that is not None
abbrev pub first_host_port : List (Option (List String)) → Option String
first_host_port [] = none
first_host_port (none ∷ ports) = first_host_port ports
first_host_port (some [] ∷ ports) = none
first_host_port (some (port ∷ _) ∷ ports) = some port

-- What the database answers to `GET_LOCK`; `unsupported` is a database without advisory locks.
pub data LockReply : Type 0 where
  unsupported acquired busy : LockReply

module _ {D : Type 0} where
  -- `cleanup_container_records(container_info)` on the session of the world
  abbrev store_cleanup : Option Session → Action D Unit
  store_cleanup none = raise other_exception
  store_cleanup (some s) = set_session s

  abbrev pub cleanup : Option ContainerInfo → Bool → Action D Unit
  cleanup info now = do s ← get_session; store_cleanup (cleanup_container_records info now s)

  abbrev pub rethrow_api : {A : Type 0} → Fault → Action D A
  rethrow_api e = raise (api_fault e)

  abbrev skip_refused : Fault → Action D Unit
  skip_refused (container_exception e) = return tt
  skip_refused e = raise e

  -- `_with_advisory_lock`: without the lock nothing is done
  unfoldable pub with_advisory_lock : LockReply → Action D Unit → Action D Unit
  with_advisory_lock unsupported func = func
  with_advisory_lock acquired func = func
  with_advisory_lock busy func = return tt

  abbrev pub for_each : {A : Type 0} → (A → Action D Unit) → List A → Action D Unit
  for_each body [] = return tt
  for_each body (x ∷ xs) = body x >> for_each body xs

module _ {D : Type 0} (dock : Docker D) where
  abbrev check_owned : Container → Action D (Option Container)
  check_owned container = do
    m ← get_manager
    fail_if (not (owns_labels m.identity container.labels)) not_owned
    return (some container)

  abbrev absent : Fault → Action D (Option Container)
  absent (docker not_found) = return none
  absent (docker image_not_found) = return none
  absent e = raise e

  -- `_get_owned_container`: `check_owned` raises none of what `absent` catches
  unfoldable pub get_owned_container : String → Action D (Option Container)
  get_owned_container container_id =
      try_except (call (dock.container container_id) >>= check_owned) absent

  abbrev pub kill_found : Option Container → Action D Unit
  kill_found none = return tt
  kill_found (some container) = do note_kill container.id; call (dock.kill container.id)

  -- `kill_container`, without its wrapper
  unfoldable pub kill_container_steps : String → Action D Unit
  kill_container_steps container_id = do
    s ← get_session
    let container_info = find_info s.view container_id
    try_except (get_owned_container container_id >>= kill_found) rethrow_api
    cleanup container_info true

  abbrev status_running : Option Container → Bool
  status_running none = false
  status_running (some container) = container.status == "running"

  abbrev port_of : Option Container → Option String
  port_of none = none
  port_of (some container) = first_host_port container.host_ports

  module _ (floats : Floats) (netloc_ok : String → Bool) where
    unfoldable pub is_container_running : String → Action D Bool
    is_container_running container_id =
        run_command floats netloc_ok dock
          (get_owned_container container_id >>= λ found. return (status_running found))

    unfoldable pub get_container_port : String → Action D (Option String)
    get_container_port container_id =
        run_command floats netloc_ok dock
          (get_owned_container container_id >>= λ found. return (port_of found))

    unfoldable pub kill_container : String → Action D Unit
    kill_container container_id =
        run_command floats netloc_ok dock (kill_container_steps container_id)

    abbrev pub expired_at : ℕ → List ContainerInfo → List ContainerInfo
    expired_at now infos = keep (λ i. leb i.expires now) infos

    abbrev kill_one : ContainerInfo → Action D Unit
    kill_one info = try_except (kill_container info.container_id) skip_refused

    abbrev expire_scan : Action D Unit
    expire_scan = do
      d ← get_daemon
      s ← get_session
      for_each kill_one (expired_at (dock.time d / 1000) s.view.infos)

    -- `kill_expired_containers`
    unfoldable pub kill_expired_containers : LockReply → Action D Unit
    kill_expired_containers lock =
        run_command floats netloc_ok dock (with_advisory_lock lock expire_scan)
