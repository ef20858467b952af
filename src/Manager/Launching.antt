-- ===== src/Manager/Launching.antt =====
-- container_manager.py: `create_container`.
pub mod Clash
pub mod Recorded
pub mod Discarded
pub mod Atomic
use ctf_plugin_docker_per_te.Prelude.{
  ℕ, ◌/◌, ◌+◌, String, Bool, true, false, not, ◌&&◌, ◌||◌, ◌==◌, nat_eq, Option, none, some, List,
  [], ◌∷◌, ◌++◌, any, if◌then◌else◌,
}
use ctf_plugin_docker_per_te.Text.{strip, or_empty}
use ctf_plugin_docker_per_te.Result.{ok, err}
use ctf_plugin_docker_per_te.Models.{
  Challenge, Owner, account_owner, ContainerInfo, Db, Session, commit, rollback, set_view,
}
use ctf_plugin_docker_per_te.Models.Queries.{id_eq}
use ctf_plugin_docker_per_te.Flags.{add_flag}
use ctf_plugin_docker_per_te.Policy.Hardening.{Floats}
use ctf_plugin_docker_per_te.Manager.{
  Fault, container_exception, docker, not_found, image_not_found, api_error, docker_error,
  timed_out, ssh_error, auth_error, transport_error, integrity_error, other_exception, value_error,
  cut_off, network_changed, image_missing, no_port, duplicate_container, docker_api_error, Launch,
  Docker, Manager, Action, ◌>>=◌, ◌>>◌, try_except, return, raise, fail, fail_if, call, get_daemon,
  get_session, set_session, note_kill, get_manager,
}
use ctf_plugin_docker_per_te.Manager.Connection.{
  setting, lift, validate_live_runtime_boundary, run_command,
}
use ctf_plugin_docker_per_te.Manager.Containers.{get_container_port}
use ctf_plugin_docker_per_te.Manager.Startup.{validate_image_contract, wait_until_healthy}
use ctf_plugin_docker_per_te.Manager.Options.{
  Json, requested_capabilities, mounted_volumes, choose_flag, launch_labels,
}

-- The unique columns of `ContainerInfoModel`; NULL is equal to nothing.
abbrev both_set : Option ℕ → Option ℕ → Bool
both_set (some m) (some n) = nat_eq m n
both_set _ _ = false

abbrev pub clashes : ContainerInfo → ContainerInfo → Bool
clashes a b =
    a.container_id == b.container_id
    || (nat_eq a.challenge_id b.challenge_id
        && (both_set a.owner.team_id b.owner.team_id || both_set a.owner.user_id b.owner.user_id))

-- What `create_container` returns.
pub record Created : Type 0 where
  pub container_id : String
  pub expires : ℕ
  pub port : String

-- The two rows of a launch, added and not yet committed.
abbrev pub with_rows : ContainerInfo → Session → Session
with_rows info s =
    let (_, s') = add_flag info.challenge_id (some info.container_id) info.flag info.owner s in
    set_view s' (record s'.view { infos = s'.view.infos ++ info ∷ [] })

abbrev pub info_of : Challenge → ℕ → Bool → String → String → String → ℕ → ℕ → ContainerInfo
info_of challenge xid is_team container_id port flag timestamp expiration = record {
  container_id = container_id;
  challenge_id = challenge.id;
  owner = account_owner is_team xid;
  port = port;
  timestamp = timestamp;
  expires = timestamp + expiration;
  flag = flag;
}

module _ {D : Type 0} where
  abbrev pub known_port : Option String → Action D String
  known_port none = fail no_port
  known_port (some port) = return port

  -- `db.session.commit()` of a new info row
  abbrev pub commit_info : ContainerInfo → Action D Unit
  commit_info info = do
    s ← get_session
    if any (clashes info) s.view.infos
        then set_session (with_rows info s) >> raise integrity_error
        else set_session (commit (with_rows info s))

  abbrev pub roll_back : Action D Unit
  roll_back = do s ← get_session; set_session (rollback s)

  abbrev ignore : Fault → Action D Unit
  ignore e = return tt

  -- `except docker.errors…` around `containers.run`, when there is no container yet
  abbrev pub not_launched : Fault → Action D String
  not_launched (docker image_not_found) = roll_back >> fail image_missing
  not_launched (docker not_found) = roll_back >> fail docker_api_error
  not_launched (docker api_error) = roll_back >> fail docker_api_error
  not_launched (docker docker_error) = raise (docker docker_error)
  not_launched (docker timed_out) = raise (docker timed_out)
  not_launched (docker ssh_error) = raise (docker ssh_error)
  not_launched (docker auth_error) = raise (docker auth_error)
  not_launched (docker transport_error) = raise (docker transport_error)
  not_launched (container_exception e) = roll_back >> fail e
  not_launched integrity_error = raise integrity_error
  not_launched other_exception = raise other_exception
  not_launched value_error = raise value_error
  not_launched cut_off = raise cut_off

module _ {D : Type 0} (floats : Floats) (netloc_ok : String → Bool) (json : Json)
    (dock : Docker D) where
  abbrev kill_by_id : Manager → String → Action D Unit
  kill_by_id m container_id =
      if m.client
      then (call (dock.container container_id) >>= λ c. note_kill c.id >> call (dock.kill c.id))
      else raise other_exception

  -- `self.client.containers.get(container.id).kill()`, whatever comes of it
  abbrev pub discard : String → Action D Unit
  discard container_id = do m ← get_manager; try_except (kill_by_id m container_id) ignore

  -- The handlers of `create_container`, when there is a container.
  abbrev pub abandoned : String → Fault → Action D Created
  abandoned container_id integrity_error =
      roll_back >> discard container_id >> fail duplicate_container
  abandoned container_id (docker image_not_found) = roll_back >> fail image_missing
  abandoned container_id (docker not_found) =
      roll_back >> discard container_id >> fail docker_api_error
  abandoned container_id (docker api_error) =
      roll_back >> discard container_id >> fail docker_api_error
  abandoned container_id (container_exception e) = roll_back >> discard container_id >> fail e
  abandoned container_id (docker docker_error) = raise (docker docker_error)
  abandoned container_id (docker timed_out) = raise (docker timed_out)
  abandoned container_id (docker ssh_error) = raise (docker ssh_error)
  abandoned container_id (docker auth_error) = raise (docker auth_error)
  abandoned container_id (docker transport_error) = raise (docker transport_error)
  abandoned container_id other_exception = raise other_exception
  abandoned container_id value_error = raise value_error
  abandoned container_id cut_off = raise cut_off

  module _ (challenge : Challenge) (xid : ℕ) (is_team : Bool) where
    abbrev pub launch_of : Manager → String → String → Option String → List String → Launch
    launch_of m image flag volumes cap_add = record {
      image = image;
      port = challenge.port;
      bind_ip = m.identity.challenge_bind_ip;
      command = challenge.command;
      flag = flag;
      labels = launch_labels m.identity challenge xid is_team;
      network = strip (or_empty (setting m.settings "challenge_network"));
      profile = m.hardening_profile;
      volumes = volumes;
      cap_add = cap_add;
    }

    -- Everything up to the launch.
    unfoldable pub prepare : Action D Launch
    prepare = do
      validate_live_runtime_boundary floats netloc_ok dock
      m ← get_manager
      fail_if
          (not (
            strip (or_empty (setting m.settings "challenge_network"))
            == m.identity.challenge_network))
          network_changed
      image ← validate_image_contract dock challenge
      flag ← choose_flag dock challenge
      volumes ← mounted_volumes json m.settings challenge.volumes
      cap_add ← lift (requested_capabilities json m.settings challenge)
      return (launch_of m image flag volumes cap_add)

    -- Everything after the launch.
    unfoldable pub record_launch : String → String → Action D Created
    record_launch flag container_id = do
      wait_until_healthy dock container_id
      found ← get_container_port dock floats netloc_ok container_id
      port ← known_port found
      d ← get_daemon
      m ← get_manager
      let info =
          info_of challenge xid is_team container_id port flag (dock.time d / 1000)
            m.expiration_seconds
      commit_info info
      return (record { container_id = container_id; expires = info.expires; port = port })

    -- `create_container`, without its wrapper
    unfoldable pub create_container_steps : Action D Created
    create_container_steps = do
      launch ← prepare
      container_id ← try_except (call (dock.run launch)) not_launched
      try_except (record_launch launch.flag container_id) (abandoned container_id)

    unfoldable pub create_container : Action D Created
    create_container = run_command floats netloc_ok dock create_container_steps
