-- ===== src/Manager/Connection.antt =====
-- container_manager.py: `initialize_connection`, `_validate_live_runtime_boundary`, `run_command`
-- and what they use.
pub mod Steady
pub mod Returns
use ctf_plugin_docker_per_te.Prelude.{
  Char, code, ◌||◌, ltb, first, [], put, ℕ, ◌*◌, String, Bool, true, false, not, ◌&&◌, ◌==◌, leb,
  Option, none, some, List, get, if◌then◌else◌, one_of,
}
use ctf_plugin_docker_per_te.Text.{strip, or_empty, is_empty, all_chars}
use ctf_plugin_docker_per_te.Text.Numbers.{ℤ, int, is_positive, to_ℕ}
use ctf_plugin_docker_per_te.Result.{Result, ok, err}
use ctf_plugin_docker_per_te.Policy.Hardening.{
  Settings, Floats, build_hardening_profile, get_start_timeout_seconds,
}
use ctf_plugin_docker_per_te.Policy.Daemon.{validate_daemon_capabilities}
use ctf_plugin_docker_per_te.Policy.Network.{validate_challenge_network_attributes}
use ctf_plugin_docker_per_te.Policy.Endpoint.{validate_docker_endpoint}
use ctf_plugin_docker_per_te.Manager.{
  ManagerError, bad_expiration, expiration_not_positive, no_network, shared_network, cannot_connect,
  connect_timed_out, no_ssh_connection, ssh_authentication, not_connected, connection_lost,
  not_found, image_not_found, api_error, docker_error, timed_out, ssh_error, auth_error,
  transport_error, Fault, container_exception, docker, integrity_error, other_exception,
  value_error, cut_off, Docker, Manager, Action, ◌>>=◌, ◌>>◌, try_except, return, raise, fail,
  fail_if, checked, call, get_manager, set_manager,
}

abbrev pub setting : Settings → String → Option String
setting settings key = elim (get settings key) [ none ↦ none | some value ↦ value ]

-- `int(settings.get(key, default))`; a NULL is a TypeError
abbrev pub int_of : ℕ → Option (Option String) → Option ℤ
int_of default none = some (ℤ.pos default)
int_of default (some none) = none
int_of default (some (some text)) = int text

abbrev positive_minutes : Option ℤ → Result ManagerError ℕ
positive_minutes none = err bad_expiration
positive_minutes (some n) = if is_positive n then ok (to_ℕ n * 60) else err expiration_not_positive

-- `_get_expiration_seconds`
unfoldable pub get_expiration_seconds : Settings → Result ManagerError ℕ
get_expiration_seconds settings = positive_minutes (int_of 0 (get settings "container_expiration"))

-- `min(max(n, 1), 300)`
abbrev pub clamped : ℤ → ℕ
clamped n = if is_positive n then (if leb (to_ℕ n) 300 then to_ℕ n else 300) else 1

abbrev timeout_or : ℕ → Option ℤ → ℕ
timeout_or default none = default
timeout_or default (some n) = clamped n

-- `_get_docker_timeout`
unfoldable pub get_docker_timeout : Settings → ℕ
get_docker_timeout settings = timeout_or 15 (int_of 15 (get settings "docker_api_timeout"))

-- The exceptions that `initialize_connection` reports, each with its own message; it lets the others
-- pass.
abbrev pub connection_fault : Fault → Option ManagerError
connection_fault (container_exception e) = some e
connection_fault (docker not_found) = some no_network
connection_fault (docker image_not_found) = some no_network
connection_fault (docker api_error) = some cannot_connect
connection_fault (docker docker_error) = some cannot_connect
connection_fault (docker timed_out) = some connect_timed_out
connection_fault (docker ssh_error) = some no_ssh_connection
connection_fault (docker auth_error) = some ssh_authentication
connection_fault (docker transport_error) = none
connection_fault integrity_error = none
connection_fault other_exception = none
connection_fault value_error = none
connection_fault cut_off = none

-- `_get_current_container_id`: the first name that can be a container's id
abbrev is_hex_digit : Char → Bool
is_hex_digit c =
    let n = code c in
    (leb b'0' n && leb n b'9') || (leb b'a' n && leb n b'f') || (leb b'A' n && leb n b'F')

unfoldable pub get_current_container_id : List String → Option String
get_current_container_id candidates =
    first (λ c. not (is_empty c) && all_chars is_hex_digit c) candidates

module _ {D : Type 0} where
  abbrev pub lift : {A : Type 0} → Result ManagerError A → Action D A
  lift (ok a) = return a
  lift (err e) = fail e

  -- `_mark_connection_failure`
  unfoldable pub mark_connection_failure : ManagerError → Action D Unit
  mark_connection_failure error = do
    m ← get_manager
    set_manager
        (record m { client = false; daemon_capabilities = []; connection_error = some error })

module _ {D : Type 0} (floats : Floats) (netloc_ok : String → Bool) (dock : Docker D) where
  -- `_get_current_container_networks`
  abbrev no_networks : Fault → Action D (List String)
  no_networks (docker not_found) = return []
  no_networks (docker image_not_found) = return []
  no_networks e = raise e

  abbrev networks_of : Option String → Action D (List String)
  networks_of none = return []
  networks_of (some container_id) =
      try_except (call (dock.container container_id) >>= λ c. return c.networks) no_networks

  unfoldable pub get_current_container_networks : Action D (List String)
  get_current_container_networks = networks_of (get_current_container_id dock.hostnames)

  -- The check of the network that the two functions below share.
  abbrev check_network : Manager → Action D Unit
  check_network m = do
    attrs ← call (dock.network m.identity.challenge_network)
    checked (validate_challenge_network_attributes attrs m.identity)
    own ← get_current_container_networks
    fail_if (one_of m.identity.challenge_network own) shared_network

  -- `_validate_live_runtime_boundary`
  abbrev network_gone : Fault → Action D Unit
  network_gone (docker not_found) = fail no_network
  network_gone (docker image_not_found) = fail no_network
  network_gone e = raise e

  unfoldable pub validate_live_runtime_boundary : Action D Unit
  validate_live_runtime_boundary = do
    m ← get_manager
    info ← call dock.info
    capabilities ←
        checked (validate_daemon_capabilities info (some m.identity) m.allow_limited_local_daemon)
    set_manager (record m { daemon_capabilities = capabilities })
    try_except (check_network m) network_gone

  -- The settings part of `initialize_connection`: the fields set before the daemon is called.
  abbrev pub with_network : Settings → Manager → Settings
  with_network settings m = put settings "challenge_network" (some m.identity.challenge_network)

  abbrev pub apply_settings : Settings → Action D Unit
  apply_settings given = do
    start ← get_manager
    let settings = with_network given start
    let m = record start { settings = settings }
    set_manager m
    expiration ← lift (get_expiration_seconds settings)
    let timed = record m {
      expiration_seconds = expiration;
      docker_timeout = get_docker_timeout settings;
    }
    set_manager timed
    profile ← checked (build_hardening_profile floats settings)
    let hardened = record timed { hardening_profile = profile }
    set_manager hardened
    timeout ← checked (get_start_timeout_seconds settings)
    set_manager (record hardened { start_timeout_seconds = timeout; scheduler = false })

  abbrev connect_daemon : String → Action D Unit
  connect_daemon endpoint = do
    m ← get_manager
    call (dock.connect endpoint m.docker_timeout)
    set_manager (record m { client = true })
    call dock.ping
    info ← call dock.info
    capabilities ←
        checked (validate_daemon_capabilities info (some m.identity) m.allow_limited_local_daemon)
    set_manager (record m { client = true; daemon_capabilities = capabilities })
    check_network m

  abbrev reported : Fault → Option ManagerError → Action D Unit
  reported e none = raise e
  reported e (some error) = do mark_connection_failure error; fail error

  abbrev report_failure : Fault → Action D Unit
  report_failure e = reported e (connection_fault e)

  -- `initialize_connection`
  unfoldable pub initialize_connection : Settings → Action D Unit
  initialize_connection settings = do
    apply_settings settings
    m ← get_manager
    endpoint ← checked (
        validate_docker_endpoint netloc_ok
          (some (strip (or_empty (setting m.settings "docker_base_url")))) m.identity)
    try_except (connect_daemon endpoint) report_failure
    now ← get_manager
    set_manager (record now { connection_error = none; scheduler = ltb 0 now.expiration_seconds })

  abbrev reconnect : Manager → Bool → Action D Unit
  reconnect m true = return tt
  reconnect m false = try_except (initialize_connection m.settings) (λ _. fail not_connected)

  abbrev when_pinged : {A : Type 0} → Action D A → Bool → Action D A
  when_pinged func true = func
  when_pinged func false = fail not_connected

  abbrev connect_again : {A : Type 0} → Action D A
  connect_again = do
    m ← get_manager
    try_except (initialize_connection m.settings) (λ _. return tt)
    fail connection_lost

  -- The wrapper's `except`: a lost connection is made again, and the call still fails. A
  -- `TimeoutError` and a `NoValidConnectionsError` are none of the exceptions that it names.
  abbrev pub lost_connection : {A : Type 0} → Fault → Action D A
  lost_connection (docker not_found) = connect_again
  lost_connection (docker image_not_found) = connect_again
  lost_connection (docker api_error) = connect_again
  lost_connection (docker docker_error) = connect_again
  lost_connection (docker ssh_error) = raise (docker ssh_error)
  lost_connection (docker auth_error) = connect_again
  lost_connection (docker transport_error) = connect_again
  lost_connection (docker timed_out) = raise (docker timed_out)
  lost_connection (container_exception e) = fail e
  lost_connection integrity_error = raise integrity_error
  lost_connection other_exception = raise other_exception
  lost_connection value_error = raise value_error
  lost_connection cut_off = raise cut_off

  -- `run_command`
  unfoldable pub run_command : {A : Type 0} → Action D A → Action D A
  run_command func = do
    m ← get_manager
    reconnect m m.client
    try_except (call dock.ping >>= when_pinged func) lost_connection

  -- `is_connected`
  abbrev is_connected_steps : Action D Bool
  is_connected_steps = do
    m ← get_manager
    if m.client then return tt else raise other_exception
    call dock.ping
    if strip (or_empty (setting m.settings "challenge_network")) == m.identity.challenge_network
        then validate_live_runtime_boundary >> return true
        else return false

  unfoldable pub is_connected : Action D Bool
  is_connected = try_except is_connected_steps (λ _. return false)
