-- ===== src/Manager/Starting.antt =====
-- container_manager.py: `validate_settings`, `__init__` and `runtime_fingerprint`.
pub mod Valid
use ctf_plugin_docker_per_te.Prelude.{
  ℕ, String, Bool, true, false, not, ◌==◌, Option, none, some, [], Dict, get, put, one_of,
  if◌then◌else◌,
}
use ctf_plugin_docker_per_te.Text.{strip, or_empty}
use ctf_plugin_docker_per_te.Text.Numbers.{ℤ}
use ctf_plugin_docker_per_te.Result
use ctf_plugin_docker_per_te.Result.{Result, ok}
use ctf_plugin_docker_per_te.Policy.Errors.{PolicyError}
use ctf_plugin_docker_per_te.Policy.Identity.{RuntimeIdentity, from_environment}
use ctf_plugin_docker_per_te.Policy.Daemon.{
  allow_limited_local_daemon, validate_daemon_capabilities,
}
use ctf_plugin_docker_per_te.Policy.Network.{validate_challenge_network_attributes}
use ctf_plugin_docker_per_te.Policy.Endpoint.{validate_docker_endpoint}
use ctf_plugin_docker_per_te.Policy.Hardening.{
  Settings, Floats, Fingerprint, build_hardening_profile, get_start_timeout_seconds,
  public_runtime_fingerprint,
}
use ctf_plugin_docker_per_te.Manager.{
  ManagerError, bad_timeout, network_mismatch, no_network, shared_network, cannot_connect,
  connect_timed_out, no_ssh_connection, ssh_authentication, not_found, image_not_found, api_error,
  docker_error, timed_out, ssh_error, auth_error, transport_error, Fault, container_exception,
  docker, integrity_error, other_exception, value_error, cut_off, Docker, Manager, Action, ◌>>=◌,
  ◌>>◌, try_except, return, raise, fail, fail_if, checked, call, get_manager, set_manager,
}
use ctf_plugin_docker_per_te.Manager.Connection.{
  setting, int_of, clamped, lift, get_expiration_seconds, get_docker_timeout,
  get_current_container_networks, initialize_connection,
}

-- `runtime_fingerprint`: the public policy, what the daemon enforces, and the state of the service.
pub record RuntimeFingerprint : Type 0 where
  pub fingerprint : Fingerprint
  pub daemon_capabilities : Dict Bool
  pub connected : Bool
  pub status : String
  pub local_memory_limit_override : Bool
  pub error : Option ManagerError

unfoldable pub runtime_fingerprint : Floats → Manager → Result PolicyError RuntimeFingerprint
runtime_fingerprint floats m =
    Result.◌>>=◌ (public_runtime_fingerprint floats m.identity m.settings) λ fingerprint.
      ok (record {
        fingerprint = fingerprint;
        daemon_capabilities = m.daemon_capabilities;
        connected = m.client;
        status = if m.client then "ready" else "unavailable";
        local_memory_limit_override = m.allow_limited_local_daemon;
        error = m.connection_error;
      })

abbrev pub network_setting : Settings → String
network_setting settings = strip (or_empty (setting settings "challenge_network"))

abbrev pub endpoint_setting : Settings → Option String
endpoint_setting settings = some (strip (or_empty (setting settings "docker_base_url")))

module _ {D : Type 0} where
  abbrev pub timeout_of : Option ℤ → Action D ℕ
  timeout_of none = fail bad_timeout
  timeout_of (some n) = return (clamped n)

  -- `except docker.errors.NotFound` around the look for the network
  abbrev missing_network : {A : Type 0} → Fault → Action D A
  missing_network (docker not_found) = fail no_network
  missing_network (docker image_not_found) = fail no_network
  missing_network e = raise e

  -- The handlers of `validate_settings`.
  abbrev connect_fault : Fault → Action D Unit
  connect_fault (docker timed_out) = fail connect_timed_out
  connect_fault (docker ssh_error) = fail no_ssh_connection
  connect_fault (docker auth_error) = fail ssh_authentication
  connect_fault (docker transport_error) = raise (docker transport_error)
  connect_fault (docker not_found) = fail cannot_connect
  connect_fault (docker image_not_found) = fail cannot_connect
  connect_fault (docker api_error) = fail cannot_connect
  connect_fault (docker docker_error) = fail cannot_connect
  connect_fault (container_exception e) = fail e
  connect_fault integrity_error = raise integrity_error
  connect_fault other_exception = raise other_exception
  connect_fault value_error = raise value_error
  connect_fault cut_off = raise cut_off

-- `is_ipv6` and `netloc_ok` stand for `ipaddress` and `urlsplit`.
module _ {D : Type 0} (is_ipv6 : String → Bool) (floats : Floats) (netloc_ok : String → Bool)
    (dock : Docker D) (environment : Dict String) where
  -- The part of `validate_settings` with a client of its own, which is closed in the end.
  abbrev pub try_daemon : String → String → ℕ → RuntimeIdentity → Bool → Action D Unit
  try_daemon endpoint challenge_network timeout identity allow_limited_local = do
    call (dock.connect endpoint timeout)
    call dock.ping
    info ← call dock.info
    checked (validate_daemon_capabilities info (some identity) allow_limited_local)
    attrs ← try_except (call (dock.network challenge_network)) missing_network
    checked (validate_challenge_network_attributes attrs identity)
    own ← get_current_container_networks floats netloc_ok dock
    fail_if (one_of challenge_network own) shared_network

  -- `validate_settings`
  unfoldable pub validate_settings : Settings → Action D Unit
  validate_settings settings = do
    identity ← checked (from_environment is_ipv6 environment)
    allow_limited_local ← checked (allow_limited_local_daemon environment identity)
    profile ← checked (build_hardening_profile floats settings)
    start ← checked (get_start_timeout_seconds settings)
    endpoint ← checked (validate_docker_endpoint netloc_ok (endpoint_setting settings) identity)
    fail_if (not (network_setting settings == identity.challenge_network)) network_mismatch
    timeout ← timeout_of (int_of 15 (get settings "docker_api_timeout"))
    try_except (try_daemon endpoint (network_setting settings) timeout identity allow_limited_local)
        connect_fault

  -- `except ContainerException` around the first connection
  abbrev unavailable : Fault → Action D Unit
  unavailable (container_exception e) =
      get_manager >>= λ m. set_manager (record m { connection_error = some e })
  unavailable (docker e) = raise (docker e)
  unavailable integrity_error = raise integrity_error
  unavailable other_exception = raise other_exception
  unavailable value_error = raise value_error
  unavailable cut_off = raise cut_off

  -- `__init__`
  unfoldable pub start_manager : Settings → Action D Unit
  start_manager given = do
    identity ← checked (from_environment is_ipv6 environment)
    allow_limited_local ← checked (allow_limited_local_daemon environment identity)
    let settings = put given "challenge_network" (some identity.challenge_network)
    profile ← checked (build_hardening_profile floats settings)
    start ← checked (get_start_timeout_seconds settings)
    expiration ← lift (get_expiration_seconds settings)
    endpoint ← checked (validate_docker_endpoint netloc_ok (endpoint_setting settings) identity)
    set_manager (record {
      settings = settings;
      identity = identity;
      allow_limited_local_daemon = allow_limited_local;
      hardening_profile = profile;
      start_timeout_seconds = start;
      expiration_seconds = expiration;
      docker_timeout = get_docker_timeout settings;
      client = false;
      daemon_capabilities = [];
      connection_error = none;
      scheduler = false;
    })
    try_except (initialize_connection floats netloc_ok dock settings) unavailable
