-- ===== src/Requests/Endpoint.antt =====
-- helpers.py: `build_connection_payload`, what a player is told of a container.
use Prim.Native.String.{◌++◌}
use ctf_plugin_docker_per_te.Prelude.{ℕ, String, ◌==◌, Option, none, some, if◌then◌else◌}
use ctf_plugin_docker_per_te.Text.{strip, lower, or_empty, is_empty, before}
use ctf_plugin_docker_per_te.Models.{Challenge}
use ctf_plugin_docker_per_te.Policy.Hardening.{Settings}
use ctf_plugin_docker_per_te.Manager.Connection.{setting}

-- `build_connection_payload`
pub record Payload : Type 0 where
  pub hostname : String
  pub port : String
  pub connect : String
  pub expires : ℕ
  pub endpoint : String

abbrev pub connect_of : Option String → String
connect_of none = "tcp"
connect_of (some text) = lower (strip (if is_empty text then "tcp" else text))

abbrev hostname_of : String → Option String → String
hostname_of configured request_host =
    if is_empty configured then before ":" (or_empty request_host) else configured

abbrev endpoint_of : String → String → String → String
endpoint_of connect hostname port =
    if connect == "tcp"
    then (if is_empty hostname then port else hostname ++ (":" ++ port))
    else ((if port == "443" then "https" else "http") ++ ("://" ++ (hostname ++ (":" ++ port))))

-- `request_host` is the host of the request, if there is one.
unfoldable pub build_connection_payload :
    Settings → Option String → Challenge → String → ℕ → Payload
build_connection_payload settings request_host challenge port expires =
    let connect = connect_of challenge.connection_type in
    let hostname =
      hostname_of (strip (or_empty (setting settings "docker_hostname"))) request_host in
    record {
      hostname = hostname;
      port = port;
      connect = connect;
      expires = expires;
      endpoint = endpoint_of connect hostname port;
    }
