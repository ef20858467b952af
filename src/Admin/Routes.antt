-- ===== src/Admin/Routes.antt =====
-- admin_routes.py: the routes that change settings and kill containers, and what the page of reused
-- flags shows.
pub mod Saved
use Prim.Native.String
use ctf_plugin_docker_per_te.Prelude.{
  ℕ, suc, ◌+◌, String, Bool, true, false, ◌&&◌, nat_eq, Option, none, some, List, [], ◌∷◌, Dict,
  put, if◌then◌else◌,
}
use ctf_plugin_docker_per_te.Text.{starts_with}
use ctf_plugin_docker_per_te.Result.{Result, ok, err}
use ctf_plugin_docker_per_te.Models.{ContainerInfo}
use ctf_plugin_docker_per_te.Models.Queries.{find_info}
use ctf_plugin_docker_per_te.Records.{settings_to_dict}
use ctf_plugin_docker_per_te.Policy.Hardening.{Settings, Floats}
use ctf_plugin_docker_per_te.Manager.{
  ManagerError, Fault, container_exception, docker, integrity_error, other_exception, value_error,
  cut_off, Docker, World, Action, ◌>>=◌, ◌>>◌, try_except, return, raise, get_session,
}
use ctf_plugin_docker_per_te.Manager.Connection.{initialize_connection}
use ctf_plugin_docker_per_te.Manager.Starting.{validate_settings}
use ctf_plugin_docker_per_te.Requests.{Reply, Runtime, kill_container}
use ctf_plugin_docker_per_te.Requests.Account.{RequestError, invalid_request, missing_field}
use ctf_plugin_docker_per_te.ChallengeType.{Value}
use ctf_plugin_docker_per_te.Admin.{SettingsError, normalize_settings_payload}

-- What `route_update_settings` answers: the settings page with a message, or the dashboard; an
-- exception that it does not catch is `crashed`, before or after the settings are stored.
pub data UpdateReply : Type 0 where
  invalid : SettingsError → UpdateReply
  refused saved_unavailable : ManagerError → UpdateReply
  crashed crashed_late : Fault → UpdateReply
  bad_value saved : UpdateReply

abbrev pub refusal : Fault → UpdateReply
refusal (container_exception e) = refused e
refusal (docker e) = crashed (docker e)
refusal integrity_error = crashed integrity_error
refusal other_exception = crashed other_exception
refusal value_error = bad_value
refusal cut_off = crashed cut_off

abbrev pub late_reply : Result Fault Unit → UpdateReply
late_reply (ok _) = saved
late_reply (err (container_exception e)) = saved_unavailable e
late_reply (err (docker e)) = crashed_late (docker e)
late_reply (err integrity_error) = crashed_late integrity_error
late_reply (err other_exception) = crashed_late other_exception
late_reply (err value_error) = crashed_late value_error
late_reply (err cut_off) = crashed_late cut_off

-- The loop that stores the payload in the table of settings.
abbrev pub stored_settings : Settings → Settings → Settings
stored_settings [] rows = rows
stored_settings ((key, value) ∷ payload) rows = stored_settings payload (put rows key value)

-- `is_ipv6` and `netloc_ok` stand for `ipaddress` and `urlsplit`.
module _ {D : Type 0} (is_ipv6 : String → Bool) (floats : Floats) (netloc_ok : String → Bool)
    (dock : Docker D) (environment : Dict String) where
  abbrev with_settings : Settings → World D → World D
  with_settings settings w = record w { manager = record w.manager { settings = settings } }

  abbrev reconnected : Settings → Result Fault Unit × World D → UpdateReply × Settings × World D
  reconnected rows (r, w) = (late_reply r, rows, w)

  -- After the payload has been validated: the rows are committed, and the manager connects anew.
  abbrev pub store : Settings → Settings → World D → UpdateReply × Settings × World D
  store payload rows w =
      let rows' = stored_settings payload rows in
      let settings = settings_to_dict environment rows' in
      reconnected rows'
        (initialize_connection floats netloc_ok dock settings (with_settings settings w))

  abbrev pub store_if_valid :
      Settings → Settings → Result Fault Unit × World D → UpdateReply × Settings × World D
  store_if_valid payload rows (err e, w) = (refusal e, rows, w)
  store_if_valid payload rows (ok _, w) = store payload rows w

  abbrev pub validated :
      Settings → World D → Result SettingsError Settings → UpdateReply × Settings × World D
  validated rows w (err e) = (invalid e, rows, w)
  validated rows w (ok payload) =
      store_if_valid payload rows
        (validate_settings is_ipv6 floats netloc_ok dock environment payload w)

  -- `route_update_settings`, over the rows of the settings and the world
  unfoldable pub route_update_settings :
      Dict Value → Settings → World D → UpdateReply × Settings × World D
  route_update_settings form rows w =
      validated rows w (normalize_settings_payload floats form (settings_to_dict environment rows))

-- What the routes that kill containers answer.
pub data KillReply : Type 0 where
  bad_request : RequestError → KillReply
  no_selection : KillReply
  answered : Reply → KillReply
  deleted : ℕ → KillReply

module _ {D : Type 0} (runtime : Runtime D) where
  -- `route_admin_kill_container`; `none` is a request without JSON, and then one without the field
  unfoldable pub route_admin_kill_container : Option (Option String) → Action D KillReply
  route_admin_kill_container none = return (bad_request invalid_request)
  route_admin_kill_container (some none) = return (bad_request (missing_field "container_id"))
  route_admin_kill_container (some (some container_id)) =
      kill_container runtime container_id >>= λ reply. return (answered reply)

  -- `except ContainerException: continue`
  abbrev pub not_counted : Fault → Action D ℕ
  not_counted (container_exception e) = return 0
  not_counted (docker e) = raise (docker e)
  not_counted integrity_error = raise integrity_error
  not_counted other_exception = raise other_exception
  not_counted value_error = raise value_error
  not_counted cut_off = raise cut_off

  abbrev pub purge_found : String → Option ContainerInfo → Action D ℕ
  purge_found container_id none = return 0
  purge_found container_id (some container) =
      try_except (runtime.kill_container container_id >> return 1) not_counted

  -- The loop of `route_purge_containers`: how many were deleted.
  unfoldable pub purge : List String → Action D ℕ
  purge [] = return 0
  purge (container_id ∷ container_ids) =
      let others = purge container_ids in
      get_session >>= λ s. purge_found container_id (find_info s.view container_id) >>= λ n.
      others >>= λ m. return (n + m)

  -- `route_purge_containers`
  unfoldable pub route_purge_containers : Option (Option (List String)) → Action D KillReply
  route_purge_containers none = return (bad_request invalid_request)
  route_purge_containers (some none) = return (bad_request (missing_field "container_ids"))
  route_purge_containers (some (some [])) = return no_selection
  route_purge_containers (some (some (container_id ∷ container_ids))) =
      purge (container_id ∷ container_ids) >>= λ n. return (deleted n)

-- `len(s)`
abbrev pub text_length : String → ℕ
text_length String.[] = 0
text_length (String.◌∷◌ c s) = suc (text_length s)

-- What `route_containers_cheat` shows for a stored flag: never the flag itself.
unfoldable pub flag_fingerprint : (String → String) → String → String
flag_fingerprint sha256 stored_value =
    if starts_with stored_value "sha256:" && nat_eq (text_length stored_value) 71
    then stored_value
    else String.◌++◌ "sha256:" (sha256 stored_value)
