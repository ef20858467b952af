-- ===== src/Records.antt =====
-- helpers.py: `cleanup_container_records`, `solve_exists_for_account`, `settings_to_dict` and
-- `seed_default_settings`: the rows that outlive a request.
pub mod Cleanup
pub mod Defaults
mod Tests
use ctf_plugin_docker_per_te.Prelude.{
  ℕ, String, Bool, true, false, not, ◌&&◌, ◌||◌, nat_eq, ◌==◌, Option, none, some, List, [], ◌∷◌,
  ◌++◌, first, keep, map, if◌then◌else◌, Dict, get, put, one_of,
}
use ctf_plugin_docker_per_te.Text.{strip, is_empty, or_empty}
use ctf_plugin_docker_per_te.Models.{
  Challenge, ContainerInfo, ContainerFlag, Solve, Db, Session, commit, set_view,
}
use ctf_plugin_docker_per_te.Models.Queries.{id_eq, text_eq, find_challenge}

-- `solve_exists_for_account`
unfoldable pub solve_exists_for_account : Bool → ℕ → ℕ → Db → Option Solve
solve_exists_for_account is_team challenge_id xid db =
    first
      (λ s.
        nat_eq s.challenge_id challenge_id
        && id_eq (if is_team then s.team_id else s.user_id) (some xid))
      db.solves

abbrev pub is_attached : String → ContainerFlag → Bool
is_attached container_id f = text_eq f.container_id (some container_id)

-- What becomes of the attached flags: a static-flag challenge deletes them, a random-flag
-- challenge keeps them for later submissions.
abbrev pub detached : String → ContainerFlag → ContainerFlag
detached container_id f = if is_attached container_id f then record f { container_id = none } else f

abbrev pub released_flags : String → String → List ContainerFlag → List ContainerFlag
released_flags flag_mode container_id flags =
    if flag_mode == "static"
    then keep (λ f. not (is_attached container_id f)) flags
    else map (detached container_id) flags

abbrev pub other_infos : String → List ContainerInfo → List ContainerInfo
other_infos container_id infos = keep (λ i. not (i.container_id == container_id)) infos

-- The pending changes of `cleanup_container_records`; `none` is the AttributeError of a container
-- whose challenge is gone.
abbrev pub release : Option Challenge → ContainerInfo → Session → Option Session
release none info s = none
release (some challenge) info s = some (
    set_view s (record s.view {
      flags = released_flags challenge.flag_mode info.container_id s.view.flags;
      infos = other_infos info.container_id s.view.infos;
    }))

abbrev pub commit_if : Bool → Option Session → Option Session
commit_if now none = none
commit_if now (some s) = some (if now then commit s else s)

-- `cleanup_container_records`
unfoldable pub cleanup_container_records : Option ContainerInfo → Bool → Session → Option Session
cleanup_container_records none now s = some s
cleanup_container_records (some info) now s =
    commit_if now (release (find_challenge s.view info.challenge_id) info s)

-- `DEFAULT_CONTAINER_SETTINGS`, of settings.json
abbrev pub default_container_settings : Dict (Option String)
default_container_settings =
    ("docker_base_url", some "unix:///var/run/docker.sock")
    ∷ ("docker_hostname", some "")
    ∷ ("docker_api_timeout", some "15")
    ∷ ("challenge_network", some "")
    ∷ ("container_expiration", some "30")
    ∷ ("container_maxmemory", some "1024")
    ∷ ("container_maxcpu", some "1.0")
    ∷ ("container_pids_limit", some "512")
    ∷ ("container_tmpfs_size_mb", some "256")
    ∷ ("container_log_max_size", some "10m")
    ∷ ("container_log_max_files", some "3")
    ∷ ("container_start_timeout_seconds", some "60")
    ∷ ("max_containers", some "3")
    ∷ ("allow_challenge_volumes", some "disabled")
    ∷ ("allowed_capabilities", some "")
    ∷ []

abbrev pub runtime_setting_environment : Dict String
runtime_setting_environment =
    ("docker_base_url", "CTF_DOCKER_BASE_URL")
    ∷ ("docker_hostname", "CTF_DOCKER_PUBLIC_HOSTNAME")
    ∷ ("challenge_network", "CTF_CHALLENGE_NETWORK")
    ∷ []

abbrev pub secure_nonzero_defaults : List String
secure_nonzero_defaults =
    "container_expiration" ∷ "container_maxmemory" ∷ "container_maxcpu" ∷ "container_pids_limit"
    ∷ "container_tmpfs_size_mb" ∷ "container_log_max_files" ∷ "container_start_timeout_seconds"
    ∷ "max_containers" ∷ []

-- `merged.update(rows)`
abbrev pub updated : Dict (Option String) → Dict (Option String) → Dict (Option String)
updated merged [] = merged
updated merged ((key, value) ∷ rows) = updated (put merged key value) rows

abbrev pub overridden : Dict String → Dict String → Dict (Option String) → Dict (Option String)
overridden environment [] merged = merged
overridden environment ((key, variable) ∷ rest) merged =
    let value = strip (or_empty (get environment variable)) in
    overridden environment rest (if is_empty value then merged else put merged key (some value))

-- `settings_to_dict`, from the rows of the settings table
unfoldable pub settings_to_dict : Dict String → Dict (Option String) → Dict (Option String)
settings_to_dict environment settings_rows =
    overridden environment runtime_setting_environment
      (updated default_container_settings settings_rows)

abbrev pub is_zero_sentinel : Option String → Bool
is_zero_sentinel value = one_of (strip (or_empty value)) ("" ∷ "0" ∷ "0.0" ∷ [])

-- The row of one default after `seed_default_settings`.
abbrev pub seeded_value : String → Option String → Option (Option String) → Option String
seeded_value key default none = default
seeded_value key default (some value) =
    if one_of key secure_nonzero_defaults && is_zero_sentinel value then default else value

-- The loop of `seed_default_settings`: new rows are added, insecure ones are updated.
abbrev pub seed_rows : Dict (Option String) → Dict (Option String) → Dict (Option String)
seed_rows [] rows = rows
seed_rows ((key, default) ∷ defaults) rows =
    seed_rows defaults (put rows key (seeded_value key default (get rows key)))

-- `seed_default_settings`: the rows that the table has afterwards, and the merged settings.
unfoldable pub seed_default_settings :
    Dict String → Dict (Option String) → Dict (Option String) × Dict (Option String)
seed_default_settings environment rows =
    let rows' = seed_rows default_container_settings rows in
    (rows', settings_to_dict environment rows')
