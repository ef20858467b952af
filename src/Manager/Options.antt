-- ===== src/Manager/Options.antt =====
-- What `create_container` of container_manager.py takes from a challenge: its flag, its volumes and
-- its capabilities; and `parse_capabilities_value` of helpers.py.
pub mod Granted
pub mod Steady
use Prim.Native.String.{◌++◌}
use ctf_plugin_docker_per_te.Prelude.{
  ℕ, String, Bool, true, false, not, ◌&&◌, ◌||◌, ◌==◌, nat_eq, Option, none, some, List, [], ◌∷◌,
  first, keep, map, one_of, Dict, get, put, if◌then◌else◌,
}
use ctf_plugin_docker_per_te.Text.{
  strip, lower, upper, or_empty, is_empty, starts_with, rstrip_mark, split, text_below, decimal,
}
use ctf_plugin_docker_per_te.Result.{Result, ok, err}
use ctf_plugin_docker_per_te.Models.{Challenge, Db}
use ctf_plugin_docker_per_te.Flags.{get_expected_static_flag}
use ctf_plugin_docker_per_te.Policy.Hardening.{Settings}
use ctf_plugin_docker_per_te.Policy.Identity.{RuntimeIdentity, labels}
use ctf_plugin_docker_per_te.Manager.{
  ManagerError, volumes_disabled, volume_not_object, volume_over_tmp, volume_not_read_only,
  bad_volumes, bad_capabilities, capabilities_not_allowed, Fault, other_exception, value_error,
  Docker, Action, ◌>>=◌, ◌>>◌, return, raise, fail, fail_if, get_session,
}
use ctf_plugin_docker_per_te.Manager.Connection.{setting, lift}
use ctf_plugin_docker_per_te.Manager.Startup.{generate_unique_random_flag}

-- A volume mapping, its texts with "" for what is missing.
pub record Volume : Type 0 where
  pub bind : String
  pub mode : String

-- What `json.loads` finds: no JSON, a value without `values()`, or an object; a value of the
-- object that is no object is `none`.
pub data VolumesJson : Type 0 where
  not_json not_object : VolumesJson
  mappings : List (Option Volume) → VolumesJson

-- What the plugin reads of JSON texts: volumes, and the texts `str(x)` of an array's elements.
pub record Json : Type 0 where
  pub volumes : String → VolumesJson
  pub texts : String → Option (List String)

-- `[str(x).strip().upper() for x in values if str(x).strip()]`
abbrev pub capability_names : List String → List String
capability_names values = map (λ v. upper (strip v)) (keep (λ v. not (is_empty (strip v))) values)

abbrev names_or_error : Option (List String) → Option (List String)
names_or_error none = none
names_or_error (some values) = some (capability_names values)

-- `parse_capabilities_value`; `none` is the ValueError
unfoldable pub parse_capabilities_value : Json → Option String → Option (List String)
parse_capabilities_value json value =
    let raw_value = strip (or_empty value) in
    if is_empty raw_value
    then some []
    else if starts_with raw_value "["
    then names_or_error (json.texts raw_value)
    else some (capability_names (split "," raw_value))

-- `sorted(set(xs))`
abbrev pub insert : String → List String → List String
insert s [] = s ∷ []
insert s (t ∷ ts) =
    let rest = insert s ts in
    if s == t then t ∷ ts else if text_below s t then s ∷ t ∷ ts else t ∷ rest

abbrev pub sorted_set : List String → List String
sorted_set [] = []
sorted_set (s ∷ ss) = insert s (sorted_set ss)

abbrev nonempty : List String → Bool
nonempty [] = false
nonempty (x ∷ xs) = true

abbrev pub granted : Option (List String) → Option (List String) → Result ManagerError (List String)
granted none allowed = err bad_capabilities
granted (some requested) none = err bad_capabilities
granted (some requested) (some allowed) =
    let disallowed = sorted_set (keep (λ c. not (one_of c allowed)) requested) in
    if nonempty disallowed
    then err (capabilities_not_allowed disallowed)
    else ok (sorted_set requested)

-- The capabilities of the launch, none being asked for without `cap_add`.
unfoldable pub requested_capabilities :
    Json → Settings → Challenge → Result ManagerError (List String)
requested_capabilities json settings challenge =
    let capabilities = strip (or_empty challenge.capabilities) in
    if is_empty capabilities
    then ok []
    else granted (parse_capabilities_value json (some capabilities))
        (parse_capabilities_value json (setting settings "allowed_capabilities"))

abbrev pub bind_path : Volume → String
bind_path volume = rstrip_mark "/" volume.bind

-- The loop over the volume mappings.
abbrev pub check_mappings : List (Option Volume) → Result ManagerError Unit
check_mappings [] = ok tt
check_mappings (none ∷ rest) = err volume_not_object
check_mappings (some volume ∷ rest) =
    let later = check_mappings rest in
    if bind_path volume == "/tmp" || starts_with (bind_path volume) "/tmp/"
    then err volume_over_tmp
    else if not (lower volume.mode == "ro")
    then err volume_not_read_only
    else later

abbrev allows_volumes : Option (Option String) → Bool
allows_volumes none = false
allows_volumes (some none) = false
allows_volumes (some (some value)) = value == "enabled"

abbrev checked_volumes : String → Result ManagerError Unit → Result ManagerError (Option String)
checked_volumes text (ok _) = ok (some text)
checked_volumes text (err e) = err e

abbrev given : Option String → Option String
given none = none
given (some text) = if is_empty text then none else some text

module _ {D : Type 0} where
  abbrev parsed_volumes : String → VolumesJson → Action D (Option String)
  parsed_volumes text not_json = fail bad_volumes
  parsed_volumes text not_object = raise other_exception
  parsed_volumes text (mappings volumes) = lift (checked_volumes text (check_mappings volumes))

  abbrev given_volumes : Json → Settings → Option String → Action D (Option String)
  given_volumes json settings none = return none
  given_volumes json settings (some text) =
      fail_if (not (allows_volumes (get settings "allow_challenge_volumes"))) volumes_disabled
      >> parsed_volumes text (json.volumes text)

  -- The volumes of the launch.
  unfoldable pub mounted_volumes : Json → Settings → Option String → Action D (Option String)
  mounted_volumes json settings volumes = given_volumes json settings (given volumes)

  -- The flag of the launch.
  unfoldable pub choose_flag : Docker D → Challenge → Action D String
  choose_flag dock challenge =
      if challenge.flag_mode == "random"
      then generate_unique_random_flag dock challenge
      else (get_session >>= λ s. return (get_expected_static_flag s.view challenge))

abbrev merged : Dict String → Dict String → Dict String
merged base [] = base
merged base ((key, value) ∷ rest) = merged (put base key value) rest

-- The labels of the launch, those of the identity last.
unfoldable pub launch_labels : RuntimeIdentity → Challenge → ℕ → Bool → Dict String
launch_labels identity challenge xid is_team =
    merged
      (("ctfd.plugin", "docker_per_team")
        ∷ ("ctfd.challenge_id", decimal challenge.id)
        ∷ ("ctfd.scope", if is_team then "team" else "user")
        ∷ ("ctfd.scope_id", decimal xid)
        ∷ [])
      (labels identity)
