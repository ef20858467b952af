-- ===== src/Admin.antt =====
-- admin_routes.py: `normalize_settings_payload`, what an admin may set.
pub mod LogSize
pub mod Positive
pub mod Accepted
pub mod Routes
mod Tests
use ctf_plugin_docker_per_te.Prelude.{
  ℕ, String, Bool, true, false, not, ◌&&◌, ◌||◌, ◌==◌, leb, nat_eq, Option, none, some, List, [],
  ◌∷◌, ◌++◌, map, one_of, Dict, get, if◌then◌else◌,
}
use ctf_plugin_docker_per_te.Text.{strip, is_empty, or_empty}
use ctf_plugin_docker_per_te.Text.Numbers.{ℤ, int, is_positive}
use ctf_plugin_docker_per_te.Regex.{Regex, chars, seq, star, fullmatch}
use ctf_plugin_docker_per_te.Result.{Result, ok, err, ◌>>=◌, ◌>>◌, raise_if}
use ctf_plugin_docker_per_te.Policy.Hardening.{Settings, Floats, is_digit_code}
use ctf_plugin_docker_per_te.ChallengeType.{Value, null, text, number, truth, other, str_of}

-- The `ValueError`s, with the field that they name.
pub data SettingsError : Type 0 where
  is_required must_be_integer must_be_positive : String → SettingsError
  timeout_too_small capacity_too_small cpu_not_a_number cpu_not_positive bad_log_size :
      SettingsError
  bad_volumes_switch : SettingsError

abbrev pub base_fields : List String
base_fields =
    "docker_base_url" ∷ "docker_hostname" ∷ "docker_api_timeout" ∷ "challenge_network"
    ∷ "container_expiration" ∷ "container_maxmemory" ∷ "container_maxcpu" ∷ "container_pids_limit"
    ∷ "container_tmpfs_size_mb" ∷ "container_log_max_size" ∷ "container_log_max_files"
    ∷ "container_start_timeout_seconds" ∷ "max_containers" ∷ []

abbrev pub advanced_fields : List String
advanced_fields = "allow_challenge_volumes" ∷ "allowed_capabilities" ∷ []

abbrev pub required_settings : List String
required_settings =
    "docker_base_url" ∷ "docker_api_timeout" ∷ "challenge_network" ∷ "container_expiration"
    ∷ "container_maxmemory" ∷ "container_maxcpu" ∷ "container_pids_limit"
    ∷ "container_tmpfs_size_mb" ∷ "container_log_max_size" ∷ "container_log_max_files"
    ∷ "container_start_timeout_seconds" ∷ "max_containers" ∷ []

abbrev pub integer_settings : List String
integer_settings =
    "container_expiration" ∷ "container_maxmemory" ∷ "container_pids_limit"
    ∷ "container_tmpfs_size_mb" ∷ "container_log_max_files" ∷ "container_start_timeout_seconds"
    ∷ "max_containers" ∷ "docker_api_timeout" ∷ []

-- `str(defaults.get(field, ""))`
abbrev default_text : Option (Option String) → String
default_text none = ""
default_text (some none) = "None"
default_text (some (some value)) = value

-- The text of a field of the form, the stored setting where the form has none.
abbrev submitted_text : Option Value → String → String
submitted_text none default = default
submitted_text (some null) default = default
submitted_text (some (text s)) default = s
submitted_text (some (number n)) default = str_of (number n)
submitted_text (some (truth b)) default = str_of (truth b)
submitted_text (some (other shown b as_int)) default = shown

-- The settings of the form, in the order of the fields.
abbrev pub payload_of : Dict Value → Settings → List String → Settings
payload_of form defaults [] = []
payload_of form defaults (field ∷ fields) =
    (field, some (strip (submitted_text (get form field) (default_text (get defaults field)))))
    ∷ payload_of form defaults fields

-- `payload[field]`
abbrev pub field_text : Settings → String → String
field_text payload field = default_text (get payload field)

-- `for field in fields: …`
abbrev pub each_field :
    (String → Result SettingsError Unit) → List String → Result SettingsError Unit
each_field check [] = ok tt
each_field check (field ∷ fields) = check field >> each_field check fields

abbrev pub check_required : Settings → String → Result SettingsError Unit
check_required payload field = raise_if (is_empty (field_text payload field)) (is_required field)

abbrev positive_or : String → Option ℤ → Result SettingsError Unit
positive_or field none = err (must_be_integer field)
positive_or field (some n) = raise_if (not (is_positive n)) (must_be_positive field)

abbrev pub check_integer : Settings → String → Result SettingsError Unit
check_integer payload field =
    if is_empty (field_text payload field)
    then ok tt
    else positive_or field (int (field_text payload field))

-- `int(payload[field]) < 1`
abbrev below_one : Option ℤ → Bool
below_one none = false
below_one (some n) = not (is_positive n)

abbrev pub less_than_one : Settings → String → Bool
less_than_one payload field =
    not (is_empty (field_text payload field)) && below_one (int (field_text payload field))

-- `[1-9][0-9]*[kKmMgG]`
abbrev pub size_letter : ℕ → Bool
size_letter n =
    (nat_eq n b'k' || nat_eq n b'K')
    || (nat_eq n b'm' || nat_eq n b'M')
    || (nat_eq n b'g' || nat_eq n b'G')

abbrev pub submitted_size_pattern : Regex
submitted_size_pattern =
    seq (chars (λ n. leb b'1' n && leb n b'9'))
      (seq (star (chars is_digit_code)) (chars size_letter))

module _ (floats : Floats) where
  open floats use {Float, float, at_most_zero}

  abbrev positive_cpu : Option Float → Result SettingsError Unit
  positive_cpu none = err cpu_not_a_number
  positive_cpu (some parsed_cpu) = raise_if (at_most_zero parsed_cpu) cpu_not_positive

  abbrev pub check_cpu : String → Result SettingsError Unit
  check_cpu value = if is_empty value then ok tt else positive_cpu (float value)

  abbrev pub check_payload : Settings → Result SettingsError Settings
  check_payload payload = do
    each_field (check_required payload) required_settings
    each_field (check_integer payload) integer_settings
    raise_if (less_than_one payload "docker_api_timeout") timeout_too_small
    raise_if (less_than_one payload "max_containers") capacity_too_small
    check_cpu (field_text payload "container_maxcpu")
    raise_if (not (fullmatch submitted_size_pattern (field_text payload "container_log_max_size")))
        bad_log_size
    raise_if
        (not (one_of (field_text payload "allow_challenge_volumes") ("disabled" ∷ "enabled" ∷ [])))
        bad_volumes_switch
    ok payload

  -- `normalize_settings_payload`
  unfoldable pub normalize_settings_payload : Dict Value → Settings → Result SettingsError Settings
  normalize_settings_payload form defaults =
      check_payload (payload_of form defaults (base_fields ++ advanced_fields))
