-- ===== src/ChallengeType.antt =====
-- __init__.py: `_normalize_challenge_payload`, what an admin may store in a challenge.
pub mod Ranges
pub mod Accepted
pub mod RoundTrip
pub mod Store
pub mod Attempt
mod Tests
use Prim.Native.String.{◌++◌}
use ctf_plugin_docker_per_te.Prelude.{
  ℕ, ◌+◌, String, Bool, true, false, not, ◌&&◌, ◌||◌, ◌==◌, leb, Option, none, some, List, [], ◌∷◌,
  keep, one_of, Dict, get, if◌then◌else◌,
}
use ctf_plugin_docker_per_te.Text.{strip, lower, is_empty, starts_with, decimal}
use ctf_plugin_docker_per_te.Text.Numbers.{ℤ, int}
use ctf_plugin_docker_per_te.Result.{Result, ok, err, ◌>>=◌, ◌>>◌, raise_if}
use ctf_plugin_docker_per_te.Policy.Hardening.{Settings}
use ctf_plugin_docker_per_te.Manager.Options.{
  Json, VolumesJson, not_json, not_object, mappings, parse_capabilities_value,
}

-- A value of a form or of a JSON object. `other` is a float, a list or an object: its `str`, whether
-- it is true, and its `int`, if it has one.
pub data Value : Type 0 where
  null : Value
  text : String → Value
  number : ℤ → Value
  truth : Bool → Value
  other : String → Bool → Option ℤ → Value

-- The exceptions; the class is `ChallengeCreateException` on creation, else `ChallengeUpdateException`.
pub data PayloadError : Type 0 where
  empty_payload wrong_type port_range negative_initial negative_minimum minimum_above_initial :
      PayloadError
  decay_range length_range bad_connection_type bad_flag_mode : PayloadError
  volumes_not_json volumes_not_object capabilities_not_json volumes_disabled : PayloadError
  bad_capabilities capabilities_disabled : PayloadError
  invalid_input : String → PayloadError
  missing_fields capabilities_not_allowed : List String → PayloadError

abbrev pub is_true : Option Value → Bool
is_true none = false
is_true (some null) = false
is_true (some (text s)) = not (is_empty s)
is_true (some (number (ℤ.pos n))) = not (leb n 0)
is_true (some (number (ℤ.negsuc n))) = true
is_true (some (truth b)) = b
is_true (some (other shown b as_int)) = b

-- `str(value)`
abbrev pub str_of : Value → String
str_of null = "None"
str_of (text s) = s
str_of (number (ℤ.pos n)) = decimal n
str_of (number (ℤ.negsuc n)) = "-" ++ decimal (n + 1)
str_of (truth true) = "True"
str_of (truth false) = "False"
str_of (other shown b as_int) = shown

-- `int(value)`; `none` is a TypeError or a ValueError
abbrev pub int_of_value : Value → Option ℤ
int_of_value null = none
int_of_value (text s) = int s
int_of_value (number n) = some n
int_of_value (truth true) = some (ℤ.pos 1)
int_of_value (truth false) = some (ℤ.pos 0)
int_of_value (other shown b as_int) = as_int

-- `value.strip() if isinstance(value, str) else value`
abbrev pub stripped : Value → Value
stripped null = null
stripped (text s) = text (strip s)
stripped (number n) = number n
stripped (truth b) = truth b
stripped (other shown b as_int) = other shown b as_int

abbrev pub text_or_empty : Value → String
text_or_empty null = ""
text_or_empty (text s) = strip s
text_or_empty (number n) = strip (str_of (number n))
text_or_empty (truth b) = strip (str_of (truth b))
text_or_empty (other shown b as_int) = strip shown

abbrev pub integer_fields : List String
integer_fields = "initial" ∷ "minimum" ∷ "decay" ∷ "port" ∷ "random_flag_length" ∷ []

abbrev pub choice_fields : List String
choice_fields = "connection_type" ∷ "flag_mode" ∷ []

abbrev pub option_fields : List String
option_fields = "volumes" ∷ "capabilities" ∷ []

abbrev number_or : String → Option ℤ → Result PayloadError Value
number_or attr none = err (invalid_input attr)
number_or attr (some n) = ok (number n)

-- The body of the loop over the payload.
unfoldable pub normalize_value : String → Value → Result PayloadError Value
normalize_value attr raw_value =
    if one_of attr integer_fields
    then number_or attr (int_of_value (stripped raw_value))
    else if one_of attr choice_fields
    then ok (text (lower (strip (str_of (stripped raw_value)))))
    else if one_of attr option_fields
    then ok (text (text_or_empty (stripped raw_value)))
    else ok (stripped (stripped raw_value))

-- The columns of the challenge, those of CTFd's table apart.
abbrev pub own_columns : List String
own_columns =
    "id" ∷ "image" ∷ "port" ∷ "command" ∷ "volumes" ∷ "capabilities" ∷ "connection_type" ∷ "initial"
    ∷ "minimum" ∷ "decay" ∷ "flag_mode" ∷ "random_flag_length" ∷ "flag_prefix" ∷ "flag_suffix" ∷ []

abbrev pub required_fields : List String
required_fields =
    "category" ∷ "connection_type" ∷ "decay" ∷ "description" ∷ "flag_mode" ∷ "image" ∷ "initial"
    ∷ "minimum" ∷ "name" ∷ "port" ∷ "state" ∷ "type" ∷ []

-- `low <= value <= high`, on a value that the loop has made a number
abbrev pub between : ℕ → ℕ → Value → Bool
between low high (number (ℤ.pos n)) = leb low n && leb n high
between low high _ = false

abbrev pub not_negative : Value → Bool
not_negative (number (ℤ.pos n)) = true
not_negative _ = false

-- `minimum <= initial`, of two numbers that are not negative
abbrev pub at_most : Value → Value → Bool
at_most (number (ℤ.pos m)) (number (ℤ.pos n)) = leb m n
at_most _ _ = false

abbrev pub text_in : List String → Value → Bool
text_in choices (text s) = one_of s choices
text_in choices _ = false

-- `if field in normalized and not test(normalized[field])`
abbrev pub fails : (Value → Bool) → Option Value → Bool
fails test none = false
fails test (some v) = not (test v)

abbrev pub fails_both : (Value → Value → Bool) → Option Value → Option Value → Bool
fails_both test (some a) (some b) = not (test a b)
fails_both test _ _ = false

abbrev nonempty : List String → Bool
nonempty [] = false
nonempty (x ∷ xs) = true

-- `if test: raise exc(…)`, one after the other
unfoldable pub raise_first : List (Bool × PayloadError) → Result PayloadError Unit
raise_first [] = ok tt
raise_first ((test, e) ∷ checks) = raise_if test e >> raise_first checks

abbrev pub missing_of : Bool → Dict Value → List String
missing_of creation normalized =
    keep (λ field. not (not creation || is_true (get normalized field))) required_fields

-- The checks of required fields and of ranges.
abbrev pub range_checks : Bool → Dict Value → List (Bool × PayloadError)
range_checks creation normalized =
    (nonempty (missing_of creation normalized), missing_fields (missing_of creation normalized))
    ∷ (fails (text_in ("container" ∷ [])) (get normalized "type"), wrong_type)
    ∷ (fails (between 1 65535) (get normalized "port"), port_range)
    ∷ (fails not_negative (get normalized "initial"), negative_initial)
    ∷ (fails not_negative (get normalized "minimum"), negative_minimum)
    ∷ (
      fails_both at_most (get normalized "minimum") (get normalized "initial"),
      minimum_above_initial,
    )
    ∷ (fails (between 1 100) (get normalized "decay"), decay_range)
    ∷ (fails (between 1 128) (get normalized "random_flag_length"), length_range)
    ∷ (fails (text_in ("tcp" ∷ "web" ∷ [])) (get normalized "connection_type"), bad_connection_type)
    ∷ (fails (text_in ("static" ∷ "random" ∷ [])) (get normalized "flag_mode"), bad_flag_mode)
    ∷ []

-- `normalized.get(field, "")`
abbrev pub option_text : Option Value → String
option_text none = ""
option_text (some v) = str_of v

abbrev check_volumes_json : VolumesJson → Result PayloadError Unit
check_volumes_json not_json = err volumes_not_json
check_volumes_json not_object = err volumes_not_object
check_volumes_json (mappings volumes) = ok tt

abbrev check_texts : Option (List String) → Result PayloadError Unit
check_texts none = err capabilities_not_json
check_texts (some values) = ok tt

abbrev pub enabled_setting : Option (Option String) → Bool
enabled_setting (some (some value)) = value == "enabled"
enabled_setting _ = false

-- `effective_settings.get("allowed_capabilities", "")`
abbrev pub setting_text : Option (Option String) → Option String
setting_text none = some ""
setting_text (some value) = value

abbrev pub check_allowed : Option (List String) → Option (List String) → Result PayloadError Unit
check_allowed (some requested) (some (name ∷ names)) =
    let disallowed = keep (λ c. not (one_of c (name ∷ names))) requested in
    raise_if (nonempty disallowed) (capabilities_not_allowed disallowed)
check_allowed (some requested) (some []) = err capabilities_disabled
check_allowed _ _ = err bad_capabilities

module _ (json : Json) (settings : Settings) where
  abbrev check_volumes : String → Result PayloadError Unit
  check_volumes value = if is_empty value then ok tt else check_volumes_json (json.volumes value)

  abbrev check_array : String → Result PayloadError Unit
  check_array value =
      if not (is_empty value) && starts_with value "["
      then check_texts (json.texts value)
      else ok tt

  abbrev pub check_capabilities : String → Result PayloadError Unit
  check_capabilities value =
      if is_empty value
      then ok tt
      else check_allowed (parse_capabilities_value json (some value))
          (parse_capabilities_value json (setting_text (get settings "allowed_capabilities")))

  -- The checks of the volumes and the capabilities.
  unfoldable pub check_options : Dict Value → Result PayloadError Unit
  check_options normalized =
      let volumes = option_text (get normalized "volumes") in
      let capabilities = option_text (get normalized "capabilities") in
      do
        check_volumes volumes
        check_array capabilities
        raise_if
            (not (is_empty volumes)
              && not (enabled_setting (get settings "allow_challenge_volumes")))
            volumes_disabled
        check_capabilities capabilities

  -- `inherited` are the columns of CTFd's table of challenges.
  module _ (inherited : List String) where
    abbrev pub is_allowed : String → Bool
    is_allowed attr =
        (one_of attr own_columns || one_of attr inherited)
        && not (one_of attr ("id" ∷ "value" ∷ []))

    -- The loop over the payload; the keys of a dict are distinct, so that a store appends.
    unfoldable pub normalize_items : Dict Value → Result PayloadError (Dict Value)
    normalize_items [] = ok []
    normalize_items ((attr, raw_value) ∷ items) =
        let rest = normalize_items items in
        if is_allowed attr
        then (normalize_value attr raw_value >>= λ value.
            rest >>= λ normalized. ok ((attr, value) ∷ normalized))
        else rest

    abbrev pub checked_payload : Bool → Dict Value → Result PayloadError (Dict Value)
    checked_payload creation normalized = do
      raise_first (range_checks creation normalized)
      check_options normalized
      ok normalized

    -- `_normalize_challenge_payload`
    unfoldable pub normalize_challenge_payload :
        Bool → Dict Value → Result PayloadError (Dict Value)
    normalize_challenge_payload creation [] = err empty_payload
    normalize_challenge_payload creation (item ∷ items) =
        normalize_items (item ∷ items) >>= checked_payload creation
