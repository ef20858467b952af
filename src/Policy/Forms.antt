-- ===== src/Policy/Forms.antt =====
-- The patterns of runtime_policy.py, and the tests and rewritings of single texts that
-- `RuntimeIdentity.from_environment` makes.
use Prim.Native.String
use Prim.Native.String.{[], ◌∷◌}
use ctf_plugin_docker_per_te.Prelude.{
  ℕ, code, String, Bool, false, not, ◌&&◌, ◌||◌, leb, nat_eq, if◌then◌else◌, List,
}
use ctf_plugin_docker_per_te.Text.{
  any_char, all_chars, is_space, strip_mark, starts_with, ends_with, split,
}
use ctf_plugin_docker_per_te.Text.Numbers.{is_digit, value_from}
use ctf_plugin_docker_per_te.Regex.{Regex, empty, chars, seq, alt, up_to}

-- `[a-z0-9]`, `[A-Za-z0-9]`, and one of three marks besides
abbrev pub is_lower_alnum : ℕ → Bool
is_lower_alnum n = (leb b'a' n && leb n b'z') || (leb b'0' n && leb n b'9')

abbrev pub is_alnum : ℕ → Bool
is_alnum n = is_lower_alnum n || (leb b'A' n && leb n b'Z')

abbrev pub is_mark : ℕ → Bool
is_mark n = nat_eq n b'.' || nat_eq n b'_' || nat_eq n b'-'

-- `[a-z0-9](?:[a-z0-9._-]{0,62}[a-z0-9])?`
abbrev pub identity_pattern : Regex
identity_pattern =
    seq (chars is_lower_alnum) (
      alt empty
        (seq (up_to 62 (chars (λ n. is_lower_alnum n || is_mark n))) (chars is_lower_alnum)))

-- `[A-Za-z0-9][A-Za-z0-9_.-]{0,127}`
abbrev pub network_pattern : Regex
network_pattern = seq (chars is_alnum) (up_to 127 (chars (λ n. is_alnum n || is_mark n)))

-- `re.sub(r"[^a-z0-9]+", "_", text)`: the flag says whether the run has begun.
replace_runs : Bool → String → String
replace_runs inside [] = []
replace_runs inside (c ∷ s) =
    let plain = is_lower_alnum (code c) in
    let rest = replace_runs (not plain) s in
    if plain then c ∷ rest else if inside then rest else "_" ∷ rest

-- `_event_network_prefix`
unfoldable pub event_network_prefix : String → String
unfolding replace_runs strip_mark
event_network_prefix event_id = String.◌++◌ (strip_mark "_" (replace_runs false event_id)) "_"

-- The decimal octets that `ipaddress` takes: no leading zero, at most 255.
abbrev is_octet : String → Bool
is_octet [] = false
is_octet (c ∷ []) = is_digit c
is_octet (c ∷ d ∷ s) =
    all_chars is_digit (c ∷ d ∷ s)
    && not (nat_eq (code c) b'0')
    && leb (value_from 0 (c ∷ d ∷ s)) 255

four_octets : List String → Bool
four_octets (List.◌∷◌ a (List.◌∷◌ b (List.◌∷◌ c (List.◌∷◌ d List.[])))) =
    is_octet a && is_octet b && is_octet c && is_octet d
four_octets _ = false

unfoldable pub is_ipv4 : String → Bool
unfolding four_octets split
is_ipv4 s = four_octets (split "." s)

-- `any(isspace)`, a leading quote, backslash or slash, or no slash at the end
abbrev pub starts_badly : String → Bool
starts_badly s = starts_with s "\"" || starts_with s "'" || starts_with s "\\" || starts_with s "/"

unfoldable pub is_bad_prefix : String → Bool
is_bad_prefix s = any_char is_space s || starts_badly s || not (ends_with "/" s)
