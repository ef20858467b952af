-- ===== src/Policy/Image.antt =====
-- `validate_image_reference` of runtime_policy.py.
pub mod Accepts
pub mod Digest
mod Tests
use ctf_plugin_docker_per_te.Prelude.{
  ℕ, String, Bool, true, false, not, ◌&&◌, ◌||◌, ◌==◌, leb, Option, some, List, [], ◌∷◌,
  if◌then◌else◌,
}
use ctf_plugin_docker_per_te.Text.{
  any_char, is_space, strip, starts_with, ends_with, is_empty, or_empty,
}
use ctf_plugin_docker_per_te.Regex.{Regex, chars, seq, exactly, literals, codes, search_end}
use ctf_plugin_docker_per_te.Result.{Result, ok, err, ◌>>=◌, ◌>>◌, raise_if}
use ctf_plugin_docker_per_te.Policy.Errors.{
  PolicyError, image_blank, image_quoted, image_outside_prefix, image_without_digest,
}
use ctf_plugin_docker_per_te.Policy.Identity.{RuntimeIdentity}

-- `@sha256:[0-9a-f]{64}$`
abbrev pub is_hex : ℕ → Bool
is_hex n = (leb b'0' n && leb n b'9') || (leb b'a' n && leb n b'f')

abbrev pub image_digest_pattern : Regex
image_digest_pattern = seq (literals (codes "@sha256:")) (exactly 64 (chars is_hex))

abbrev pub is_quoted : String → Bool
is_quoted s =
    starts_with s "\""
    || starts_with s "'"
    || starts_with s "\\"
    || ends_with "\"" s
    || ends_with "'" s
    || ends_with "\\" s

unfoldable pub validate_image_reference :
    Option String → RuntimeIdentity → Result PolicyError String
validate_image_reference image identity = do
  let value = strip (or_empty image)
  raise_if (is_empty value || any_char is_space value) image_blank
  raise_if (is_quoted value) image_quoted
  raise_if (not (starts_with value identity.image_prefix)) image_outside_prefix
  raise_if (identity.target_id == "production" && not (search_end image_digest_pattern value))
      image_without_digest
  ok value
