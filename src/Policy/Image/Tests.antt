-- ===== src/Policy/Image/Tests.antt =====
-- Runs of `validate_image_reference` of runtime_policy.py.
use ctf_plugin_docker_per_te.Prelude.{
  ℕ, String, ◌≡◌, refl, Bool, true, Option, none, some, List, [], ◌∷◌, length, All,
}
use ctf_plugin_docker_per_te.Prelude
use ctf_plugin_docker_per_te.Regex.{codes, search_end}
use ctf_plugin_docker_per_te.Result.{ok, err}
use ctf_plugin_docker_per_te.Text.{strip, is_space, or_empty}
use ctf_plugin_docker_per_te.Policy.Errors
use ctf_plugin_docker_per_te.Policy.Identity.{RuntimeIdentity}
use ctf_plugin_docker_per_te.Policy.Identity.Tests.{local_identity}
use ctf_plugin_docker_per_te.Policy.Image.{is_hex, validate_image_reference}
use ctf_plugin_docker_per_te.Policy.Image.Accepts.{IsEventImage, validate_image_reference_iff}
use ctf_plugin_docker_per_te.Policy.Image.Digest.{production_image_has_digest}

abbrev production : RuntimeIdentity
production = record local_identity { target_id = "production" }

abbrev pinned_image : String
pinned_image =
    "cybersea/web@sha256:0123456789abcdef0123456789abcdef0123456789abcdef0123456789abcdef"

outside_is_rejected :
    validate_image_reference (some "other/web") local_identity ≡ err Errors.image_outside_prefix
unfolding validate_image_reference strip is_space
outside_is_rejected = refl

pinned_is_accepted : validate_image_reference (some pinned_image) production ≡ ok pinned_image
unfolding validate_image_reference strip is_space search_end
pinned_is_accepted = refl

validate_image_reference_iff_example :
    ("cybersea/web" ≡ strip (or_empty (some " cybersea/web ")))
    × IsEventImage "cybersea/web" local_identity
unfolding validate_image_reference strip is_space
validate_image_reference_iff_example =
    (validate_image_reference_iff (some " cybersea/web ") local_identity "cybersea/web").0 refl

pinned_has_digest :
    (name : List ℕ) × (hex : List ℕ) × (codes pinned_image
      ≡ Prelude.◌++◌ name (Prelude.◌++◌ (codes "@sha256:") hex))
    × (length hex ≡ 64)
    × All (λ n. is_hex n ≡ true) hex
pinned_has_digest =
    production_image_has_digest (some pinned_image) production pinned_image refl pinned_is_accepted
