-- ===== src/Policy/Image/Accepts.antt =====
-- Which image references `validate_image_reference` accepts.
use Prim.Native.String.{◌++◌}
use ctf_plugin_docker_per_te.Prelude.{
  String, ◌≡◌, ◌≢◌, refl, sym, ◌↔◌, ◌⊎◌, inl, inr, Bool, true, false, not, ◌&&◌, ◌||◌, ◌==◌, eq_iff,
  Option, arith, Bool-cases,
}
use ctf_plugin_docker_per_te.Text.{any_char, is_space, strip, starts_with, is_empty, or_empty}
use ctf_plugin_docker_per_te.Text.Laws.{starts_with-eq, starts_with-append}
use ctf_plugin_docker_per_te.Regex.{codes, search_end}
use ctf_plugin_docker_per_te.Regex.Search.{EndsWith, search_end_iff}
use ctf_plugin_docker_per_te.Result.{ok, raise_if-passes}
use ctf_plugin_docker_per_te.Policy.Errors.{image_blank, image_without_digest}
use ctf_plugin_docker_per_te.Policy.Identity.{RuntimeIdentity}
use ctf_plugin_docker_per_te.Policy.Image.{
  is_quoted, image_digest_pattern, validate_image_reference,
}

-- A reference of the event's images; in production it ends with a digest.
pub record IsEventImage (value : String) (identity : RuntimeIdentity) : Type 0 where
  pub filled : is_empty value ≡ false
  pub solid : any_char is_space value ≡ false
  pub unquoted : is_quoted value ≡ false
  pub namespaced : (rest : String) × (value ≡ identity.image_prefix ++ rest)
  pub pinned : (identity.target_id ≢ "production") ⊎ EndsWith image_digest_pattern (codes value)

negated : (b : Bool) → not b ≡ false → b ≡ true
negated b h = ground arith

neither : (a b : Bool) → (a || b) ≡ false → (a ≡ false) × (b ≡ false)
neither a b h = ground arith

pinned_sound :
    (target value : String)
    → (target == "production" && not (search_end image_digest_pattern value)) ≡ false
    → (target ≢ "production") ⊎ EndsWith image_digest_pattern (codes value)
pinned_sound target value h = elim (Bool-cases (search_end image_digest_pattern value)) [
  | inl found ↦ inr ((search_end_iff _ _).0 found)
  | inr missing ↦ inl λ e. cc ((eq_iff target "production").1 e, rw missing at h)
]

pinned_complete :
    (target value : String)
    → (target ≢ "production") ⊎ EndsWith image_digest_pattern (codes value)
    → (target == "production" && not (search_end image_digest_pattern value)) ≡ false
pinned_complete target value (inl other) = ground (arith, eq_iff target "production")
pinned_complete target value (inr digest) =
    rw ((search_end_iff image_digest_pattern value).1 digest) (ground arith)

module _ (image : Option String) (identity : RuntimeIdentity) where
  image_sound :
      (value : String)
      → validate_image_reference image identity ≡ ok value
      → (value ≡ strip (or_empty image)) × IsEventImage value identity
  unfolding validate_image_reference
  image_sound value h0 =
      let given = strip (or_empty image) in
      let (blank, h1) =
        raise_if-passes (is_empty given || any_char is_space given) image_blank _ h0 in
      let (quoted, h2) = raise_if-passes (is_quoted given) _ _ h1 in
      let (outside, h3) = raise_if-passes _ _ _ h2 in
      let (unpinned, h4) =
        raise_if-passes
          (identity.target_id == "production" && not (search_end image_digest_pattern given))
          image_without_digest _ h3 in
      let same : given ≡ value = cc h4 in
      (
        sym same,
        rw (← same) (record {
          filled = (neither _ _ blank).0;
          solid = (neither _ _ blank).1;
          unquoted = quoted;
          namespaced = starts_with-eq _ _ (negated _ outside);
          pinned = pinned_sound identity.target_id given unpinned;
        }),
      )

  image_complete :
      IsEventImage (strip (or_empty image)) identity
      → validate_image_reference image identity ≡ ok (strip (or_empty image))
  unfolding validate_image_reference
  image_complete i =
      let inside : starts_with (strip (or_empty image)) identity.image_prefix ≡ true =
        rw i.namespaced.1 (starts_with-append identity.image_prefix i.namespaced.0) in
      rw
        (
          i.filled,
          i.solid,
          i.unquoted,
          inside,
          pinned_complete identity.target_id (strip (or_empty image)) i.pinned,
        )
        refl

-- The validator returns the stripped reference exactly if that is filled, free of white space and
-- of quotes at its ends, inside the event's prefix and, in production, closed by a digest.
pub validate_image_reference_iff :
    (image : Option String) (identity : RuntimeIdentity) (value : String)
    → (validate_image_reference image identity ≡ ok value)
      ↔ ((value ≡ strip (or_empty image)) × IsEventImage value identity)
validate_image_reference_iff image identity value =
    (image_sound image identity value, λ (e, i). rw e (image_complete image identity (rw e at i)))
