-- ===== src/Manager/Listing/Images.antt =====
-- Which references `get_images` of container_manager.py offers, and in which order.
use ctf_plugin_docker_per_te.Prelude.{
  ◌≡◌, refl, sym, ap, ◌∙◌, subst, ◌↔◌, inl, inr, String, Bool, true, false, ◌&&◌, ◌||◌, ◌==◌,
  Option, none, some, List, [], ◌∷◌, ◌++◌, one_of, Bool-cases, eq_iff, arith,
}
use ctf_plugin_docker_per_te.Text.{strip}
use ctf_plugin_docker_per_te.Result.{Result, ok, err}
use ctf_plugin_docker_per_te.Policy.Errors.{PolicyError}
use ctf_plugin_docker_per_te.Policy.Identity.{RuntimeIdentity}
use ctf_plugin_docker_per_te.Policy.Hardening.{Floats}
use ctf_plugin_docker_per_te.Policy.Image.{validate_image_reference}
use ctf_plugin_docker_per_te.Policy.Image.Accepts.{IsEventImage, validate_image_reference_iff}
use ctf_plugin_docker_per_te.Manager.{
  DockerError, docker_reply, Fault, ListedImage, Docker, World, call, continue-eq-ok,
}
use ctf_plugin_docker_per_te.Manager.Connection.Returns.{run_command-eq-ok}
use ctf_plugin_docker_per_te.Manager.Listing.{
  references_of, add_valid, collect_references, collect_images, list_images, get_images_steps,
  get_images,
}
use ctf_plugin_docker_per_te.Manager.Listing.Sorted.{
  IsIncreasing, IsUnique, add-IsUnique, one_of-add, one_of-sorted, sorted-IsIncreasing,
}

abbrev accepts : Result PolicyError String → Bool
accepts (ok value) = true
accepts (err e) = false

abbrev pub all_references : List ListedImage → List String
all_references [] = []
all_references (image ∷ images) = references_of image ++ all_references images

one_of-append : (r : String) (a b : List String) → one_of r (a ++ b) ≡ (one_of r a || one_of r b)
one_of-append r [] b = refl
one_of-append r (s ∷ a) b = ground (arith, one_of-append r a b)

one_of-add_valid :
    (r reference : String) (found : Result PolicyError String) (members : List String)
    → one_of r (add_valid found reference members)
      ≡ (one_of r members || (r == reference && accepts found))
one_of-add_valid r reference (ok value) members = ground (arith, one_of-add r reference members)
one_of-add_valid r reference (err e) members = ground arith

add_valid-IsUnique :
    (reference : String) (found : Result PolicyError String) (members : List String)
    → IsUnique members
    → IsUnique (add_valid found reference members)
add_valid-IsUnique reference (ok value) members h = add-IsUnique reference members h
add_valid-IsUnique reference (err e) members h = h

module _ (identity : RuntimeIdentity) where
  abbrev is_valid : String → Bool
  is_valid r = accepts (validate_image_reference (some r) identity)

  same_reference : (r s : String) → (r == s && is_valid s) ≡ (r == s && is_valid r)
  same_reference r s = elim (Bool-cases (r == s)) [
    | inl same ↦ ap (λ t. r == s && is_valid t) (sym ((eq_iff r s).0 same))
    | inr other ↦ rw other refl
  ]

  references-IsUnique :
      (references members : List String)
      → IsUnique members
      → IsUnique (collect_references identity references members)
  references-IsUnique [] members h = h
  references-IsUnique (s ∷ references) members h =
      references-IsUnique references _
        (add_valid-IsUnique s (validate_image_reference (some s) identity) members h)

  one_of-references :
      (r : String) (references members : List String)
      → one_of r (collect_references identity references members)
        ≡ (one_of r members || (one_of r references && is_valid r))
  one_of-references r [] members = ground arith
  one_of-references r (s ∷ references) members =
      let found = validate_image_reference (some s) identity in
      one_of-references r references (add_valid found s members)
      ∙ ground (arith, one_of-add_valid r s found members, same_reference r s)

  images-IsUnique :
      (images : List ListedImage) (members : List String)
      → IsUnique members
      → IsUnique (collect_images identity images members)
  images-IsUnique [] members h = h
  images-IsUnique (image ∷ images) members h =
      images-IsUnique images _ (references-IsUnique (references_of image) members h)

  one_of-images :
      (r : String) (images : List ListedImage) (members : List String)
      → one_of r (collect_images identity images members)
        ≡ (one_of r members || (one_of r (all_references images) && is_valid r))
  one_of-images r [] members = ground arith
  one_of-images r (image ∷ images) members =
      one_of-images r images (collect_references identity (references_of image) members)
      ∙ ground (
        arith,
        one_of-references r (references_of image) members,
        one_of-append r (references_of image) (all_references images),
      )

  is_valid_iff : (r : String) → (is_valid r ≡ true) ↔ IsEventImage (strip r) identity
  is_valid_iff r = (
    valid-sound _ refl,
    λ h. ap accepts ((validate_image_reference_iff (some r) identity (strip r)).1 (refl, h)),
  )
    where
      valid-sound :
          (found : Result PolicyError String)
          → validate_image_reference (some r) identity ≡ found
          → accepts found ≡ true
          → IsEventImage (strip r) identity
      valid-sound (ok value) e h =
          let (same, valid) = (validate_image_reference_iff (some r) identity value).0 e in
          subst (λ v. IsEventImage v identity) same valid
      valid-sound (err e') e h = cc h

-- The images that the daemon lists: none after a KeyError or an IndexError.
abbrev pub known_references : Option (List ListedImage) → List String
known_references none = []
known_references (some images) = all_references images

list_images-IsIncreasing :
    (identity : RuntimeIdentity) (images : Option (List ListedImage))
    → IsIncreasing (list_images identity images)
unfolding list_images
list_images-IsIncreasing identity none = tt
list_images-IsIncreasing identity (some images) =
    sorted-IsIncreasing _ (images-IsUnique identity images [] tt)

list_images_iff :
    (identity : RuntimeIdentity) (images : Option (List ListedImage)) (r : String)
    → (one_of r (list_images identity images) ≡ true)
      ↔ ((one_of r (known_references images) ≡ true) × IsEventImage (strip r) identity)
unfolding list_images
list_images_iff identity none r = (λ h. cc h, λ (h, i). h)
list_images_iff identity (some images) r =
    let members = collect_images identity images [] in
    let e = one_of-sorted r members ∙ one_of-images identity r images [] in
    (
      λ h. (ground (arith, e), (is_valid_iff identity r).0 (ground (arith, e))),
      λ (h, i). let valid = (is_valid_iff identity r).1 i in ground (arith, e),
    )

reply-eq-ok : {A : Type 0} (r : Result DockerError A) (a : A) → docker_reply r ≡ ok a → r ≡ ok a
reply-eq-ok (ok b) a h = cc h
reply-eq-ok (err e) a h = cc h

module _ {D : Type 0} (floats : Floats) (netloc_ok : String → Bool) (dock : Docker D) where
  -- The list is sorted, without duplicates, and has the references of the daemon's images that are
  -- event images, and no other.
  pub record IsOffer (listed : List String) (identity : RuntimeIdentity) : Type 0 where
    pub before : D
    pub images : Option (List ListedImage)
    pub after : D
    pub answered : dock.images before ≡ (ok images, after)
    pub increasing : IsIncreasing listed
    pub offered :
        (r : String)
        → (one_of r listed ≡ true)
          ↔ ((one_of r (known_references images) ≡ true) × IsEventImage (strip r) identity)

  abbrev OfferAt : Result Fault (List String) × World D → Type 0
  OfferAt (ok listed, w) = IsOffer listed w.manager.identity
  OfferAt (err e, w) = Unit

  -- `get_images` returns the references of the daemon's images that are event images, each once and
  -- in the order of the texts.
  pub get_images-IsOffer :
      (w w' : World D) (listed : List String)
      → get_images floats netloc_ok dock w ≡ (ok listed, w')
      → IsOffer listed w'.manager.identity
  unfolding get_images get_images_steps
  get_images-IsOffer w w' listed h =
      let (w1, h1) =
        run_command-eq-ok floats netloc_ok dock (get_images_steps floats netloc_ok dock) w w' listed
          h in
      let (images, w2, e, h2) = continue-eq-ok (call dock.images w1) _ h1 in
      subst OfferAt h2 (record {
        before = w1.daemon;
        images = images;
        after = (dock.images w1.daemon).1;
        answered =
            ap
              (λ (r : Result DockerError (Option (List ListedImage))).
                (r, (dock.images w1.daemon).1))
              (reply-eq-ok (dock.images w1.daemon).0 images
                (ap (λ (r : Result Fault (Option (List ListedImage)) × World D). r.0) e));
        increasing = list_images-IsIncreasing w2.manager.identity images;
        offered = list_images_iff w2.manager.identity images;
      })
