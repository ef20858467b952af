-- ===== src/Manager/Listing.antt =====
-- container_manager.py: `get_running_container_ids` and `get_images`.
pub mod Sorted
pub mod Images
use Prim.Native.String
use ctf_plugin_docker_per_te.Prelude.{
  String, Bool, Option, none, some, List, [], ◌∷◌, ◌++◌, one_of, if◌then◌else◌,
}
use ctf_plugin_docker_per_te.Text.Order.{text_lt}
use ctf_plugin_docker_per_te.Result.{Result, ok, err}
use ctf_plugin_docker_per_te.Policy.Errors.{PolicyError}
use ctf_plugin_docker_per_te.Policy.Identity.{RuntimeIdentity}
use ctf_plugin_docker_per_te.Policy.Hardening.{Floats}
use ctf_plugin_docker_per_te.Policy.Image.{validate_image_reference}
use ctf_plugin_docker_per_te.Manager.{ListedImage, Docker, Action, ◌>>=◌, return, call, get_manager}
use ctf_plugin_docker_per_te.Manager.Connection.{run_command}

-- A Python set of texts is a list without duplicates: `members.add(s)`.
abbrev pub add : String → List String → List String
add s members = if one_of s members then members else s ∷ members

-- `{s for s in texts}`
abbrev pub set_of : List String → List String
set_of [] = []
set_of (s ∷ texts) = add s (set_of texts)

-- `sorted(members)`
abbrev pub insert : String → List String → List String
insert s [] = s ∷ []
insert s (t ∷ sorted) =
    let rest = insert s sorted in if text_lt s t then s ∷ t ∷ sorted else t ∷ rest

abbrev pub sorted_texts : List String → List String
sorted_texts [] = []
sorted_texts (s ∷ members) = insert s (sorted_texts members)

-- `list(texts or [])`
abbrev pub or_none : Option (List String) → List String
or_none none = []
or_none (some texts) = texts

abbrev pub references_of : ListedImage → List String
references_of image = or_none image.tags ++ or_none image.repo_digests

-- `except RuntimePolicyError: continue`
abbrev pub add_valid : Result PolicyError String → String → List String → List String
add_valid (ok value) reference images_list = add reference images_list
add_valid (err e) reference images_list = images_list

-- The loops of `get_images`, over the set so far.
abbrev pub collect_references : RuntimeIdentity → List String → List String → List String
collect_references identity [] images_list = images_list
collect_references identity (reference ∷ references) images_list =
    collect_references identity references
      (add_valid (validate_image_reference (some reference) identity) reference images_list)

abbrev pub collect_images : RuntimeIdentity → List ListedImage → List String → List String
collect_images identity [] images_list = images_list
collect_images identity (image ∷ images) images_list =
    collect_images identity images (collect_references identity (references_of image) images_list)

unfoldable pub list_images : RuntimeIdentity → Option (List ListedImage) → List String
list_images identity none = []
list_images identity (some images) = sorted_texts (collect_images identity images [])

abbrev pub running_filters : RuntimeIdentity → List String
running_filters identity =
    "ctfd.plugin=docker_per_team"
    ∷ String.◌++◌ "ctfd.event_id=" identity.event_id
    ∷ String.◌++◌ "ctfd.target_id=" identity.target_id
    ∷ []

-- `netloc_ok` stands for `urlsplit`.
module _ {D : Type 0} (floats : Floats) (netloc_ok : String → Bool) (dock : Docker D) where
  -- `get_running_container_ids`
  unfoldable pub get_running_container_ids_steps : Action D (List String)
  get_running_container_ids_steps = do
    m ← get_manager
    ids ← call (dock.running (running_filters m.identity) "running")
    return (set_of ids)

  unfoldable pub get_running_container_ids : Action D (List String)
  get_running_container_ids = run_command floats netloc_ok dock get_running_container_ids_steps

  -- `get_images`
  unfoldable pub get_images_steps : Action D (List String)
  get_images_steps = do
    images ← call dock.images
    m ← get_manager
    return (list_images m.identity images)

  unfoldable pub get_images : Action D (List String)
  get_images = run_command floats netloc_ok dock get_images_steps
