-- ===== src/Admin/Positive.antt =====
-- admin_routes.py: the checks of the required and the whole-number settings, and what the policy
-- reads of them.
use ctf_plugin_docker_per_te.Prelude.{
  ℕ, ◌<◌, ◌≡◌, refl, sym, ap, ◌∙◌, String, Option, none, some, List, [], ◌∷◌, All, get, lt→ltb,
  arith,
}
use ctf_plugin_docker_per_te.Text.{is_empty}
use ctf_plugin_docker_per_te.Text.Numbers.{ℤ, pos, negsuc, int}
use ctf_plugin_docker_per_te.Result.{Result, ok, bind-eq-ok, raise_if_passes}
use ctf_plugin_docker_per_te.Policy.Hardening.{Settings, positive_int}
use ctf_plugin_docker_per_te.Admin.{
  SettingsError, default_text, field_text, each_field, check_required, check_integer, positive_or,
}

pub each_field-All :
    (check : String → Result SettingsError Unit) (fields : List String)
    → each_field check fields ≡ ok tt
    → All (λ field. check field ≡ ok tt) fields
each_field-All check [] h = tt
each_field-All check (field ∷ fields) h =
    let (u, here, later) = bind-eq-ok (check field) (λ _. each_field check fields) h in
    (here, each_field-All check fields later)

positive_or-inv :
    (field : String) (found : Option ℤ)
    → positive_or field found ≡ ok tt
    → (n : ℕ) × (0 < n) × (found ≡ some (pos n))
positive_or-inv field none h = cc h
positive_or-inv field (some (pos n)) h = (n, ground arith, refl)
positive_or-inv field (some (negsuc n)) h = cc h

-- A setting that the policy reads as a positive number, whatever its default.
abbrev pub ReadsPositive : Settings → String → Type 0
ReadsPositive payload key =
    (n : ℕ) × (0 < n)
    × (int (field_text payload key) ≡ some (pos n))
    × ((default : ℕ) → positive_int payload key default ≡ ok n)

module _ (payload : Settings) (key : String) (value : String)
    (stored : get payload key ≡ some (some value)) where
  pub reads_positive :
      check_required payload key ≡ ok tt
      → check_integer payload key ≡ ok tt
      → ReadsPositive payload key
  unfolding positive_int
  reads_positive required whole =
      let filled = raise_if_passes (is_empty (field_text payload key)) _ required in
      let (n, positive, e) =
        positive_or-inv key (int (field_text payload key)) (rw filled at whole) in
      let value_lem : int value ≡ some (pos n) =
        ap (λ found. int (default_text found)) (sym stored) ∙ e in
      (n, positive, e, λ default. rw (stored, value_lem, lt→ltb 0 n positive) refl)
