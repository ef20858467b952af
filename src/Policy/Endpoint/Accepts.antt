-- ===== src/Policy/Endpoint/Accepts.antt =====
-- Which Docker workers `validate_docker_endpoint` accepts.
use Prim.Native.String.{◌++◌}
use text.Mathlib.TextLemmas.{cons-append, nil-append}
use ctf_plugin_docker_per_te.Prelude.{
  String, ◌≡◌, refl, sym, ap, ◌∙◌, ◌⊎◌, inl, inr, Bool, true, false, ◌==◌, eq_iff, Option, OneOf,
  one_of, one_of_complete, arith, Bool-cases,
}
use ctf_plugin_docker_per_te.Text.{strip, starts_with, is_empty, or_empty, drop_prefix}
use ctf_plugin_docker_per_te.Text.Laws.{starts_with-eq}
use ctf_plugin_docker_per_te.Result.{ok, raise_if-passes}
use ctf_plugin_docker_per_te.Policy.Identity.{RuntimeIdentity, egress_enforced_target_ids}
use ctf_plugin_docker_per_te.Policy.Endpoint.{
  Url, split_url, is_malformed, validate_ssh_endpoint, validate_docker_endpoint,
}

-- A login by key: a user and a host, and nothing else.
pub record IsKeyLogin (url : Url) : Type 0 where
  pub host : is_empty url.hostname ≡ false
  pub user : is_empty url.username ≡ false
  pub no_password : is_empty url.password ≡ true
  pub no_query : is_empty url.query ≡ true
  pub no_fragment : is_empty url.fragment ≡ true
  pub no_path : (url.path ≡ "") ⊎ (url.path ≡ "/")

empty-eq : (s : String) → is_empty s ≡ true → s ≡ ""
empty-eq String.[] h = refl
empty-eq (String.◌∷◌ c s) h = cc h

well_formed : (url : Url) → is_malformed url ≡ false → IsKeyLogin url
unfolding is_malformed
well_formed url h = record {
  host = ground arith;
  user = ground arith;
  no_password = ground arith;
  no_query = ground arith;
  no_fragment = ground arith;
  no_path = elim (Bool-cases (is_empty url.path)) [
    | inl nothing ↦ inl (empty-eq url.path nothing)
    | inr something ↦ inr ((eq_iff url.path "/").0 (ground arith))
  ];
}

pub drop_prefix-append : (prefix rest : String) → drop_prefix (prefix ++ rest) prefix ≡ rest
drop_prefix-append String.[] rest = nil-append rest
drop_prefix-append (String.◌∷◌ c prefix) rest = rw cons-append (drop_prefix-append prefix rest)

module _ (netloc_ok : String → Bool) where
  ssh_sound :
      (endpoint e : String)
      → validate_ssh_endpoint netloc_ok endpoint ≡ ok e
      → IsKeyLogin (split_url (drop_prefix endpoint "ssh://"))
  unfolding validate_ssh_endpoint
  ssh_sound endpoint e h0 =
      let (_, h1) = raise_if-passes _ _ _ h0 in
      let (formed, _) = raise_if-passes _ _ _ h1 in well_formed _ formed

  ssh_same : (endpoint e : String) → validate_ssh_endpoint netloc_ok endpoint ≡ ok e → endpoint ≡ e
  unfolding validate_ssh_endpoint
  ssh_same endpoint e h = ground arith

  enforced_branch :
      (value : Option String) (identity : RuntimeIdentity) (e : String)
      → one_of identity.target_id egress_enforced_target_ids ≡ true
      → (identity.target_id == "local") ≡ false
      → validate_docker_endpoint netloc_ok value identity ≡ ok e
      → (starts_with (strip (or_empty value)) "ssh://" ≡ true)
        × (validate_ssh_endpoint netloc_ok (strip (or_empty value)) ≡ ok e)
  unfolding validate_docker_endpoint
  enforced_branch value identity e enforced remote h = ground arith

enforced_target :
    (target : String) → OneOf target egress_enforced_target_ids → (target == "local") ≡ false
enforced_target target (inl staging) = rw staging
enforced_target target (inr (inl production)) = rw production
enforced_target target (inr (inr none_left)) = absurd none_left

-- On staging and production every accepted endpoint is `ssh://` and a login by key: a user and a
-- host, with no password, query, fragment or path. Neither a local socket nor plain TCP passes.
pub enforced_endpoint :
    (netloc_ok : String → Bool) (value : Option String) (identity : RuntimeIdentity) (e : String)
    → OneOf identity.target_id egress_enforced_target_ids
    → validate_docker_endpoint netloc_ok value identity ≡ ok e
    → (rest : String) × (e ≡ "ssh://" ++ rest) × IsKeyLogin (split_url rest)
enforced_endpoint netloc_ok value identity e enforced h =
    let (ssh, valid) =
      enforced_branch netloc_ok value identity e
        (one_of_complete identity.target_id egress_enforced_target_ids enforced)
        (enforced_target identity.target_id enforced) h in
    let (rest, whole) = starts_with-eq _ "ssh://" ssh in
    let behind : drop_prefix (strip (or_empty value)) "ssh://" ≡ rest =
      ap (λ s. drop_prefix s "ssh://") whole ∙ drop_prefix-append "ssh://" rest in
    (rest, sym (ssh_same netloc_ok _ e valid) ∙ whole, rw behind at (ssh_sound netloc_ok _ e valid))
