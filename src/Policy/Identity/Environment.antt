-- ===== src/Policy/Identity/Environment.antt =====
-- `RuntimeIdentity.from_environment` as a whole: from the variables to the identity.
use Prim.Native.String
use text.Mathlib.TextLemmas.{cons-append}
use ctf_plugin_docker_per_te.Prelude.{
  String, ◌≡◌, refl, sym, ◌∙◌, ◌↔◌, Bool, true, false, Dict, inl, inr, OneOf,
}
use ctf_plugin_docker_per_te.Text.{is_empty}
use ctf_plugin_docker_per_te.Regex.{Regex, fullmatch, codes}
use ctf_plugin_docker_per_te.Regex.Language.{Matches, fullmatch_iff}
use ctf_plugin_docker_per_te.Result.{ok, raise_if-passes, bind-eq-ok}
use ctf_plugin_docker_per_te.Policy.Errors.{required}
use ctf_plugin_docker_per_te.Policy.Forms.{identity_pattern, network_pattern, is_ipv4}
use ctf_plugin_docker_per_te.Policy.Identity.{
  RuntimeIdentity, egress_policies, target_ids, stripped_value, required_value, required_values,
  from_environment,
}
use ctf_plugin_docker_per_te.Policy.Identity.Allowed.{
  IsAllowed, IsFrom, validate_values_sound, validate_values_complete,
}

module _ (environment : Dict String) where
  required_value_sound :
      (name value : String)
      → required_value environment name ≡ ok value
      → stripped_value environment name ≡ value
  unfolding required_value
  required_value_sound name value h =
      let (_, e) =
        raise_if-passes (is_empty (stripped_value environment name)) (required name) _ h in
      cc e

  required_value_complete :
      (name value : String)
      → stripped_value environment name ≡ value
      → is_empty value ≡ false
      → required_value environment name ≡ ok value
  unfolding required_value
  required_value_complete name value e filled = rw (e, filled)

  required_values-IsFrom :
      (v : RuntimeIdentity) → required_values environment ≡ ok v → IsFrom environment v
  unfolding required_values
  required_values-IsFrom v h0 =
      let (event, e1, h1) = bind-eq-ok _ _ h0 in
      let (release, e2, h2) = bind-eq-ok _ _ h1 in
      let (target, e3, h3) = bind-eq-ok _ _ h2 in
      let (network, e4, h4) = bind-eq-ok _ _ h3 in
      let (image_prefix, e5, h5) = bind-eq-ok _ _ h4 in
      let (egress, e6, h6) = bind-eq-ok _ _ h5 in
      let (bind_ip, e7, h7) = bind-eq-ok _ _ h6 in
      record {
        event = required_value_sound _ event e1 ∙ cc h7;
        release = required_value_sound _ release e2 ∙ cc h7;
        target = required_value_sound _ target e3 ∙ cc h7;
        network = required_value_sound _ network e4 ∙ cc h7;
        image_prefix = required_value_sound _ image_prefix e5 ∙ cc h7;
        egress = required_value_sound _ egress e6 ∙ cc h7;
        bind_ip = required_value_sound _ bind_ip e7 ∙ cc h7;
      }

-- What is allowed is not empty.
matched_is_filled :
    (r : Regex) (s : String) → fullmatch r "" ≡ false → Matches r (codes s) → is_empty s ≡ false
matched_is_filled r String.[] e m = sym ((fullmatch_iff r "").1 m) ∙ e
matched_is_filled r (String.◌∷◌ c s) e m = refl

listed_is_filled : (s t : String) → is_empty t ≡ false → s ≡ t → is_empty s ≡ false
listed_is_filled s t filled e = rw e filled

target_is_filled : (s : String) → OneOf s target_ids → is_empty s ≡ false
target_is_filled s (inl e) = rw e
target_is_filled s (inr (inl e)) = rw e
target_is_filled s (inr (inr (inl e))) = rw e
target_is_filled s (inr (inr (inr none_left))) = absurd none_left

egress_is_filled : (s : String) → OneOf s egress_policies → is_empty s ≡ false
egress_is_filled s (inl e) = rw e
egress_is_filled s (inr (inl e)) = rw e
egress_is_filled s (inr (inr none_left)) = absurd none_left

prefix_is_filled : (s front : String) → s ≡ String.◌++◌ front "/" → is_empty s ≡ false
prefix_is_filled s String.[] e = rw e
prefix_is_filled s (String.◌∷◌ c front) e = rw (e, cons-append)

bind_ip_is_filled : (s : String) → is_ipv4 s ≡ true → is_empty s ≡ false
unfolding is_ipv4
bind_ip_is_filled String.[] h = cc h
bind_ip_is_filled (String.◌∷◌ c s) h = refl

no_empty_identity : (fullmatch identity_pattern "" ≡ false) × (fullmatch network_pattern "" ≡ false)
unfolding fullmatch
no_empty_identity = (refl, refl)

module _ (environment : Dict String) (v : RuntimeIdentity) (a : IsAllowed v)
    (from : IsFrom environment v) where
  required_values_complete : required_values environment ≡ ok v
  unfolding required_values
  required_values_complete =
      rw
        (
          required_value_complete environment _ _ from.event
              (matched_is_filled _ _ no_empty_identity.0 a.event),
          required_value_complete environment _ _ from.release
              (matched_is_filled _ _ no_empty_identity.0 a.release),
          required_value_complete environment _ _ from.target
              (target_is_filled v.target_id a.target),
          required_value_complete environment _ _ from.network
              (matched_is_filled _ _ no_empty_identity.1 a.network),
          required_value_complete environment _ _ from.image_prefix
              (prefix_is_filled v.image_prefix a.prefix_slash.0 a.prefix_slash.1),
          required_value_complete environment _ _ from.egress
              (egress_is_filled v.egress_policy a.egress),
          required_value_complete environment _ _ from.bind_ip
              (bind_ip_is_filled v.challenge_bind_ip a.bind_ip),
        )
        refl

-- `from_environment` returns an identity exactly if the identity is allowed (each id an identifier,
-- the target known, no placeholder release in production, the network named after the event, the
-- prefix closed by a slash, the egress policy enforced off the local target, an IPv4 bind address)
-- and each field is the stripped value of its variable.
pub from_environment_iff :
    (is_ipv6 : String → Bool) (environment : Dict String) (v : RuntimeIdentity)
    → (from_environment is_ipv6 environment ≡ ok v) ↔ (IsFrom environment v × IsAllowed v)
unfolding from_environment
from_environment_iff is_ipv6 environment v = (
  λ h.
      let (w, found, valid) = bind-eq-ok _ _ h in
      let (same, allowed) = validate_values_sound is_ipv6 w v valid in
      (rw (← same) (required_values-IsFrom environment w found), rw (← same) allowed),
  λ (from, allowed).
      rw (required_values_complete environment v allowed from)
        (validate_values_complete is_ipv6 v allowed),
)
