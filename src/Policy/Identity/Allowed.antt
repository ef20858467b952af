-- ===== src/Policy/Identity/Allowed.antt =====
-- Which identities `RuntimeIdentity.from_environment` accepts, said without its code.
use Prim.Native.String.{◌++◌}
use text.Mathlib.TextLemmas.{cons-append, nil-append}
use ctf_plugin_docker_per_te.Prelude.{
  String, Char, ◌≡◌, ◌≢◌, refl, sym, ap, ◌∙◌, ◌↔◌, ◌⊎◌, inl, inr, Bool, true, false, not, ◌&&◌,
  ◌==◌, eq_iff, Dict, one_of, OneOf, one_of_sound, one_of_complete, arith, Bool-cases,
}
use ctf_plugin_docker_per_te.Text.{lower, starts_with, ends_with, any_char, is_space}
use ctf_plugin_docker_per_te.Text.Laws.{starts_with-eq, starts_with-append, same_char-eq}
use ctf_plugin_docker_per_te.Regex.{fullmatch, codes}
use ctf_plugin_docker_per_te.Regex.Language.{Matches, fullmatch_iff}
use ctf_plugin_docker_per_te.Result.{ok, raise_if-passes}
use ctf_plugin_docker_per_te.Policy.Forms.{
  identity_pattern, network_pattern, event_network_prefix, is_ipv4, is_bad_prefix, starts_badly,
}
use ctf_plugin_docker_per_te.Policy.Identity.{
  RuntimeIdentity, target_ids, non_release_ids, egress_policies, egress_enforced_target_ids,
  stripped_value, validate_identity_component, validate_values,
}

-- An identity that may own containers.
pub record IsAllowed (v : RuntimeIdentity) : Type 0 where
  pub event : Matches identity_pattern (codes v.event_id)
  pub release : Matches identity_pattern (codes v.release_id)
  pub target : OneOf v.target_id target_ids
  pub final_release : (v.target_id ≢ "production") ⊎ (¬ OneOf v.release_id non_release_ids)
  pub network : Matches network_pattern (codes v.challenge_network)
  pub namespaced :
      (rest : String) × (lower v.challenge_network ≡ event_network_prefix v.event_id ++ rest)
  pub prefix_slash : (front : String) × (v.image_prefix ≡ front ++ "/")
  pub prefix_solid : any_char is_space v.image_prefix ≡ false
  pub prefix_start : starts_badly v.image_prefix ≡ false
  pub egress : OneOf v.egress_policy egress_policies
  pub enforced : (v.target_id ≡ "local") ⊎ (v.egress_policy ≡ "worker-firewall-default-deny")
  pub bind_ip : is_ipv4 v.challenge_bind_ip ≡ true

-- Every field is the stripped value of its variable.
pub record IsFrom (environment : Dict String) (v : RuntimeIdentity) : Type 0 where
  pub event : stripped_value environment "CTF_EVENT_ID" ≡ v.event_id
  pub release : stripped_value environment "CTF_RELEASE_ID" ≡ v.release_id
  pub target : stripped_value environment "CTF_TARGET_ID" ≡ v.target_id
  pub network : stripped_value environment "CTF_CHALLENGE_NETWORK" ≡ v.challenge_network
  pub image_prefix : stripped_value environment "CTF_IMAGE_PREFIX" ≡ v.image_prefix
  pub egress : stripped_value environment "CTF_EGRESS_POLICY" ≡ v.egress_policy
  pub bind_ip : stripped_value environment "CTF_CHALLENGE_BIND_IP" ≡ v.challenge_bind_ip

ends_with-eq :
    (last : Char) (s : String)
    → ends_with last s ≡ true
    → (front : String) × (s ≡ front ++ (String.◌∷◌ last ""))
ends_with-eq last String.[] h = cc h
ends_with-eq last (String.◌∷◌ c String.[]) h =
    ("", ap (λ d. String.◌∷◌ d "") (same_char-eq c last h) ∙ sym (nil-append _))
ends_with-eq last (String.◌∷◌ c (String.◌∷◌ d s)) h =
    let (front, e) = ends_with-eq last (String.◌∷◌ d s) h in
    (String.◌∷◌ c front, ap (String.◌∷◌ c) e ∙ sym (cons-append c front _))

ends_with-cons :
    (last c : Char) (s : String) → ends_with last s ≡ true → ends_with last (String.◌∷◌ c s) ≡ true
ends_with-cons last c String.[] h = cc h
ends_with-cons last c (String.◌∷◌ d s) h = h

ends_with-append :
    (last : Char) (front : String) → ends_with last (front ++ String.◌∷◌ last "") ≡ true
ends_with-append last String.[] = rw nil-append (ground arith)
ends_with-append last (String.◌∷◌ c s) =
    rw cons-append (ends_with-cons last c (s ++ String.◌∷◌ last "") (ends_with-append last s))

negated : (b : Bool) → not b ≡ false → b ≡ true
negated b h = ground arith

is_bad_prefix_iff :
    (s : String)
    → (is_bad_prefix s ≡ false)
      ↔ ((any_char is_space s ≡ false) × (starts_badly s ≡ false) × (ends_with "/" s ≡ true))
unfolding is_bad_prefix
is_bad_prefix_iff s = (λ h. ground arith, λ h. ground arith)

-- The two tests on the target, as statements.
final_release_sound :
    (target release : String)
    → (target == "production" && one_of release non_release_ids) ≡ false
    → (target ≢ "production") ⊎ (¬ OneOf release non_release_ids)
final_release_sound target release h = elim (Bool-cases (target == "production")) [
  | inl production ↦
      inr λ named. cc (rw (production, one_of_complete release non_release_ids named) at h)
  | inr other ↦ inl λ e. cc ((eq_iff target "production").1 e, other)
]

enforced_sound :
    (target policy : String)
    → OneOf target target_ids
    → (one_of target egress_enforced_target_ids && not (policy == "worker-firewall-default-deny"))
      ≡ false
    → (target ≡ "local") ⊎ (policy ≡ "worker-firewall-default-deny")
enforced_sound target policy (inl local) h = inl local
enforced_sound target policy (inr (inl staging)) h =
    inr (ground (arith, eq_iff target "staging", eq_iff policy "worker-firewall-default-deny"))
enforced_sound target policy (inr (inr (inl production))) h =
    inr (ground (arith, eq_iff target "production", eq_iff policy "worker-firewall-default-deny"))
enforced_sound target policy (inr (inr (inr none_left))) h = absurd none_left

final_release_complete :
    (target release : String)
    → (target ≢ "production") ⊎ (¬ OneOf release non_release_ids)
    → (target == "production" && one_of release non_release_ids) ≡ false
final_release_complete target release (inl other) = ground (arith, eq_iff target "production")
final_release_complete target release (inr final) =
    elim (Bool-cases (one_of release non_release_ids)) [
      | inl named ↦ absurd (final (one_of_sound release non_release_ids named))
      | inr fresh ↦ rw fresh (ground arith)
    ]

enforced_complete :
    (target policy : String)
    → (target ≡ "local") ⊎ (policy ≡ "worker-firewall-default-deny")
    → (one_of target egress_enforced_target_ids && not (policy == "worker-firewall-default-deny"))
      ≡ false
enforced_complete target policy (inl local) = rw local
enforced_complete target policy (inr deny) = rw deny (ground arith)

known_target :
    (target : String) → OneOf target target_ids → fullmatch identity_pattern target ≡ true
unfolding fullmatch
known_target target (inl local) = rw local
known_target target (inr (inl staging)) = rw staging
known_target target (inr (inr (inl production))) = rw production
known_target target (inr (inr (inr none_left))) = absurd none_left

starts_with_complete : (s prefix rest : String) → s ≡ prefix ++ rest → starts_with s prefix ≡ true
starts_with_complete s prefix rest e = rw e (starts_with-append prefix rest)

ends_with_complete : (s front : String) → s ≡ front ++ "/" → ends_with "/" s ≡ true
ends_with_complete s front e = rw e (ends_with-append "/" front)

module _ (is_ipv6 : String → Bool) where
  pub validate_values_sound :
      (v w : RuntimeIdentity) → validate_values is_ipv6 v ≡ ok w → (v ≡ w) × IsAllowed v
  unfolding validate_values validate_identity_component
  validate_values_sound v w h0 =
      let (event, h1) = raise_if-passes _ _ _ h0 in
      let (release, h2) = raise_if-passes _ _ _ h1 in
      let (_, h3) = raise_if-passes _ _ _ h2 in
      let (target, h4) = raise_if-passes _ _ _ h3 in
      let (final, h5) = raise_if-passes _ _ _ h4 in
      let (network, h6) = raise_if-passes _ _ _ h5 in
      let (namespaced, h7) = raise_if-passes _ _ _ h6 in
      let (prefix, h8) = raise_if-passes _ _ _ h7 in
      let (egress, h9) = raise_if-passes _ _ _ h8 in
      let (enforced, h10) = raise_if-passes _ _ _ h9 in
      let (_, h11) =
        raise_if-passes (not (is_ipv4 v.challenge_bind_ip) && not (is_ipv6 v.challenge_bind_ip)) _ _
          h10 in
      let (bind_ip, h12) = raise_if-passes _ _ _ h11 in
      let known = one_of_sound v.target_id target_ids (negated _ target) in
      (
        cc h12,
        record {
          event = (fullmatch_iff _ _).0 (negated _ event);
          release = (fullmatch_iff _ _).0 (negated _ release);
          target = known;
          final_release = final_release_sound v.target_id v.release_id final;
          network = (fullmatch_iff _ _).0 (negated _ network);
          namespaced = starts_with-eq _ _ (negated _ namespaced);
          prefix_slash = ends_with-eq _ _ ((is_bad_prefix_iff _).0 prefix).2;
          prefix_solid = ((is_bad_prefix_iff _).0 prefix).0;
          prefix_start = ((is_bad_prefix_iff _).0 prefix).1;
          egress = one_of_sound v.egress_policy egress_policies (negated _ egress);
          enforced = enforced_sound v.target_id v.egress_policy known enforced;
          bind_ip = negated _ bind_ip;
        },
      )

  pub validate_values_complete :
      (v : RuntimeIdentity) → IsAllowed v → validate_values is_ipv6 v ≡ ok v
  unfolding validate_values validate_identity_component
  validate_values_complete v a =
      let bad_prefix = (is_bad_prefix_iff v.image_prefix).1 (
        a.prefix_solid,
        a.prefix_start,
        ends_with_complete v.image_prefix a.prefix_slash.0 a.prefix_slash.1,
      ) in
      rw
        (
          (fullmatch_iff _ _).1 a.event,
          (fullmatch_iff _ _).1 a.release,
          known_target v.target_id a.target,
          one_of_complete v.target_id target_ids a.target,
          final_release_complete v.target_id v.release_id a.final_release,
          (fullmatch_iff _ _).1 a.network,
          starts_with_complete (lower v.challenge_network) (event_network_prefix v.event_id)
              a.namespaced.0 a.namespaced.1,
          bad_prefix,
          one_of_complete v.egress_policy egress_policies a.egress,
          enforced_complete v.target_id v.egress_policy a.enforced,
          a.bind_ip,
        )
        refl
