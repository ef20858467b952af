-- ===== src/Policy/Network/Accepts.antt =====
-- Which Docker networks `validate_challenge_network_attributes` accepts.
use ctf_plugin_docker_per_te.Prelude.{
  String, ◌≡◌, refl, ap, ◌↔◌, Bool, true, false, not, eq_iff, Option, none, some, Dict, get, arith,
}
use ctf_plugin_docker_per_te.Text.{lower, or_empty}
use ctf_plugin_docker_per_te.Result.{ok, raise_if-passes, raise_if_passes}
use ctf_plugin_docker_per_te.Policy.Identity.{RuntimeIdentity}
use ctf_plugin_docker_per_te.Policy.Network.{
  NetworkAttrs, equals, is_false, disables_icc, icc_key, validate_network_labels,
  validate_challenge_network_attributes,
}

-- A bridge of the event, not internal, on which containers do not reach one another.
pub record IsEventNetwork (attrs : NetworkAttrs) (identity : RuntimeIdentity) : Type 0 where
  pub name : attrs.name ≡ some identity.challenge_network
  pub driver : attrs.driver ≡ some "bridge"
  pub internal : attrs.internal ≡ some false
  pub isolated :
      (options : Dict String) × (attrs.options ≡ some options)
      × (lower (or_empty (get options icc_key)) ≡ "false")
  pub labelled :
      (labels : Dict String) × (attrs.labels ≡ some labels)
      × (get labels "ctfd.event_id" ≡ some identity.event_id)
      × (get labels "ctfd.network_role" ≡ some "challenge")
      × (get labels "ctfd.egress_policy" ≡ some identity.egress_policy)

negated : (b : Bool) → not b ≡ false → b ≡ true
negated b h = ground arith

equals_iff :
    (found : Option String) (value : String) → (equals found value ≡ true) ↔ (found ≡ some value)
equals_iff none value = ((λ h. cc h), λ e. cc e)
equals_iff (some v) value = ((λ h. ap some ((eq_iff v value).0 h)), λ e. (eq_iff v value).1 (cc e))

is_false_iff : (b : Option Bool) → (is_false b ≡ true) ↔ (b ≡ some false)
is_false_iff none = ((λ h. cc h), λ e. cc e)
is_false_iff (some true) = ((λ h. cc h), λ e. cc e)
is_false_iff (some false) = ((λ h. refl), λ e. refl)

disables_icc_iff :
    (found : Option (Dict String))
    → (disables_icc found ≡ true) ↔ (
        (options : Dict String) × (found ≡ some options)
        × (lower (or_empty (get options icc_key)) ≡ "false"))
disables_icc_iff none = ((λ h. cc h), λ (options, e, _). cc e)
disables_icc_iff (some o) = (
  (λ h. (o, refl, (eq_iff _ _).0 h)),
  λ (options, e, off). let same : o ≡ options = cc e in (eq_iff _ _).1 (rw same off),
)

-- The labels of an event's challenge network.
abbrev IsLabelled : Option (Dict String) → RuntimeIdentity → Type 0
IsLabelled found identity =
    (labels : Dict String) × (found ≡ some labels)
    × (get labels "ctfd.event_id" ≡ some identity.event_id)
    × (get labels "ctfd.network_role" ≡ some "challenge")
    × (get labels "ctfd.egress_policy" ≡ some identity.egress_policy)

labels_sound :
    (found : Option (Dict String)) (identity : RuntimeIdentity)
    → validate_network_labels found identity ≡ ok tt
    → IsLabelled found identity
unfolding validate_network_labels
labels_sound none identity h = cc h
labels_sound (some labels) identity h0 =
    let (event, h1) = raise_if-passes _ _ _ h0 in
    let (role, h2) = raise_if-passes _ _ _ h1 in
    (
      labels,
      refl,
      (equals_iff _ _).0 (negated _ event),
      (equals_iff _ _).0 (negated _ role),
      (equals_iff _ _).0 (negated _ (raise_if_passes _ _ h2)),
    )

labels_complete :
    (found : Option (Dict String)) (identity : RuntimeIdentity)
    → IsLabelled found identity
    → validate_network_labels found identity ≡ ok tt
unfolding validate_network_labels
labels_complete found identity (labels, there, event, role, egress) =
    rw
      (
        there,
        validate_network_labels,
        (equals_iff _ _).1 event,
        (equals_iff _ _).1 role,
        (equals_iff _ _).1 egress,
      )
      refl

module _ (attrs : NetworkAttrs) (identity : RuntimeIdentity) where
  network_sound :
      validate_challenge_network_attributes attrs identity ≡ ok tt → IsEventNetwork attrs identity
  unfolding validate_challenge_network_attributes
  network_sound h0 =
      let (name, h1) = raise_if-passes _ _ _ h0 in
      let (driver, h2) = raise_if-passes _ _ _ h1 in
      let (internal, h3) = raise_if-passes _ _ _ h2 in
      let (isolated, h4) = raise_if-passes _ _ _ h3 in
      record {
        name = (equals_iff _ _).0 (negated _ name);
        driver = (equals_iff _ _).0 (negated _ driver);
        internal = (is_false_iff _).0 (negated _ internal);
        isolated = (disables_icc_iff _).0 (negated _ isolated);
        labelled = labels_sound attrs.labels identity h4;
      }

  network_complete :
      IsEventNetwork attrs identity → validate_challenge_network_attributes attrs identity ≡ ok tt
  unfolding validate_challenge_network_attributes
  network_complete n =
      rw
        (
          (equals_iff _ _).1 n.name,
          (equals_iff _ _).1 n.driver,
          (is_false_iff _).1 n.internal,
          (disables_icc_iff _).1 n.isolated,
          labels_complete attrs.labels identity n.labelled,
        )
        refl

-- A network passes exactly if it is the configured bridge, not internal, without communication
-- between containers, and labelled with the event, the role and the egress policy of the process.
pub validate_challenge_network_iff :
    (attrs : NetworkAttrs) (identity : RuntimeIdentity)
    → (validate_challenge_network_attributes attrs identity ≡ ok tt) ↔ IsEventNetwork attrs identity
validate_challenge_network_iff attrs identity =
    (network_sound attrs identity, network_complete attrs identity)
