-- ===== src/Policy/Identity/Ownership.antt =====
-- `labels` and `owns_labels`: a process knows its own containers, and no others.
use text.Mathlib.TextPositions.{eq_refl}
use ctf_plugin_docker_per_te.Prelude.{
  String, ◌≡◌, refl, ap, ◌∙◌, ◌↔◌, true, eq_iff, some, Dict, get, arith, Option-cases, inl, inr,
}
use ctf_plugin_docker_per_te.Policy.Identity.{RuntimeIdentity, labels, has_label, owns_labels}

has_label_iff :
    (given : Dict String) (key value : String)
    → (has_label given key value ≡ true) ↔ (get given key ≡ some value)
has_label_iff given key value = (
  λ h. elim (Option-cases (get given key)) [
    | inl missing ↦ cc (rw (missing, has_label) at h)
    | inr (v, found) ↦ found ∙ ap some ((eq_iff v value).0 (rw (found, has_label) at h))
  ],
  λ e. rw (e, has_label) (eq_refl value),
)

-- A container is owned exactly if its labels name the event and the target of the process.
pub owns_labels_iff :
    (self : RuntimeIdentity) (given : Dict String)
    → (owns_labels self given ≡ true) ↔ (
        (get given "ctfd.event_id" ≡ some self.event_id)
        × (get given "ctfd.target_id" ≡ some self.target_id))
unfolding owns_labels
owns_labels_iff self given = (
  λ h. (
    (has_label_iff given "ctfd.event_id" self.event_id).0 (ground arith),
    (has_label_iff given "ctfd.target_id" self.target_id).0 (ground arith),
  ),
  λ (event, target).
      rw
        (
          (has_label_iff given "ctfd.event_id" self.event_id).1 event,
          (has_label_iff given "ctfd.target_id" self.target_id).1 target,
        )
        refl,
)

-- One process owns the containers that another labelled exactly if both serve the same event and
-- target: two events, or two targets of one event, never act on each other's containers.
pub owns_labels-labels_iff :
    (self other : RuntimeIdentity)
    → (owns_labels self (labels other) ≡ true)
      ↔ ((other.event_id ≡ self.event_id) × (other.target_id ≡ self.target_id))
unfolding labels
owns_labels-labels_iff self other = (
  λ h. let (event, target) = (owns_labels_iff self (labels other)).0 h in (cc event, cc target),
  λ (event, target). (owns_labels_iff self (labels other)).1 (ap some event, ap some target),
)
