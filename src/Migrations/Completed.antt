-- ===== src/Migrations/Completed.antt =====
-- Adding the missing names to a dict, as the upgrades do.
use ctf_plugin_docker_per_te.Prelude.{
  or_else, ◌≡◌, refl, sym, ap, ◌∙◌, inl, inr, String, Bool, true, false, not, ◌&&◌, ◌==◌, Option,
  none, some, [], ◌∷◌, ◌++◌, Dict, get, All, Bool-cases, Option-cases, eq_iff, arith, if◌then◌else◌,
}
use ctf_plugin_docker_per_te.Result.{ok}
use ctf_plugin_docker_per_te.Migrations.{Op, IsOp, has, create_missing}

module _ {V : Type 0} where
  -- The dict with the missing names at its end.
  abbrev pub completed : Dict V → Dict V → Dict V
  completed [] d = d
  completed ((name, v) ∷ wanted) d =
      completed wanted (if has d name then d else d ++ (name, v) ∷ [])

  -- No name stands in the dict twice.
  abbrev pub distinct : Dict V → Bool
  distinct [] = true
  distinct ((name, v) ∷ d) = not (has d name) && distinct d

  get-append :
      (d e : Dict V) (name : String) → get (d ++ e) name ≡ or_else (get d name) (get e name)
  get-append [] e name = refl
  get-append ((k, v) ∷ d) e name = elim (Bool-cases (k == name)) [
    | inl same ↦ rw same refl
    | inr other ↦ rw other (get-append d e name)
  ]

  or_else-none : (o : Option V) → or_else o none ≡ o
  or_else-none none = refl
  or_else-none (some v) = refl

  -- An entry that is there stays, and of those wanted the missing ones are added.
  pub get-completed :
      (wanted d : Dict V) (name : String)
      → get (completed wanted d) name ≡ or_else (get d name) (get wanted name)
  get-completed [] d name = sym (or_else-none (get d name))
  get-completed ((k, v) ∷ wanted) d name = elim (Option-cases (get d k)) [
    | inl new ↦ elim (Bool-cases (k == name)) [
      | inl same ↦
          let absent : get d name ≡ none = ap (get d) (sym ((eq_iff k name).0 same)) ∙ new in
          rw new (
            get-completed wanted (d ++ (k, v) ∷ []) name
            ∙ rw (get-append d ((k, v) ∷ []) name, same, absent) refl)
      | inr other ↦ rw new (
          get-completed wanted (d ++ (k, v) ∷ []) name
          ∙ rw (get-append d ((k, v) ∷ []) name, other, or_else-none (get d name)) refl)
    ]
    | inr (found, there) ↦ elim (Bool-cases (k == name)) [
      | inl same ↦
          let present : get d name ≡ some found =
            ap (get d) (sym ((eq_iff k name).0 same)) ∙ there in
          rw there (get-completed wanted d name ∙ rw (same, present) refl)
      | inr other ↦ rw (there, other) (get-completed wanted d name)
    ]
  ]

  has-append :
      (d : Dict V) (k name : String) (v : V)
      → (k == name) ≡ false
      → has (d ++ (name, v) ∷ []) k ≡ has d k
  has-append d k name v other =
      let other' : (name == k) ≡ false = ground (arith, eq_iff k name, eq_iff name k) in
      rw (get-append d ((name, v) ∷ []) k, other', or_else-none (get d k)) refl

  -- A new name changes nothing for the other ones.
  others_alike :
      (seen d wanted : Dict V) (name : String) (v : V)
      → has wanted name ≡ false
      → All (λ (entry : String × V). has d entry.0 ≡ has seen entry.0) wanted
      → All (λ (entry : String × V). has (d ++ (name, v) ∷ []) entry.0 ≡ has seen entry.0) wanted
  others_alike seen d [] name v h k = tt
  others_alike seen d ((k', w) ∷ wanted) name v h (k, ks) = elim (Bool-cases (k' == name)) [
    | inl same ↦ absurd (ground (arith, h, same))
    | inr other ↦
        (has-append d k' name v other ∙ k, others_alike seen d wanted name v (rw other at h) ks)
  ]

module _ (op : Op) (is_op : IsOp op) {V : Type 0} where
  create_missing-completed :
      (seen wanted d : Dict V)
      → distinct wanted ≡ true
      → All (λ (entry : String × V). has d entry.0 ≡ has seen entry.0) wanted
      → create_missing op seen wanted d ≡ ok (completed wanted d)
  create_missing-completed seen [] d h k = refl
  create_missing-completed seen ((name, v) ∷ wanted) d h (k, ks) =
      elim (Bool-cases (has seen name)) [
        | inl there ↦ rw (k, there) (create_missing-completed seen wanted d (ground arith) ks)
        | inr new ↦
            rw (k, new, is_op.created V name v d (k ∙ new))
              (create_missing-completed seen wanted (d ++ (name, v) ∷ []) (ground arith)
                (others_alike seen d wanted name v (ground arith) ks))
      ]

  completed-again :
      (wanted d : Dict V)
      → All (λ (entry : String × V). has d entry.0 ≡ true) wanted
      → completed wanted d ≡ d
  completed-again [] d h = refl
  completed-again ((name, v) ∷ wanted) d (h, hs) = rw h (completed-again wanted d hs)

  has-completed :
      (wanted d : Dict V) (name : String)
      → has wanted name ≡ true
      → has (completed wanted d) name ≡ true
  has-completed wanted d name h = elim (Option-cases (get d name)) [
    | inl new ↦ rw (get-completed wanted d name, new) h
    | inr (found, there) ↦ rw (get-completed wanted d name, there) refl
  ]

  all_there :
      (rest wanted d : Dict V)
      → All (λ (entry : String × V). has wanted entry.0 ≡ true) rest
      → All (λ (entry : String × V). has (completed wanted d) entry.0 ≡ true) rest
  all_there [] wanted d h = tt
  all_there ((name, v) ∷ rest) wanted d (h, hs) =
      (has-completed wanted d name h, all_there rest wanted d hs)

  alike : (d wanted : Dict V) → All (λ (entry : String × V). has d entry.0 ≡ has d entry.0) wanted
  alike d [] = tt
  alike d (entry ∷ wanted) = (refl, alike d wanted)

  pub completing :
      (wanted d : Dict V)
      → distinct wanted ≡ true
      → create_missing op d wanted d ≡ ok (completed wanted d)
  completing wanted d h = create_missing-completed d wanted d h (alike d wanted)

  -- A second run finds every name.
  pub completing_again :
      (wanted d : Dict V)
      → distinct wanted ≡ true
      → All (λ (entry : String × V). has wanted entry.0 ≡ true) wanted
      → create_missing op (completed wanted d) wanted (completed wanted d) ≡ ok (completed wanted d)
  completing_again wanted d h k =
      completing wanted (completed wanted d) h
      ∙ ap ok (completed-again wanted (completed wanted d) (all_there wanted wanted d k))
