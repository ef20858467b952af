-- ===== src/ChallengeType/RoundTrip.antt =====
-- __init__.py: a stored payload that is sent back.
use ctf_plugin_docker_per_te.Prelude.{
  ◌≡◌, ◌≢◌, refl, sym, ap, ◌∙◌, subst, String, Bool, true, false, ◌==◌, inl, inr, Option, none,
  some, List, [], ◌∷◌, All, one_of, OneOf, one_of_sound, Dict, get, Bool-cases, eq_iff, Distinct,
}
use ctf_plugin_docker_per_te.Text.{strip, lower, is_space}
use ctf_plugin_docker_per_te.Text.Laws.{strip_idem}
use ctf_plugin_docker_per_te.Text.Numbers.{ℤ}
use ctf_plugin_docker_per_te.Result.{Result, ok, raise_if-passes, bind-eq-ok, ok_injective}
use ctf_plugin_docker_per_te.Policy.Hardening.{Settings}
use ctf_plugin_docker_per_te.Manager.Options.{Json}
use ctf_plugin_docker_per_te.ChallengeType.{
  Value, null, text, number, truth, other, PayloadError, str_of, stripped, text_or_empty,
  int_of_value, number_or, integer_fields, choice_fields, option_fields, normalize_value,
  normalize_items, is_allowed, raise_first, range_checks, normalize_challenge_payload,
}
use ctf_plugin_docker_per_te.ChallengeType.Ranges.{InRange, Given, Among, range_checks-InRange}
use ctf_plugin_docker_per_te.ChallengeType.Accepted.{Made, items-Made, accepted-parts}

strip-text_or_empty : (v : Value) → strip (text_or_empty v) ≡ text_or_empty v
unfolding strip
strip-text_or_empty null = refl
strip-text_or_empty (text s) = strip_idem s
strip-text_or_empty (number n) = strip_idem (str_of (number n))
strip-text_or_empty (truth b) = strip_idem (str_of (truth b))
strip-text_or_empty (other shown b i) = strip_idem shown

stripped_again : (v : Value) → stripped (stripped (stripped (stripped v))) ≡ stripped (stripped v)
stripped_again null = refl
stripped_again (text s) = ap text (strip_idem (strip (strip s)) ∙ strip_idem (strip s))
stripped_again (number n) = refl
stripped_again (truth b) = refl
stripped_again (other shown b i) = refl

-- A choice that is among those offered is in the form that the loop gives it.
Chosen : Value → Type 0
Chosen v = (s : String) × (v ≡ text s) × (lower (strip (strip s)) ≡ s)

module _ (attr : String) (v : Value) where
  value_again :
      (raw_value : Value)
      → normalize_value attr raw_value ≡ ok v
      → (one_of attr choice_fields ≡ true → Chosen v)
      → normalize_value attr v ≡ ok v
  unfolding normalize_value Chosen
  value_again raw_value made chosen = elim (Bool-cases (one_of attr integer_fields)) [
    | inl e ↦ rw e (numbers_again (int_of_value (stripped raw_value)) (rw e at made))
    | inr e ↦ elim (Bool-cases (one_of attr choice_fields)) [
      | inl f ↦ rw (e, f) (choice_again (chosen f))
      | inr f ↦ elim (Bool-cases (one_of attr option_fields)) [
        | inl g ↦ rw (e, f, g) (options_again raw_value (ok_injective (rw (e, f, g) at made)))
        | inr g ↦ rw (e, f, g) (others_again raw_value (ok_injective (rw (e, f, g) at made)))
      ]
    ]
  ]
    where
      numbers_again :
          (found : Option ℤ)
          → number_or attr found ≡ ok v
          → number_or attr (int_of_value (stripped v)) ≡ ok v
      numbers_again none h = cc h
      numbers_again (some n) h =
          subst (λ u. number_or attr (int_of_value (stripped u)) ≡ ok u) (ok_injective h) refl

      choice_again :
          Chosen v
          → ◌≡◌ {A = Result PayloadError Value}
              (ok (text (lower (strip (str_of (stripped v))))))
              (ok v)
      choice_again (s, is_text, same) =
          subst
            (λ u.
              ◌≡◌ {A = Result PayloadError Value} (ok (text (lower (strip (str_of (stripped u))))))
                (ok u))
            (sym is_text) (ap (λ t. ok (text t)) same)

      options_again :
          (raw_value : Value)
          → text (text_or_empty (stripped raw_value)) ≡ v
          → ◌≡◌ {A = Result PayloadError Value} (ok (text (text_or_empty (stripped v)))) (ok v)
      options_again raw_value h =
          subst
            (λ u.
              ◌≡◌ {A = Result PayloadError Value} (ok (text (text_or_empty (stripped u)))) (ok u))
            h
            (ap (λ t. ok (text t))
              (strip_idem (text_or_empty (stripped raw_value))
                ∙ strip-text_or_empty (stripped raw_value)))

      others_again :
          (raw_value : Value)
          → stripped (stripped raw_value) ≡ v
          → ◌≡◌ {A = Result PayloadError Value} (ok (stripped (stripped v))) (ok v)
      others_again raw_value h =
          subst (λ u. ◌≡◌ {A = Result PayloadError Value} (ok (stripped (stripped u))) (ok u)) h
            (ap ok (stripped_again raw_value))

-- The choices offered are in the form that the loop gives.
offered-Chosen : (v : Value) → Among ("tcp" ∷ "web" ∷ "static" ∷ "random" ∷ []) v → Chosen v
unfolding Chosen strip is_space lower
offered-Chosen v (s, is_text, inl e) = (s, is_text, rw e refl)
offered-Chosen v (s, is_text, inr (inl e)) = (s, is_text, rw e refl)
offered-Chosen v (s, is_text, inr (inr (inl e))) = (s, is_text, rw e refl)
offered-Chosen v (s, is_text, inr (inr (inr (inl e)))) = (s, is_text, rw e refl)
offered-Chosen v (s, is_text, inr (inr (inr (inr e)))) = absurd e

connection-Chosen : (v : Value) → Among ("tcp" ∷ "web" ∷ []) v → Chosen v
connection-Chosen v (s, is_text, inl e) = offered-Chosen v (s, is_text, inl e)
connection-Chosen v (s, is_text, inr (inl e)) = offered-Chosen v (s, is_text, inr (inl e))
connection-Chosen v (s, is_text, inr (inr e)) = absurd e

mode-Chosen : (v : Value) → Among ("static" ∷ "random" ∷ []) v → Chosen v
mode-Chosen v (s, is_text, inl e) = offered-Chosen v (s, is_text, inr (inr (inl e)))
mode-Chosen v (s, is_text, inr (inl e)) = offered-Chosen v (s, is_text, inr (inr (inr (inl e))))
mode-Chosen v (s, is_text, inr (inr e)) = absurd e

field-Chosen :
    (creation : Bool) (n : Dict Value) (attr : String) (v : Value)
    → InRange creation n
    → get n attr ≡ some v
    → OneOf attr choice_fields
    → Chosen v
field-Chosen creation n attr v ranges there (inl e) =
    connection-Chosen v (
      subst (Given (Among ("tcp" ∷ "web" ∷ []))) (ap (get n) (sym e) ∙ there)
        ranges.connection_type)
field-Chosen creation n attr v ranges there (inr (inl e)) =
    mode-Chosen v (
      subst (Given (Among ("static" ∷ "random" ∷ []))) (ap (get n) (sym e) ∙ there)
        ranges.flag_mode)
field-Chosen creation n attr v ranges there (inr (inr e)) = absurd e

-- Each entry of a dict is what the dict has under its key.
abbrev Found : Dict Value → String × Value → Type 0
Found n e = get n e.0 ≡ some e.1

entries-Found : (n : Dict Value) → Distinct n → All (Found n) n
entries-Found [] h = tt
entries-Found ((k, v) ∷ n) (fresh, h) =
    (rw ((eq_iff k k).1 refl) refl, behind n (entries-Found n h))
  where
    behind : (m : Dict Value) → All (Found n) m → All (Found ((k, v) ∷ n)) m
    behind [] all = tt
    behind (e ∷ m) (here, all) = (past e here, behind m all)
      where
        past : (e : String × Value) → Found n e → Found ((k, v) ∷ n) e
        past e here = elim (Bool-cases (k == e.0)) [
          | inl same ↦ cc (sym fresh ∙ ap (get n) ((eq_iff k e.0).0 same) ∙ here)
          | inr differ ↦ rw differ here
        ]

-- The required fields are looked for on creation only.
update_checks :
    (creation : Bool) (n : Dict Value)
    → raise_first (range_checks creation n) ≡ ok tt
    → raise_first (range_checks false n) ≡ ok tt
unfolding raise_first
update_checks creation n h = (raise_if-passes _ _ _ h).1

module _ (json : Json) (settings : Settings) (inherited : List String) where
  loop_again :
      (creation : Bool) (n m : Dict Value)
      → InRange creation n
      → All (Found n) m
      → All (Made json settings inherited) m
      → normalize_items json settings inherited m ≡ ok m
  unfolding normalize_items
  loop_again creation n [] ranges found made = refl
  loop_again creation n ((attr, v) ∷ m) ranges (there, found) ((fine, (raw_value, e)), made) = rw (
    fine,
    value_again attr v raw_value e (λ choice.
        field-Chosen creation n attr v ranges there (one_of_sound attr choice_fields choice)),
    loop_again creation n m ranges found made,
  )

  loop-absent :
      (items n : Dict Value) (key : String)
      → normalize_items json settings inherited items ≡ ok n
      → get items key ≡ none
      → get n key ≡ none
  unfolding normalize_items
  loop-absent [] [] key h absent = refl
  loop-absent [] (e ∷ n) key h absent = cc h
  loop-absent ((attr, raw_value) ∷ items) n key h absent =
      elim (Bool-cases (is_allowed json settings inherited attr)) [
        | inl fine ↦
            let (value, made, h1) = bind-eq-ok (normalize_value attr raw_value) _ (rw fine at h) in
            let (rest, others, h2) =
              bind-eq-ok (normalize_items json settings inherited items) _ h1 in
            subst (λ d. get d key ≡ none) (ok_injective h2)
              (elim (Bool-cases (attr == key)) [
                | inl same ↦ cc (rw same at absent)
                | inr differ ↦ rw differ (loop-absent items rest key others (rw differ at absent))
              ])
        | inr skipped ↦ loop-absent items n key (rw skipped at h) (elim (Bool-cases (attr == key)) [
          | inl same ↦ cc (rw same at absent)
          | inr differ ↦ rw differ at absent
        ])
      ]

  loop-Distinct :
      (items n : Dict Value)
      → normalize_items json settings inherited items ≡ ok n
      → Distinct items
      → Distinct n
  unfolding normalize_items
  loop-Distinct [] [] h distinct = tt
  loop-Distinct [] (e ∷ n) h distinct = cc h
  loop-Distinct ((attr, raw_value) ∷ items) n h (fresh, distinct) =
      elim (Bool-cases (is_allowed json settings inherited attr)) [
        | inl fine ↦
            let (value, made, h1) = bind-eq-ok (normalize_value attr raw_value) _ (rw fine at h) in
            let (rest, others, h2) =
              bind-eq-ok (normalize_items json settings inherited items) _ h1 in
            subst Distinct (ok_injective h2)
              (loop-absent items rest attr others fresh, loop-Distinct items rest others distinct)
        | inr skipped ↦ loop-Distinct items n (rw skipped at h) distinct
      ]

  -- What was accepted for a challenge, on creation or as a change, is accepted as a change again,
  -- and is then stored as it is: normalising it a second time changes nothing. The payload is a
  -- dict, without a key twice, and at least one of its columns is known.
  pub resubmitted :
      (creation : Bool) (items n : Dict Value)
      → Distinct items
      → n ≢ []
      → normalize_challenge_payload json settings inherited creation items ≡ ok n
      → normalize_challenge_payload json settings inherited false n ≡ ok n
  unfolding normalize_challenge_payload
  resubmitted creation items [] distinct filled h = absurd (filled refl)
  resubmitted creation items (e ∷ n) distinct filled h =
      let (loop, ranges, options) =
        accepted-parts json settings inherited creation items (e ∷ n) h in
      rw (
        loop_again creation (e ∷ n) (e ∷ n) (range_checks-InRange creation (e ∷ n) ranges)
            (entries-Found (e ∷ n) (loop-Distinct items (e ∷ n) loop distinct))
            (items-Made json settings inherited items (e ∷ n) loop),
        update_checks creation (e ∷ n) ranges,
        options,
      )
