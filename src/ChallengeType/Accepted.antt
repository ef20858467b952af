-- ===== src/ChallengeType/Accepted.antt =====
-- What `_normalize_challenge_payload` lets an admin store.
use ctf_plugin_docker_per_te.Prelude.{
  ◌≡◌, refl, ap, ◌∙◌, String, Bool, true, false, not, ◌&&◌, Option, none, some, List, [], ◌∷◌, All,
  one_of, Dict, get, inl, inr, Bool-cases, subst,
}
use ctf_plugin_docker_per_te.Text.{is_empty}
use ctf_plugin_docker_per_te.Result.{ok, raise_if-passes, raise_if_passes, bind-eq-ok, ok_injective}
use ctf_plugin_docker_per_te.Policy.Hardening.{Settings}
use ctf_plugin_docker_per_te.Manager.Options.{
  Json, Volume, VolumesJson, not_json, not_object, mappings, parse_capabilities_value,
}
use ctf_plugin_docker_per_te.ChallengeType.{
  Value, volumes_disabled, raise_first, range_checks, option_text, enabled_setting, setting_text,
  check_allowed, check_volumes_json, check_volumes, check_array, check_capabilities, check_options,
  is_allowed, normalize_value, normalize_items, normalize_challenge_payload,
}
use ctf_plugin_docker_per_te.ChallengeType.Ranges.{InRange, range_checks-InRange, kept_none}

module _ (json : Json) (settings : Settings) where
  -- Volumes are an object, and the settings allow them; capabilities are among those allowed.
  pub record IsPermitted (n : Dict Value) : Type 0 where
    pub volumes_lem :
        is_empty (option_text (get n "volumes")) ≡ false
        → (enabled_setting (get settings "allow_challenge_volumes") ≡ true)
          × ((volumes : List (Option Volume)) × (json.volumes (option_text (get n "volumes"))
                ≡ mappings volumes))
    pub capabilities_lem :
        is_empty (option_text (get n "capabilities")) ≡ false
        → (requested : List String) × (allowed : List String) × (parse_capabilities_value json
              (some (option_text (get n "capabilities")))
            ≡ some requested)
          × (parse_capabilities_value json (setting_text (get settings "allowed_capabilities"))
              ≡ some allowed)
          × All (λ c. one_of c allowed ≡ true) requested

  object_of :
      (found : VolumesJson)
      → check_volumes_json found ≡ ok tt
      → (volumes : List (Option Volume)) × (found ≡ mappings volumes)
  object_of not_json h = cc h
  object_of not_object h = cc h
  object_of (mappings volumes) h = (volumes, refl)

  check_allowed-All :
      (requested allowed : Option (List String))
      → check_allowed requested allowed ≡ ok tt
      → (names : List String) × (permitted : List String) × (requested ≡ some names)
        × (allowed ≡ some permitted)
        × All (λ c. one_of c permitted ≡ true) names
  check_allowed-All none allowed h = cc h
  check_allowed-All (some names) none h = cc h
  check_allowed-All (some names) (some []) h = cc h
  check_allowed-All (some names) (some (p ∷ ps)) h =
      (names, p ∷ ps, refl, refl, kept_none (λ c. one_of c (p ∷ ps)) names (raise_if_passes _ _ h))

  must_be : (empty on : Bool) → empty ≡ false → (not empty && not on) ≡ false → on ≡ true
  must_be true on filled h = cc filled
  must_be false true filled h = refl
  must_be false false filled h = cc h

  check_options-IsPermitted :
      (n : Dict Value) → check_options json settings n ≡ ok tt → IsPermitted n
  unfolding check_options
  check_options-IsPermitted n h =
      let volumes = option_text (get n "volumes") in
      let capabilities = option_text (get n "capabilities") in
      let (u, first, h1) = bind-eq-ok (check_volumes json settings volumes) _ h in
      let (u1, second, h2) = bind-eq-ok (check_array json settings capabilities) _ h1 in
      let (off, last) =
        raise_if-passes
          (not (is_empty volumes) && not (enabled_setting (get settings "allow_challenge_volumes")))
          volumes_disabled (check_capabilities json settings capabilities) h2 in
      record {
        volumes_lem = λ filled.
            (must_be _ _ filled off, object_of (json.volumes volumes) (rw filled at first));
        capabilities_lem = λ filled. check_allowed-All _ _ (rw filled at last);
      }

module _ (json : Json) (settings : Settings) (inherited : List String) where
  -- An entry that the loop made: of a known column, and of some value of the payload.
  abbrev pub Made : String × Value → Type 0
  Made e =
      (is_allowed json settings inherited e.0 ≡ true)
      × ((raw_value : Value) × (normalize_value e.0 raw_value ≡ ok e.1))

  pub items-Made :
      (items n : Dict Value) → normalize_items json settings inherited items ≡ ok n → All Made n
  unfolding normalize_items
  items-Made [] [] h = tt
  items-Made [] (e ∷ n) h = cc h
  items-Made ((attr, raw_value) ∷ items) n h =
      elim (Bool-cases (is_allowed json settings inherited attr)) [
        | inl fine ↦
            let (value, made, h1) = bind-eq-ok (normalize_value attr raw_value) _ (rw fine at h) in
            let (rest, others, h2) =
              bind-eq-ok (normalize_items json settings inherited items) _ h1 in
            subst (All Made) (ok_injective h2)
              ((fine, (raw_value, made)), items-Made items rest others)
        | inr skipped ↦ items-Made items n (rw skipped at h)
      ]

  -- An accepted payload has gone through the loop and the checks.
  pub accepted-parts :
      (creation : Bool) (items n : Dict Value)
      → normalize_challenge_payload json settings inherited creation items ≡ ok n
      → (normalize_items json settings inherited items ≡ ok n)
        × (raise_first (range_checks creation n) ≡ ok tt)
        × (check_options json settings n ≡ ok tt)
  unfolding normalize_challenge_payload
  accepted-parts creation [] n h = cc h
  accepted-parts creation (item ∷ items) n h =
      let (made, loop, h1) =
        bind-eq-ok (normalize_items json settings inherited (item ∷ items)) _ h in
      let (u, ranges, h2) = bind-eq-ok (raise_first (range_checks creation made)) _ h1 in
      let (u1, options, h3) = bind-eq-ok (check_options json settings made) _ h2 in
      let same : made ≡ n = ok_injective h3 in
      (
        loop ∙ ap ok same,
        subst (λ m. raise_first (range_checks creation m) ≡ ok tt) same ranges,
        subst (λ m. check_options json settings m ≡ ok tt) same options,
      )

  known_columns :
      (n : Dict Value) → All Made n → All (λ e. is_allowed json settings inherited e.0 ≡ true) n
  known_columns [] all = tt
  known_columns (e ∷ n) (here, all) = (here.0, known_columns n all)

  -- A payload that is accepted, on creation or as a change, has only known columns; its numbers are
  -- in range and its choices among those offered; its volumes are an object and switched on by the
  -- settings; its capabilities are among those that the settings allow; and on creation no required
  -- field is empty.
  pub payload-accepted :
      (creation : Bool) (items n : Dict Value)
      → normalize_challenge_payload json settings inherited creation items ≡ ok n
      → InRange creation n
        × IsPermitted json settings n
        × All (λ e. is_allowed json settings inherited e.0 ≡ true) n
  payload-accepted creation items n h =
      let (loop, ranges, options) = accepted-parts creation items n h in
      (
        range_checks-InRange creation n ranges,
        check_options-IsPermitted json settings n options,
        known_columns n (items-Made items n loop),
      )
