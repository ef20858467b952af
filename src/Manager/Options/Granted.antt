-- ===== src/Manager/Options/Granted.antt =====
-- What `create_container` grants a challenge: its capabilities and its volumes.
use ctf_plugin_docker_per_te.Prelude.{
  String, ◌≢◌, ◌≡◌, refl, sym, subst, ◌∙◌, ◌⊎◌, inl, inr, Bool, true, false, not, ◌||◌, ◌==◌,
  eq_iff, Option, none, some, List, [], ◌∷◌, keep, one_of, All, Bool-cases, arith,
}
use ctf_plugin_docker_per_te.Text.{
  strip, lower, or_empty, is_empty, starts_with, text_below, rstrip_mark,
}
use ctf_plugin_docker_per_te.Result.{ok, ok_injective}
use ctf_plugin_docker_per_te.Models.{Challenge}
use ctf_plugin_docker_per_te.Policy.Hardening.{Settings}
use ctf_plugin_docker_per_te.Manager.Connection.{setting}
use ctf_plugin_docker_per_te.Manager.Options.{
  Json, Volume, parse_capabilities_value, insert, sorted_set, granted, requested_capabilities,
  bind_path, check_mappings, nonempty,
}

-- `sorted(set(…))` holds what the list holds.
All-insert {ℓ} :
    (P : String → Type ℓ) (s : String) (ts : List String) → P s → All P ts → All P (insert s ts)
All-insert P s [] p ps = (p, tt)
All-insert P s (t ∷ ts) p (q, qs) = elim (Bool-cases (s == t)) [
  | inl same ↦ rw same (q, qs)
  | inr apart ↦ elim (Bool-cases (text_below s t)) [
    | inl below ↦ rw (apart, below) (p, (q, qs))
    | inr above ↦ rw (apart, above) (q, All-insert P s ts p qs)
  ]
]

All-sorted_set {ℓ} : (P : String → Type ℓ) (ts : List String) → All P ts → All P (sorted_set ts)
All-sorted_set P [] ps = tt
All-sorted_set P (t ∷ ts) (p, ps) = All-insert P t (sorted_set ts) p (All-sorted_set P ts ps)

insert-nonempty : (s : String) (ts : List String) → nonempty (insert s ts) ≡ true
insert-nonempty s [] = refl
insert-nonempty s (t ∷ ts) = elim (Bool-cases (s == t)) [
  | inl same ↦ rw same refl
  | inr apart ↦ elim (Bool-cases (text_below s t)) [
    | inl below ↦ rw (apart, below) refl
    | inr above ↦ rw (apart, above) refl
  ]
]

-- If nothing is left over, every name is allowed.
every_one_fits :
    (allowed requested : List String)
    → nonempty (sorted_set (keep (λ c. not (one_of c allowed)) requested)) ≡ false
    → All (λ c. one_of c allowed ≡ true) requested
every_one_fits allowed [] h = tt
every_one_fits allowed (c ∷ requested) h = elim (Bool-cases (one_of c allowed)) [
  | inl fine ↦ (fine, every_one_fits allowed requested (rw fine at h))
  | inr bad ↦ cc (
      sym (insert-nonempty c (sorted_set (keep (λ c. not (one_of c allowed)) requested)))
      ∙ (rw bad at h))
]

granted-allowed :
    (requested allowed : Option (List String)) (caps : List String)
    → granted requested allowed ≡ ok caps
    → (names : List String) × (allowed ≡ some names) × All (λ c. one_of c names ≡ true) caps
granted-allowed none allowed caps h = cc h
granted-allowed (some requested) none caps h = cc h
granted-allowed (some requested) (some allowed) caps h =
    elim (Bool-cases (nonempty (sorted_set (keep (λ c. not (one_of c allowed)) requested)))) [
      | inl left_over ↦ cc (rw left_over at h)
      | inr nothing ↦
          let same : sorted_set requested ≡ caps = ok_injective (rw nothing at h) in
          (
            allowed,
            refl,
            subst (λ names. All (λ c. one_of c allowed ≡ true) names) same
                (All-sorted_set (λ c. one_of c allowed ≡ true) requested
                  (every_one_fits allowed requested nothing)),
          )
    ]

-- A challenge receives no capability beyond those that the setting `allowed_capabilities` lists;
-- without a request it receives none.
pub capabilities-allowed :
    (json : Json) (settings : Settings) (challenge : Challenge) (caps : List String)
    → requested_capabilities json settings challenge ≡ ok caps
    → (caps ≡ [])
      ⊎ ((names : List String) × (parse_capabilities_value json
              (setting settings "allowed_capabilities")
            ≡ some names)
          × All (λ c. one_of c names ≡ true) caps)
unfolding requested_capabilities
capabilities-allowed json settings challenge caps h =
    elim (Bool-cases (is_empty (strip (or_empty challenge.capabilities)))) [
      | inl quiet ↦ inl (sym (ok_injective (rw quiet at h)))
      | inr asked ↦ inr (granted-allowed _ _ caps (rw asked at h))
    ]

no_bool : true ≡ false → ⊥
no_bool h = cc h

neither : (a b : Bool) → (a || b) ≡ false → (a ≡ false) × (b ≡ false)
neither a b h = ground arith

apart : {s t : String} → (s == t) ≡ false → s ≢ t
apart {s} {t} h same = no_bool (sym ((eq_iff s t).1 same) ∙ h)

-- A mapping that is mounted read-only, on a path that is not written as `/tmp` or below it.
abbrev pub IsHarmless : Option Volume → Type 0
IsHarmless none = ⊥
IsHarmless (some volume) =
    (lower volume.mode ≡ "ro")
    × (rstrip_mark "/" volume.bind ≢ "/tmp")
    × (starts_with (rstrip_mark "/" volume.bind) "/tmp/" ≡ false)

-- Volume mappings that pass are objects, each mounted read-only; the path, without the slashes at its
-- end, is not `/tmp` and does not begin with `/tmp/`. Other spellings, as `//tmp`, are not looked for.
pub mappings-IsHarmless :
    (volumes : List (Option Volume)) → check_mappings volumes ≡ ok tt → All IsHarmless volumes
mappings-IsHarmless [] h = tt
mappings-IsHarmless (none ∷ rest) h = cc h
mappings-IsHarmless (some volume ∷ rest) h =
    elim (Bool-cases (bind_path volume == "/tmp" || starts_with (bind_path volume) "/tmp/")) [
      | inl over ↦ cc (rw over at h)
      | inr away ↦ elim (Bool-cases (lower volume.mode == "ro")) [
        | inr writable ↦ cc (rw (away, writable) at h)
        | inl read_only ↦
            let (exact, below) =
              neither (bind_path volume == "/tmp") (starts_with (bind_path volume) "/tmp/") away in
            (
              ((eq_iff (lower volume.mode) "ro").0 read_only, apart exact, below),
              mappings-IsHarmless rest (rw (away, read_only) at h),
            )
      ]
    ]
