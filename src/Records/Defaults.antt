-- ===== src/Records/Defaults.antt =====
-- What `seed_default_settings` of helpers.py does to the settings table.
use ctf_plugin_docker_per_te.Prelude.{
  String, ◌≢◌, List, ◌≡◌, refl, sym, ap, ◌∙◌, ◌⊎◌, inl, inr, true, false, ◌==◌, eq_iff, Option,
  none, some, [], ◌∷◌, All, map, Dict, get, put, get-put, one_of, arith, Bool-cases,
}
use ctf_plugin_docker_per_te.Text.{strip, is_space}
use ctf_plugin_docker_per_te.Records.{
  default_container_settings, secure_nonzero_defaults, is_zero_sentinel, seeded_value, seed_rows,
  seed_default_settings,
}

-- A row that is there and turns no safety control off.
abbrev IsLive : Dict (Option String) → String → Type 0
IsLive rows key = (v : Option String) × (get rows key ≡ some v) × (is_zero_sentinel v ≡ false)

-- Every default of a safety control is a value that leaves it on.
abbrev SoundDefault : String × Option String → Type 0
SoundDefault (key, default) =
    (is_zero_sentinel default ≡ false) ⊎ (one_of key secure_nonzero_defaults ≡ false)

put-same :
    (rows : Dict (Option String)) (key : String) (v : Option String)
    → get (put rows key v) key ≡ some v
put-same rows key v = get-put rows key key v ∙ rw ((eq_iff key key).1 refl) refl

put-other :
    (rows : Dict (Option String)) (key other : String) (v : Option String)
    → (key == other) ≡ false
    → get (put rows key v) other ≡ get rows other
put-other rows key other v apart = get-put rows key other v ∙ rw apart refl

seeded_value-kept :
    (key : String) (default v : Option String)
    → is_zero_sentinel v ≡ false
    → seeded_value key default (some v) ≡ v
seeded_value-kept key default v live = elim (Bool-cases (one_of key secure_nonzero_defaults)) [
  | inl guarded ↦ rw (guarded, live) refl
  | inr free ↦ rw free refl
]

seed_rows-kept :
    (defaults rows : Dict (Option String)) (key : String) (v : Option String)
    → get rows key ≡ some v
    → is_zero_sentinel v ≡ false
    → get (seed_rows defaults rows) key ≡ some v
seed_rows-kept [] rows key v here live = here
seed_rows-kept ((other, default) ∷ defaults) rows key v here live =
    seed_rows-kept defaults (put rows other (seeded_value other default (get rows other))) key v
      (elim (Bool-cases (other == key)) [
        | inr apart ↦
            put-other rows other key (seeded_value other default (get rows other)) apart ∙ here
        | inl same ↦
            let meet : other ≡ key = (eq_iff other key).0 same in
            ap (λ k. get (put rows k (seeded_value k default (get rows k))) key) meet
            ∙ put-same rows key (seeded_value key default (get rows key))
            ∙ ap (λ r. some (seeded_value key default r)) here
            ∙ ap some (seeded_value-kept key default v live)
      ])
      live

-- A value that an operator has set to anything but a known "off" sentinel is preserved.
pub seed-preserves :
    (environment : Dict String) (rows : Dict (Option String)) (key : String) (v : Option String)
    → get rows key ≡ some v
    → is_zero_sentinel v ≡ false
    → get (seed_default_settings environment rows).0 key ≡ some v
unfolding seed_default_settings
seed-preserves environment rows key v here live =
    seed_rows-kept default_container_settings rows key v here live

seeded-live :
    (key : String) (default : Option String) (found : Option (Option String))
    → is_zero_sentinel default ≡ false
    → one_of key secure_nonzero_defaults ≡ true
    → is_zero_sentinel (seeded_value key default found) ≡ false
seeded-live key default none live guarded = live
seeded-live key default (some v) live guarded = elim (Bool-cases (is_zero_sentinel v)) [
  | inl off ↦ rw (guarded, off) live
  | inr on ↦ rw (guarded, on) on
]

not_off : true ≡ false → ⊥
not_off h = cc h

sound_live :
    (key other : String) (default : Option String)
    → key ≡ other
    → one_of key secure_nonzero_defaults ≡ true
    → SoundDefault (other, default)
    → is_zero_sentinel default ≡ false
sound_live key other default meet guarded (inl live) = live
sound_live key other default meet guarded (inr free) =
    absurd (not_off (sym guarded ∙ ap (λ k. one_of k secure_nonzero_defaults) meet ∙ free))

seed_rows-IsLive :
    (defaults rows : Dict (Option String)) (key : String)
    → All SoundDefault defaults
    → one_of key secure_nonzero_defaults ≡ true
    → one_of key (map (λ (entry : String × Option String). entry.0) defaults) ≡ true
    → IsLive (seed_rows defaults rows) key
seed_rows-IsLive [] rows key sound guarded here = absurd (ground arith)
seed_rows-IsLive ((other, default) ∷ defaults) rows key (s, sound) guarded here =
    elim (Bool-cases (key == other)) [
      | inr apart ↦
          seed_rows-IsLive defaults (put rows other (seeded_value other default (get rows other)))
            key sound guarded (rw apart at here)
      | inl same ↦
          let meet : key ≡ other = (eq_iff key other).0 same in
          let live : is_zero_sentinel default ≡ false =
            sound_live key other default meet guarded s in
          let v = seeded_value other default (get rows other) in
          let on : is_zero_sentinel v ≡ false =
            seeded-live other default (get rows other) live
              (ap (λ k. one_of k secure_nonzero_defaults) (sym meet) ∙ guarded) in
          (
            v,
            seed_rows-kept defaults (put rows other v) key v
                (ap (get (put rows other v)) meet ∙ put-same rows other v) on,
            on,
          )
    ]

safety_controls_have_defaults :
    (key : String)
    → one_of key secure_nonzero_defaults ≡ true
    → one_of key (map (λ (entry : String × Option String). entry.0) default_container_settings)
      ≡ true
safety_controls_have_defaults key h = ground arith

defaults_are_sound : All SoundDefault default_container_settings
unfolding strip is_space
defaults_are_sound = (
  inl refl,
  (
    inr refl,
    (
      inl refl,
      (
        inr refl,
        (
          inl refl,
          (
            inl refl,
            (
              inl refl,
              (
                inl refl,
                (
                  inl refl,
                  (inl refl, (inl refl, (inl refl, (inl refl, (inl refl, (inr refl, tt)))))),
                ),
              ),
            ),
          ),
        ),
      ),
    ),
  ),
)

-- The settings that bound a container, or how many there are.
abbrev pub safety_controls : List String
safety_controls =
    "container_expiration" ∷ "container_maxmemory" ∷ "container_maxcpu" ∷ "container_pids_limit"
    ∷ "container_tmpfs_size_mb" ∷ "container_log_max_files" ∷ "container_start_timeout_seconds"
    ∷ "max_containers" ∷ []

-- A row that is there, is not NULL, and is not "", "0" or "0.0" between white space.
abbrev pub IsSecure : Dict (Option String) → String → Type 0
IsSecure rows key =
    (value : String) × (get rows key ≡ some (some value))
    × (strip value ≢ "")
    × (strip value ≢ "0")
    × (strip value ≢ "0.0")

apart : (s : String) (t : String) → (s == t) ≡ false → s ≢ t
apart s t h same = not_off (sym ((eq_iff s t).1 same) ∙ h)

live-IsSecure : (rows : Dict (Option String)) (key : String) → IsLive rows key → IsSecure rows key
unfolding strip
live-IsSecure rows key (none, here, live) = absurd (not_off live)
live-IsSecure rows key (some value, here, live) = (
  value,
  here,
  apart (strip value) "" (ground (arith, live)),
  apart (strip value) "0" (ground (arith, live)),
  apart (strip value) "0.0" (ground (arith, live)),
)

-- After seeding, every safety control of the plugin has a row that is not NULL and, without the white
-- space around it, is not empty, "0" or "0.0"; other ways to write zero are not looked for.
pub seed-IsSecure :
    (environment : Dict String) (rows : Dict (Option String)) (key : String)
    → one_of key safety_controls ≡ true
    → IsSecure (seed_default_settings environment rows).0 key
unfolding seed_default_settings
seed-IsSecure environment rows key guarded =
    live-IsSecure (seed_rows default_container_settings rows) key (
      seed_rows-IsLive default_container_settings rows key defaults_are_sound guarded
        (safety_controls_have_defaults key guarded))
