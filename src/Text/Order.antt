-- ===== src/Text/Order.antt =====
-- The order of Python's texts, by code points, as `sorted` uses it.
use Prim.Native.String.{[], ◌∷◌}
use ctf_plugin_docker_per_te.Prelude.{
  ◌≡◌, refl, ap₂, ◌⊎◌, inl, inr, String, Bool, true, false, ◌&&◌, ◌||◌, code, ltb, arith,
  Bool-cases,
}
use ctf_plugin_docker_per_te.Text.{same_char}
use ctf_plugin_docker_per_te.Text.Laws.{same_char-eq}

-- `s < t`
abbrev pub text_lt : String → String → Bool
text_lt s [] = false
text_lt [] (d ∷ t) = true
text_lt (c ∷ s) (d ∷ t) = ltb (code c) (code d) || (same_char c d && text_lt s t)

pub text_lt_trans : (s t u : String) → text_lt s t ≡ true → text_lt t u ≡ true → text_lt s u ≡ true
text_lt_trans s [] u h k = cc h
text_lt_trans s (d ∷ t) [] h k = cc k
text_lt_trans [] (d ∷ t) (e ∷ u) h k = refl
text_lt_trans (c ∷ s) (d ∷ t) (e ∷ u) h k = ground (arith, text_lt_trans s t u)

-- Of two texts that are different, one is before the other.
pub text_lt_total : (s t : String) → text_lt s t ≡ false → (s ≡ t) ⊎ (text_lt t s ≡ true)
text_lt_total [] [] h = inl refl
text_lt_total (c ∷ s) [] h = inr refl
text_lt_total [] (d ∷ t) h = cc h
text_lt_total (c ∷ s) (d ∷ t) h = elim (Bool-cases (same_char c d)) [
  | inl same ↦ elim (text_lt_total s t (ground arith)) [
    | inl e ↦ inl (ap₂ ◌∷◌ (same_char-eq c d same) e)
    | inr later ↦ inr (ground arith)
  ]
  | inr other ↦ inr (ground arith)
]
