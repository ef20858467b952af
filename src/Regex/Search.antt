-- ===== src/Regex/Search.antt =====
-- A search for a pattern that ends in `$`.
use ctf_plugin_docker_per_te.Prelude.{
  ℕ, String, ◌≡◌, refl, ap, ◌∙◌, ◌↔◌, ◌⊎◌, inl, inr, Bool, true, ◌||◌, List, [], ◌∷◌, ◌++◌, arith,
}
use ctf_plugin_docker_per_te.Regex.{Regex, seq, literal, codes, matches, ends_match, search_end}
use ctf_plugin_docker_per_te.Regex.Language.{
  Matches, matches_iff, seq-inv, chars-inv, append-eq-nil,
}

-- The text ends with a word of the pattern, or with one and a line feed.
abbrev pub EndsWith : Regex → List ℕ → Type 0
EndsWith r w =
    (front : List ℕ) × (word : List ℕ) × (w ≡ front ++ word)
    × (Matches r word ⊎ Matches (seq r (literal 10)) word)

EndsWith-cons : (r : Regex) (n : ℕ) (w : List ℕ) → EndsWith r w → EndsWith r (n ∷ w)
EndsWith-cons r n w (front, word, e, m) = (n ∷ front, word, ap (◌∷◌ n) e, m)

or-cases : (a b c : Bool) → (a || b || c) ≡ true → (a ≡ true) ⊎ ((b ≡ true) ⊎ (c ≡ true))
or-cases a b c h = ground arith

ends_match_sound : (r : Regex) (w : List ℕ) → ends_match r w ≡ true → EndsWith r w
unfolding ends_match
ends_match_sound r [] h = ([], [], refl, inl ((matches_iff r []).0 (unfold matches in h)))
ends_match_sound r (n ∷ w) h = elim (or-cases _ _ _ h) [
  | inl here ↦ ([], n ∷ w, refl, inl ((matches_iff r (n ∷ w)).0 here))
  | inr (inl here) ↦ ([], n ∷ w, refl, inr ((matches_iff (seq r (literal 10)) (n ∷ w)).0 here))
  | inr (inr later) ↦ EndsWith-cons r n w (ends_match_sound r w later)
]

seq-literal-nil : (r : Regex) → Matches (seq r (literal 10)) [] → ⊥
seq-literal-nil r m =
    let (u, v, _, last, e) = seq-inv m in
    let (n, _, one) = chars-inv last in cc ((append-eq-nil u v e).1 ∙ one)

matches_here :
    (r : Regex) (w : List ℕ)
    → Matches r w ⊎ Matches (seq r (literal 10)) w
    → (matches r w || matches (seq r (literal 10)) w) ≡ true
matches_here r w (inl m) = ground (arith, (matches_iff r w).1 m)
matches_here r w (inr m) = ground (arith, (matches_iff (seq r (literal 10)) w).1 m)

or_first : (a b c : Bool) → (a || b) ≡ true → (a || b || c) ≡ true
or_first a b c h = ground arith

or_last : (a b c : Bool) → c ≡ true → (a || b || c) ≡ true
or_last a b c h = ground arith

ends_match_complete :
    (r : Regex) (w front word : List ℕ)
    → w ≡ front ++ word
    → Matches r word ⊎ Matches (seq r (literal 10)) word
    → ends_match r w ≡ true
unfolding ends_match
ends_match_complete r [] front word e m =
    let here : [] ≡ word = (append-eq-nil front word e).1 in
    elim m [
      | inl found ↦ unfold matches in (matches_iff r []).1 (rw here found)
      | inr found ↦ absurd (seq-literal-nil r (rw here found))
    ]
ends_match_complete r (n ∷ w) [] word e m =
    or_first (matches r (n ∷ w)) (matches (seq r (literal 10)) (n ∷ w)) (ends_match r w)
      (matches_here r (n ∷ w) (rw e m))
ends_match_complete r (n ∷ w) (k ∷ front) word e m =
    or_last (matches r (n ∷ w)) (matches (seq r (literal 10)) (n ∷ w)) (ends_match r w)
      (ends_match_complete r w front word (cc e) m)

pub search_end_iff : (r : Regex) (s : String) → (search_end r s ≡ true) ↔ EndsWith r (codes s)
unfolding search_end
search_end_iff r s = (
  ends_match_sound r (codes s),
  λ (front, word, e, m). ends_match_complete r (codes s) front word e m,
)
