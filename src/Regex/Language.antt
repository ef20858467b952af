-- ===== src/Regex/Language.antt =====
-- The language of a regular expression, and the matcher.
use ctf_plugin_docker_per_te.Prelude.{
  ℕ, String, ◌≡◌, refl, ap, ◌↔◌, ◌⊎◌, inl, inr, Bool, true, List, [], ◌∷◌, ◌++◌, arith, Bool-cases,
}
use ctf_plugin_docker_per_te.Regex.{
  Regex, nothing, empty, chars, seq, alt, star, codes, nullable, seq', is_nothing, alt', derive,
  matches, fullmatch,
}

-- `Matches r w`: the word `w` belongs to the language of `r`.
pub data Matches : Regex → List ℕ → Type 0 where
  of_empty : Matches empty []
  of_chars : {p : ℕ → Bool} {n : ℕ} → p n ≡ true → Matches (chars p) (n ∷ [])
  of_seq :
      {r s : Regex} {u v w : List ℕ} → Matches r u → Matches s v → w ≡ u ++ v → Matches (seq r s) w
  of_left : {r s : Regex} {w : List ℕ} → Matches r w → Matches (alt r s) w
  of_right : {r s : Regex} {w : List ℕ} → Matches s w → Matches (alt r s) w
  of_done : {r : Regex} → Matches (star r) []
  of_more :
      {r : Regex} {n : ℕ} {u v w : List ℕ}
      → Matches r (n ∷ u)
      → Matches (star r) v
      → w ≡ n ∷ u ++ v
      → Matches (star r) w

-- Inversion at each form.
nothing-inv : {w : List ℕ} → Matches nothing w → ⊥
nothing-inv h = elim h [ ]

pub empty-inv : {w : List ℕ} → Matches empty w → w ≡ []
empty-inv of_empty = refl

pub chars-inv :
    {p : ℕ → Bool} {w : List ℕ} → Matches (chars p) w → (n : ℕ) × (p n ≡ true) × (w ≡ n ∷ [])
chars-inv (of_chars {n} h) = (n, h, refl)

pub seq-inv :
    {r s : Regex} {w : List ℕ}
    → Matches (seq r s) w
    → (u : List ℕ) × (v : List ℕ) × Matches r u × Matches s v × (w ≡ u ++ v)
seq-inv (of_seq {u} {v} h k e) = (u, v, h, k, e)

pub alt-inv : {r s : Regex} {w : List ℕ} → Matches (alt r s) w → Matches r w ⊎ Matches s w
alt-inv (of_left h) = inl h
alt-inv (of_right h) = inr h

pub star-inv :
    {r : Regex} {w : List ℕ}
    → Matches (star r) w
    → (w ≡ [])
      ⊎ ((n : ℕ) × (u : List ℕ) × (v : List ℕ) × Matches r (n ∷ u)
          × Matches (star r) v
          × (w ≡ n ∷ u ++ v))
star-inv of_done = inl refl
star-inv (of_more {n} {u} {v} h k e) = inr (n, u, v, h, k, e)

seq'_sound : (r s : Regex) {w : List ℕ} → Matches (seq' r s) w → Matches (seq r s) w
seq'_sound nothing s h = absurd (nothing-inv h)
seq'_sound empty s h = of_seq of_empty h refl
seq'_sound _ s h = h

seq'_complete :
    (r s : Regex) {u v : List ℕ} → Matches r u → Matches s v → Matches (seq' r s) (u ++ v)
seq'_complete nothing s h k = absurd (nothing-inv h)
seq'_complete empty s h k = rw (empty-inv h) k
seq'_complete (chars p) s h k = of_seq h k refl
seq'_complete (seq a b) s h k = of_seq h k refl
seq'_complete (alt a b) s h k = of_seq h k refl
seq'_complete (star a) s h k = of_seq h k refl

is_nothing_lem : (r : Regex) {w : List ℕ} → is_nothing r ≡ true → Matches r w → ⊥
is_nothing_lem nothing e h = nothing-inv h
is_nothing_lem _ e h = cc

alt'_sound : (r s : Regex) {w : List ℕ} → Matches (alt' r s) w → Matches (alt r s) w
alt'_sound r s h = elim (Bool-cases (is_nothing r)) [
  | inl gone ↦ of_right (rw gone at h)
  | inr there ↦ elim (Bool-cases (is_nothing s)) [
    | inl gone ↦ of_left (rw (there, gone) at h)
    | inr too ↦ rw (there, too) at h
  ]
]

alt'_complete : (r s : Regex) {w : List ℕ} → Matches r w ⊎ Matches s w → Matches (alt' r s) w
alt'_complete r s h = elim (Bool-cases (is_nothing r)) [
  | inl gone ↦ rw gone (elim h [ inl m ↦ absurd (is_nothing_lem r gone m) | inr m ↦ m ])
  | inr there ↦ elim (Bool-cases (is_nothing s)) [
    | inl gone ↦ rw (there, gone) (elim h [ inl m ↦ m | inr m ↦ absurd (is_nothing_lem s gone m) ])
    | inr too ↦ rw (there, too) (elim h [ inl m ↦ of_left m | inr m ↦ of_right m ])
  ]
]

nullable_sound : (r : Regex) → nullable r ≡ true → Matches r []
unfolding nullable
nullable_sound nothing h = cc
nullable_sound empty h = of_empty
nullable_sound (chars p) h = cc
nullable_sound (seq r s) h =
    of_seq (nullable_sound r (ground arith)) (nullable_sound s (ground arith)) refl
nullable_sound (alt r s) h = elim (Bool-cases (nullable r)) [
  | inl first ↦ of_left (nullable_sound r first)
  | inr other ↦ of_right (nullable_sound s (rw other at h))
]
nullable_sound (star r) h = of_done

pub append-eq-nil : {A : Type 0} (u v : List A) → [] ≡ u ++ v → ([] ≡ u) × ([] ≡ v)
append-eq-nil [] v e = (refl, e)
append-eq-nil (x ∷ u) v e = cc

nullable_complete : (r : Regex) → Matches r [] → nullable r ≡ true
unfolding nullable
nullable_complete nothing h = absurd (nothing-inv h)
nullable_complete empty h = refl
nullable_complete (chars p) h = let (n, _, e) = chars-inv h in cc e
nullable_complete (seq r s) h =
    let (u, v, m, k, e) = seq-inv h in
    let (eu, ev) = append-eq-nil u v e in
    rw (nullable_complete r (rw eu m)) (nullable_complete s (rw ev k))
nullable_complete (alt r s) h = elim (alt-inv h) [
  | inl m ↦ ground (arith, nullable_complete r m)
  | inr m ↦ ground (arith, nullable_complete s m)
]
nullable_complete (star r) h = refl

-- A derivative has the rests of the words that begin with the character.
derive_sound : (n : ℕ) (r : Regex) {w : List ℕ} → Matches (derive n r) w → Matches r (n ∷ w)
unfolding derive
derive_sound n nothing h = absurd (nothing-inv h)
derive_sound n empty h = absurd (nothing-inv h)
derive_sound n (chars p) h = elim (Bool-cases (p n)) [
  | inl hit ↦ rw (empty-inv (rw hit at h)) (of_chars hit)
  | inr miss ↦ absurd (nothing-inv (rw miss at h))
]
derive_sound n (seq r s) h = elim (Bool-cases (nullable r)) [
  | inl skip ↦ elim (alt-inv (alt'_sound _ _ (rw skip at h))) [
    | inl m ↦
        let (u, v, front, k, e) = seq-inv (seq'_sound _ _ m) in
        of_seq (derive_sound n r front) k (ap (◌∷◌ n) e)
    | inr m ↦ of_seq (nullable_sound r skip) (derive_sound n s m) refl
  ]
  | inr stay ↦
      let (u, v, front, k, e) = seq-inv (seq'_sound _ _ (rw stay at h)) in
      of_seq (derive_sound n r front) k (ap (◌∷◌ n) e)
]
derive_sound n (alt r s) h = elim (alt-inv (alt'_sound _ _ h)) [
  | inl m ↦ of_left (derive_sound n r m)
  | inr m ↦ of_right (derive_sound n s m)
]
derive_sound n (star r) h =
    let (u, v, m, k, e) = seq-inv (seq'_sound _ _ h) in
    of_more (derive_sound n r m) k (ap (◌∷◌ n) e)

-- A word that begins with `n`, cut in two: the front is empty, or begins with `n`.
cut_word :
    (n : ℕ) (w u v : List ℕ)
    → n ∷ w ≡ u ++ v
    → ((u ≡ []) × (n ∷ w ≡ v)) ⊎ ((u' : List ℕ) × (u ≡ n ∷ u') × (w ≡ u' ++ v))
cut_word n w [] v e = inl (refl, e)
cut_word n w (m ∷ u) v e = inr (u, cc, cc)

derive-seq-front :
    (n : ℕ) (r s : Regex) (w : List ℕ)
    → Matches (seq' (derive n r) s) w
    → Matches (derive n (seq r s)) w
unfolding derive
derive-seq-front n r s w h = elim (Bool-cases (nullable r)) [
  | inl skip ↦ rw skip (alt'_complete _ _ (inl h))
  | inr stay ↦ rw stay h
]

derive_complete : (n : ℕ) (r : Regex) (w : List ℕ) → Matches r (n ∷ w) → Matches (derive n r) w
unfolding derive
derive_complete n nothing w h = absurd (nothing-inv h)
derive_complete n empty w h = cc (empty-inv h)
derive_complete n (chars p) w h =
    let (m, hit, e) = chars-inv h in
    let same : n ≡ m = cc e in let none_left : w ≡ [] = cc e in rw (same, hit, none_left) of_empty
derive_complete n (seq r s) w h =
    let (u, v, m, k, e) = seq-inv h in
    elim (cut_word n w u v e) [
      | inl (eu, ev) ↦
          rw (nullable_complete r (rw eu at m))
            (alt'_complete _ _ (inr (derive_complete n s w (rw ev k))))
      | inr (u', eu, ew) ↦
          derive-seq-front n r s w
            (rw ew (seq'_complete _ _ (derive_complete n r u' (rw eu at m)) k))
    ]
derive_complete n (alt r s) w h = elim (alt-inv h) [
  | inl m ↦ alt'_complete _ _ (inl (derive_complete n r w m))
  | inr m ↦ alt'_complete _ _ (inr (derive_complete n s w m))
]
derive_complete n (star r) w h = elim (star-inv h) [
  | inl e ↦ cc e
  | inr (m, u, v, front, k, e) ↦
      let same : n ≡ m = cc e in
      let rest : w ≡ u ++ v = cc e in
      rw rest (seq'_complete _ _ (derive_complete n r u (rw same front)) k)
]

pub matches_iff : (r : Regex) (w : List ℕ) → (matches r w ≡ true) ↔ Matches r w
unfolding matches
matches_iff r [] = (nullable_sound r, nullable_complete r)
matches_iff r (n ∷ w) = (
  λ h. derive_sound n r ((matches_iff (derive n r) w).0 h),
  λ h. (matches_iff (derive n r) w).1 (derive_complete n r w h),
)

-- The matcher accepts a text exactly if its characters form a word of the pattern's language.
pub fullmatch_iff : (r : Regex) (s : String) → (fullmatch r s ≡ true) ↔ Matches r (codes s)
unfolding fullmatch
fullmatch_iff r s = matches_iff r (codes s)
