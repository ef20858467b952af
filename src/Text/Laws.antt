-- ===== src/Text/Laws.antt =====
-- Laws of the text functions: stripping, prefixes, and splitting at a mark.
use Prim.Native.String.{[], ◌∷◌, ◌++◌}
use text.Mathlib.TextLemmas.{nil-append, cons-append}
use ctf_plugin_docker_per_te.Prelude.{
  Char, String, ◌≡◌, refl, sym, ap, ap₂, ◌∙◌, Bool, true, false, arith, inl, inr, Bool-cases,
}
use text.Mathlib.TextEquality.{Char-path}
use ctf_plugin_docker_per_te.Text.{
  lstrip_by, rstrip_by, rstrip_cons, strip, is_space, same_char, starts_with, before, after,
  has_char, any_char, all_chars,
}

-- The first, and the last, character fails the test, or there is none.
abbrev FirstFails : (Char → Bool) → String → Type 0
FirstFails test [] = Unit
FirstFails test (c ∷ s) = test c ≡ false

module _ (test : Char → Bool) where
  lstrip_by-FirstFails : (s : String) → FirstFails test (lstrip_by test s)
  lstrip_by-FirstFails [] = tt
  lstrip_by-FirstFails (c ∷ s) = elim (Bool-cases (test c)) [
    | inl drop ↦ rw drop (lstrip_by-FirstFails s)
    | inr kept ↦ rw (kept, kept)
  ]

  lstrip_by_of_FirstFails : (s : String) → FirstFails test s → lstrip_by test s ≡ s
  lstrip_by_of_FirstFails [] h = refl
  lstrip_by_of_FirstFails (c ∷ s) h = rw h

  rstrip_cons-FirstFails :
      (c : Char) (s : String) → test c ≡ false → FirstFails test (rstrip_cons test c s)
  rstrip_cons-FirstFails c [] h = rw (h, h)
  rstrip_cons-FirstFails c (d ∷ s) h = h

  rstrip_by-FirstFails : (s : String) → FirstFails test s → FirstFails test (rstrip_by test s)
  rstrip_by-FirstFails [] h = tt
  rstrip_by-FirstFails (c ∷ s) h = rstrip_cons-FirstFails c (rstrip_by test s) h

  rstrip_by-rstrip_cons :
      (c : Char) (s : String)
      → rstrip_by test s ≡ s
      → rstrip_by test (rstrip_cons test c s) ≡ rstrip_cons test c s
  rstrip_by-rstrip_cons c [] h = elim (Bool-cases (test c)) [
    | inl drop ↦ rw drop
    | inr kept ↦ rw (kept, kept)
  ]
  rstrip_by-rstrip_cons c (d ∷ s) h = ap (rstrip_cons test c) h

  rstrip_by_idem : (s : String) → rstrip_by test (rstrip_by test s) ≡ rstrip_by test s
  rstrip_by_idem [] = refl
  rstrip_by_idem (c ∷ s) = rstrip_by-rstrip_cons c (rstrip_by test s) (rstrip_by_idem s)

-- Stripping twice is stripping once.
pub strip_idem : (s : String) → strip (strip s) ≡ strip s
unfolding strip
strip_idem s =
    ap (rstrip_by is_space) (
      lstrip_by_of_FirstFails is_space _
        (rstrip_by-FirstFails is_space _ (lstrip_by-FirstFails is_space s)))
    ∙ rstrip_by_idem is_space (lstrip_by is_space s)

pub same_char-eq : (c d : Char) → same_char c d ≡ true → c ≡ d
same_char-eq c d h = Char-path c d (ground arith)

-- A text starts with a prefix exactly if it is the prefix with a rest behind it.
pub starts_with-eq :
    (s prefix : String) → starts_with s prefix ≡ true → (rest : String) × (s ≡ prefix ++ rest)
starts_with-eq s [] h = (s, sym (nil-append s))
starts_with-eq [] (d ∷ prefix) h = cc
starts_with-eq (c ∷ s) (d ∷ prefix) h =
    let (rest, e) = starts_with-eq s prefix (ground arith) in
    (rest, ap₂ ◌∷◌ (same_char-eq c d (ground arith)) e ∙ sym (cons-append d prefix rest))

pub starts_with-append : (prefix rest : String) → starts_with (prefix ++ rest) prefix ≡ true
starts_with-append [] rest = refl
starts_with-append (c ∷ prefix) rest =
    rw cons-append (ground (arith, starts_with-append prefix rest))

-- Splitting at the first mark, where the part before it has none.
pub before-append :
    (mark : Char) (s t : String) → has_char mark s ≡ false → before mark (s ++ mark ∷ t) ≡ s
before-append mark [] t h = rw nil-append (ground arith)
before-append mark (c ∷ s) t h = rw cons-append (elim (Bool-cases (same_char c mark)) [
  | inl hit ↦ ground arith
  | inr miss ↦ rw miss (ap (◌∷◌ c) (before-append mark s t (ground arith)))
])

pub after-append :
    (mark : Char) (s t : String) → has_char mark s ≡ false → after mark (s ++ mark ∷ t) ≡ t
after-append mark [] t h = rw nil-append (ground arith)
after-append mark (c ∷ s) t h = rw cons-append (elim (Bool-cases (same_char c mark)) [
  | inl hit ↦ ground arith
  | inr miss ↦ rw miss (after-append mark s t (ground arith))
])

-- No character passes a second test if all pass a first that excludes it.
pub any_char_of_all :
    (test other : Char → Bool)
    → ((c : Char) → test c ≡ true → other c ≡ false)
    → (s : String) → all_chars test s ≡ true
    → any_char other s ≡ false
any_char_of_all test other apart [] h = refl
any_char_of_all test other apart (c ∷ s) h =
    ground (arith, apart c, any_char_of_all test other apart s)
