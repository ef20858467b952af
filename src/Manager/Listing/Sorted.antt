-- ===== src/Manager/Listing/Sorted.antt =====
-- The sorted list of a set of texts.
use ctf_plugin_docker_per_te.Prelude.{
  ◌≡◌, refl, sym, ◌∙◌, subst, ◌==◌, eq_iff, inl, inr, String, true, false, List, [], ◌∷◌, All,
  one_of, Bool-cases, arith,
}
use ctf_plugin_docker_per_te.Text.Order.{text_lt, text_lt_trans, text_lt_total}
use ctf_plugin_docker_per_te.Manager.Listing.{add, insert, sorted_texts}

-- Each text is before all that follow it.
abbrev pub IsIncreasing : List String → Type 0
IsIncreasing [] = Unit
IsIncreasing (s ∷ texts) = All (λ t. text_lt s t ≡ true) texts × IsIncreasing texts

-- No text stands in the list twice.
abbrev pub IsUnique : List String → Type 0
IsUnique [] = Unit
IsUnique (s ∷ texts) = (one_of s texts ≡ false) × IsUnique texts

pub add-IsUnique :
    (s : String) (members : List String) → IsUnique members → IsUnique (add s members)
add-IsUnique s members h = elim (Bool-cases (one_of s members)) [
  | inl there ↦ rw there h
  | inr new ↦ rw new (new, h)
]

pub one_of-add :
    (r s : String) (members : List String) → one_of r (add s members) ≡ one_of r (s ∷ members)
one_of-add r s members = elim (Bool-cases (one_of s members)) [
  | inr new ↦ rw new refl
  | inl there ↦ rw there (elim (Bool-cases (r == s)) [
    | inr other ↦ rw other refl
    | inl same ↦
        let found : one_of r members ≡ true =
          subst (λ t. one_of t members ≡ true) (sym ((eq_iff r s).0 same)) there in
        rw found (ground arith)
  ])
]

one_of-insert :
    (r s : String) (texts : List String) → one_of r (insert s texts) ≡ one_of r (s ∷ texts)
one_of-insert r s [] = refl
one_of-insert r s (t ∷ texts) = ground (arith, one_of-insert r s texts)

pub one_of-sorted :
    (r : String) (members : List String) → one_of r (sorted_texts members) ≡ one_of r members
one_of-sorted r [] = refl
one_of-sorted r (s ∷ members) =
    ground (arith, one_of-insert r s (sorted_texts members), one_of-sorted r members)

insert-All :
    (P : String → Type 0) (s : String) (texts : List String)
    → P s
    → All P texts
    → All P (insert s texts)
insert-All P s [] p ps = (p, tt)
insert-All P s (t ∷ texts) p (q, ps) = elim (Bool-cases (text_lt s t)) [
  | inl before ↦ rw before (p, (q, ps))
  | inr after ↦ rw after (q, insert-All P s texts p ps)
]

all_after :
    (s t : String) (texts : List String)
    → text_lt s t ≡ true
    → All (λ u. text_lt t u ≡ true) texts
    → All (λ u. text_lt s u ≡ true) texts
all_after s t [] h k = tt
all_after s t (u ∷ texts) h (k, ks) = (text_lt_trans s t u h k, all_after s t texts h ks)

after_other :
    (s t : String) (texts : List String)
    → one_of s (t ∷ texts) ≡ false
    → text_lt s t ≡ false
    → text_lt t s ≡ true
after_other s t texts other h = elim (text_lt_total s t h) [
  | inl e ↦ ground (arith, eq_iff s t)
  | inr before ↦ before
]

insert-IsIncreasing :
    (s : String) (texts : List String)
    → one_of s texts ≡ false
    → IsIncreasing texts
    → IsIncreasing (insert s texts)
insert-IsIncreasing s [] new h = (tt, tt)
insert-IsIncreasing s (t ∷ texts) new (h, hs) = elim (Bool-cases (text_lt s t)) [
  | inl before ↦ rw before ((before, all_after s t texts before h), (h, hs))
  | inr after ↦ rw after (
    insert-All (λ u. text_lt t u ≡ true) s texts (after_other s t texts new after) h,
    insert-IsIncreasing s texts (ground arith) hs,
  )
]

pub sorted-IsIncreasing :
    (members : List String) → IsUnique members → IsIncreasing (sorted_texts members)
sorted-IsIncreasing [] h = tt
sorted-IsIncreasing (s ∷ members) (new, h) =
    insert-IsIncreasing s (sorted_texts members) (one_of-sorted s members ∙ new)
      (sorted-IsIncreasing members h)
