-- ===== src/Text/Cuts.antt =====
-- Cutting a text that has, or has not, the characters at which it is cut.
use Prim.Native.String.{[], ◌∷◌, ◌++◌}
use text.Mathlib.TextLemmas.{nil-append, cons-append}
use ctf_plugin_docker_per_te.Prelude.{
  Char, String, ◌≡◌, refl, ap, ◌∙◌, Bool, true, false, ◌||◌, arith,
}
use ctf_plugin_docker_per_te.Text.{
  lstrip_by, rstrip_by, rstrip_cons, strip, is_space, same_char, before, after, has_char, any_char,
  after_last, before_last, take_until, drop_until, without,
}

-- A text with no white space is left as it is by stripping.
lstrip_by_of_none :
    (test : Char → Bool) (s : String) → any_char test s ≡ false → lstrip_by test s ≡ s
lstrip_by_of_none test [] h = refl
lstrip_by_of_none test (c ∷ s) h = ground arith

rstrip_cons_of_fails :
    (test : Char → Bool) (c : Char) (s : String) → test c ≡ false → rstrip_cons test c s ≡ c ∷ s
rstrip_cons_of_fails test c [] h = rw h
rstrip_cons_of_fails test c (d ∷ s) h = refl

rstrip_by_of_none :
    (test : Char → Bool) (s : String) → any_char test s ≡ false → rstrip_by test s ≡ s
rstrip_by_of_none test [] h = refl
rstrip_by_of_none test (c ∷ s) h =
    ap (rstrip_cons test c) (rstrip_by_of_none test s (ground arith))
    ∙ rstrip_cons_of_fails test c s (ground arith)

pub strip_of_solid : (s : String) → any_char is_space s ≡ false → strip s ≡ s
unfolding strip
strip_of_solid s h =
    ap (rstrip_by is_space) (lstrip_by_of_none is_space s h) ∙ rstrip_by_of_none is_space s h

-- The tests and cuts of a text that is two texts in a row.
pub any_char-append :
    (test : Char → Bool) (s t : String)
    → any_char test (s ++ t) ≡ (any_char test s || any_char test t)
any_char-append test [] t = rw nil-append
any_char-append test (c ∷ s) t = rw (cons-append, any_char-append test s t) (ground arith)

pub take_until_of_none :
    (test : Char → Bool) (s : String) → any_char test s ≡ false → take_until test s ≡ s
take_until_of_none test [] h = refl
take_until_of_none test (c ∷ s) h = rw (take_until_of_none test s (ground arith)) (ground arith)

pub drop_until_of_none :
    (test : Char → Bool) (s : String) → any_char test s ≡ false → drop_until test s ≡ ""
drop_until_of_none test [] h = refl
drop_until_of_none test (c ∷ s) h = rw (drop_until_of_none test s (ground arith)) (ground arith)

pub without_of_none :
    (test : Char → Bool) (s : String) → any_char test s ≡ false → without test s ≡ s
without_of_none test [] h = refl
without_of_none test (c ∷ s) h = rw (without_of_none test s (ground arith)) (ground arith)

pub before_of_none : (mark : Char) (s : String) → has_char mark s ≡ false → before mark s ≡ s
before_of_none mark [] h = refl
before_of_none mark (c ∷ s) h = rw (before_of_none mark s (ground arith)) (ground arith)

pub after_of_none : (mark : Char) (s : String) → has_char mark s ≡ false → after mark s ≡ ""
after_of_none mark [] h = refl
after_of_none mark (c ∷ s) h = rw (after_of_none mark s (ground arith)) (ground arith)

same_char_refl : (c : Char) → same_char c c ≡ true
same_char_refl c = ground arith

pub has_char-append_mark : (mark : Char) (s t : String) → has_char mark (s ++ mark ∷ t) ≡ true
has_char-append_mark mark s t =
    rw (any_char-append (λ c. same_char c mark) s (mark ∷ t)) (ground (arith, same_char_refl mark))

-- `rpartition` at a mark that the part behind it does not have.
pub after_last-append :
    (mark : Char) (s t : String) → has_char mark t ≡ false → after_last mark (s ++ mark ∷ t) ≡ t
after_last-append mark [] t h = rw nil-append (rw (h, same_char_refl mark))
after_last-append mark (c ∷ s) t h =
    rw cons-append (rw (has_char-append_mark mark s t) (after_last-append mark s t h))

pub before_last-append :
    (mark : Char) (s t : String) → has_char mark t ≡ false → before_last mark (s ++ mark ∷ t) ≡ s
before_last-append mark [] t h = rw nil-append (rw h)
before_last-append mark (c ∷ s) t h =
    rw cons-append (rw (has_char-append_mark mark s t) (ap (◌∷◌ c) (before_last-append mark s t h)))

-- A test that implies another fails where that fails everywhere.
pub any_char_mono :
    (test other : Char → Bool)
    → ((c : Char) → other c ≡ true → test c ≡ true)
    → (s : String) → any_char test s ≡ false
    → any_char other s ≡ false
any_char_mono test other implies [] h = refl
any_char_mono test other implies (c ∷ s) h =
    ground (arith, implies c, any_char_mono test other implies s)
