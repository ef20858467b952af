-- ===== src/Admin/LogSize.antt =====
-- admin_routes.py: a log size of the form, and its lower case that the runtime policy reads.
use ctf_plugin_docker_per_te.Prelude.{
  ℕ, ◌+◌, Char, code, String, ◌≡◌, refl, sym, ap, ap₂, ◌∙◌, subst, Bool, true, false, ◌&&◌, ◌||◌,
  leb, nat_eq, nat_eq_iff, if◌then◌else◌, List, [], ◌∷◌, ◌++◌, map, All, arith, Bool-cases, inl,
  inr,
}
use ctf_plugin_docker_per_te.Text.{lower, lower_char, same_char, any_char, all_chars}
use ctf_plugin_docker_per_te.Text.Laws.{same_char-eq}
use ctf_plugin_docker_per_te.Regex.{chars, star, codes, fullmatch}
use ctf_plugin_docker_per_te.Regex.Language.{
  Matches, of_chars, of_seq, of_done, of_more, fullmatch_iff, chars-inv, seq-inv,
}
use ctf_plugin_docker_per_te.Policy.Hardening.{is_digit_code, log_size_pattern}
use ctf_plugin_docker_per_te.Admin.{size_letter, submitted_size_pattern}

-- The codes of a size, and what `lower` makes of them.
abbrev in_size : ℕ → Bool
in_size n = is_digit_code n || size_letter n

abbrev lowered : ℕ → ℕ
lowered n = if leb n 57 then n else if leb 97 n then n else n + 32

abbrev size_alphabet : String
size_alphabet = "0123456789kKmMgG"

abbrev lowers_well : Char → Bool
lowers_well c = nat_eq (code (lower_char c)) (lowered (code c))

alphabet_lowers_well : all_chars lowers_well size_alphabet ≡ true
unfolding lower_char
alphabet_lowers_well = refl

-- What holds of every character of a text holds of a character that the text has.
both : (a b : Bool) → (a && b) ≡ true → (a ≡ true) × (b ≡ true)
both true b h = (refl, h)
both false b h = cc h

holds-among :
    (test : Char → Bool) (s : String) (c : Char)
    → all_chars test s ≡ true
    → any_char (same_char c) s ≡ true
    → test c ≡ true
holds-among test String.[] c all found = cc found
holds-among test (String.◌∷◌ d s) c all found = elim (Bool-cases (same_char c d)) [
  | inl same ↦ rw ((same_char-eq c d same)) (both (test d) _ all).0
  | inr differ ↦ holds-among test s c (both (test d) _ all).1 (rw differ at found)
]

in_size-alphabet :
    (c : Char) → in_size (code c) ≡ true → any_char (same_char c) size_alphabet ≡ true
in_size-alphabet c h = ground arith

lower-cons :
    (c : Char) (s : String)
    → nat_eq (code c) 0x130 ≡ false
    → lower (String.◌∷◌ c s) ≡ String.◌∷◌ (lower_char c) (lower s)
unfolding lower
lower-cons c s h = rw h refl

small_code : (n : ℕ) → in_size n ≡ true → nat_eq n 0x130 ≡ false
small_code n h = ground arith

codes-lower :
    (s : String) → All (λ n. in_size n ≡ true) (codes s) → codes (lower s) ≡ map lowered (codes s)
codes-lower String.[] all = unfold lower in refl
codes-lower (String.◌∷◌ c s) (here, all) =
    ap codes (lower-cons c s (small_code (code c) here))
    ∙ ap₂ ◌∷◌
        ((nat_eq_iff (code (lower_char c)) (lowered (code c))).0
          (holds-among lowers_well size_alphabet c alphabet_lowers_well (in_size-alphabet c here)))
        (codes-lower s all)

map-append : (f : ℕ → ℕ) (u v : List ℕ) → map f (u ++ v) ≡ map f u ++ map f v
map-append f [] v = refl
map-append f (n ∷ u) v = ap (◌∷◌ (f n)) (map-append f u v)

All-append : (P : ℕ → Type 0) (u v : List ℕ) → All P u → All P v → All P (u ++ v)
All-append P [] v h k = k
All-append P (n ∷ u) v (here, h) k = (here, All-append P u v h k)

module _ (p q : ℕ → Bool) (keeps : (n : ℕ) → p n ≡ true → q (lowered n) ≡ true) where
  chars-lowered : (w : List ℕ) → Matches (chars p) w → Matches (chars q) (map lowered w)
  chars-lowered w h =
      let (n, e, one) = chars-inv h in
      subst (λ v. Matches (chars q) (map lowered v)) (sym one) (of_chars (keeps n e))

  star-lowered :
      {w : List ℕ} → Matches (star (chars p)) w → Matches (star (chars q)) (map lowered w)
  star-lowered of_done = of_done
  star-lowered (of_more {n} {u} {v} {w} h k e) =
      let (m, here, one) = chars-inv h in
      of_more
        (subst (λ (x : List ℕ). Matches (chars q) (map lowered x)) (sym one)
          (of_chars (keeps m here)))
        (star-lowered k) (ap (map lowered) e ∙ map-append lowered (n ∷ u) v)

chars-All :
    (p : ℕ → Bool) (w : List ℕ)
    → ((n : ℕ) → p n ≡ true → in_size n ≡ true)
    → Matches (chars p) w
    → All (λ n. in_size n ≡ true) w
chars-All p w sizes h =
    let (n, here, one) = chars-inv h in
    subst (All (λ n. in_size n ≡ true)) (sym one) (sizes n here, tt)

star-All : {w : List ℕ} → Matches (star (chars is_digit_code)) w → All (λ n. in_size n ≡ true) w
star-All of_done = tt
star-All (of_more {n} {u} {v} {w} h k e) = subst (All (λ n. in_size n ≡ true)) (sym e) (
    All-append _ (n ∷ u) v (chars-All is_digit_code (n ∷ u) (λ n here. ground arith) h)
      (star-All k))

-- The lower-case form of a size that the form's pattern matches is matched by the policy's pattern.
pub fullmatch-lower :
    (s : String)
    → fullmatch submitted_size_pattern s ≡ true
    → fullmatch log_size_pattern (lower s) ≡ true
fullmatch-lower s h =
    let (u, rest, first, later, e) = seq-inv ((fullmatch_iff submitted_size_pattern s).0 h) in
    let (v, w, digits, letter, e') = seq-inv later in
    let sizes : All (λ n. in_size n ≡ true) (codes s) =
      subst (All (λ n. in_size n ≡ true)) (sym (e ∙ ap (λ (r : List ℕ). u ++ r) e')) (
        All-append _ u (v ++ w) (chars-All _ u (λ n here. ground arith) first) (
          All-append _ v w (star-All digits)
            (chars-All size_letter w (λ n here. ground arith) letter))) in
    (fullmatch_iff log_size_pattern (lower s)).1 (
      subst (Matches log_size_pattern)
        (sym (codes-lower s sizes ∙ ap (map lowered) e ∙ map-append lowered u rest))
        (of_seq (chars-lowered _ _ (λ n here. ground arith) u first)
          (of_seq (star-lowered _ _ (λ n here. ground arith) digits)
            (chars-lowered _ _ (λ n here. ground arith) w letter)
            (ap (map lowered) e' ∙ map-append lowered v w))
          refl))
