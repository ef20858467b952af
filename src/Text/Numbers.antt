-- ===== src/Text/Numbers.antt =====
-- `int(text)`, and what `str(n)` and `int` have to do with each other.
use Prim.Native.String.{[], ◌∷◌}
use ctf_plugin_docker_per_te.Prelude.{
  ℕ, zero, suc, ◌+◌, ◌-◌, ◌*◌, ◌/◌, ◌%◌, ◌<◌, Char, code, String, ◌≡◌, refl, sym, ap, ◌∙◌, Bool,
  true, false, ◌&&◌, ltb, leb, nat_eq, nat_eq_iff, if◌then◌else◌, Option, none, some, arith, inl,
  inr, Bool-cases, subst,
}
use ctf_plugin_docker_per_te.Text.{
  digit, decimal, decimal_from, strip, is_space, all_chars, char_of,
}

-- A Python int; `negsuc n` is -(n + 1).
pub data ℤ : Type 0 where
  pos : ℕ → ℤ
  negsuc : ℕ → ℤ

-- `0 < z`, and `z` as a number where it is not negative
abbrev pub is_positive : ℤ → Bool
is_positive (pos n) = ltb 0 n
is_positive (negsuc n) = false

abbrev pub to_ℕ : ℤ → ℕ
to_ℕ (pos n) = n
to_ℕ (negsuc n) = 0

abbrev pub negate : ℕ → ℤ
negate zero = pos 0
negate (suc n) = negsuc n

abbrev pub is_digit : Char → Bool
is_digit c = leb 48 (code c) && leb (code c) 57

-- Digits with single underscores between them; the flag says whether a digit came last.
abbrev digits_value : Bool → ℕ → String → Option ℕ
digits_value true n [] = some n
digits_value false n [] = none
digits_value last n (c ∷ s) =
    let more = digits_value true (n * 10 + (code c - 48)) s in
    let skipped = digits_value false n s in
    if is_digit c then more else if last && nat_eq (code c) 95 then skipped else none

abbrev map_option : (ℕ → ℤ) → Option ℕ → Option ℤ
map_option f none = none
map_option f (some n) = some (f n)

abbrev signed_value : String → Option ℤ
signed_value [] = none
signed_value (c ∷ s) =
    if nat_eq (code c) 43
    then map_option pos (digits_value false 0 s)
    else if nat_eq (code c) 45
    then map_option negate (digits_value false 0 s)
    else map_option pos (digits_value false 0 (c ∷ s))

-- `int(text)`; `none` is the ValueError
unfoldable pub int : String → Option ℤ
unfolding strip is_space
int s = signed_value (strip s)

int_tests :
    (int " 1_000\n" ≡ some (pos 1000))
    × (int "-07" ≡ some (negsuc 6))
    × (int "1__0" ≡ none)
    × (int "" ≡ none)
    × (int "+" ≡ none)
    × (int "1.5" ≡ none)
unfolding int
int_tests = (refl, refl, refl, refl, refl, refl)

-- The digits as a plain number, read from the left.
abbrev pub value_from : ℕ → String → ℕ
value_from n [] = n
value_from n (c ∷ s) = value_from (n * 10 + (code c - 48)) s

both : (a b : Bool) → (a && b) ≡ true → (a ≡ true) × (b ≡ true)
both a b h = ground arith

-- Do the first `count` digits have the codes of the characters from `0` on?
digit_codes : ℕ → Bool
digit_codes zero = true
digit_codes (suc count) = digit_codes count && nat_eq (code (digit count)) (48 + count)

digit_codes_hold : digit_codes 10 ≡ true
unfolding digit_codes digit char_of
digit_codes_hold = refl

code-digit_among : (count n : ℕ) → digit_codes count ≡ true → n < count → code (digit n) ≡ 48 + n
unfolding digit_codes
code-digit_among zero n hold small = absurd (omega arith)
code-digit_among (suc count) n hold small =
    let (earlier, last) =
      both (digit_codes count) (nat_eq (code (digit count)) (48 + count)) hold in
    elim (Bool-cases (nat_eq n count)) [
      | inl here ↦
          let same : count ≡ n = sym ((nat_eq_iff n count).0 here) in
          subst (λ k. code (digit k) ≡ 48 + k) same
            ((nat_eq_iff (code (digit count)) (48 + count)).0 last)
      | inr other ↦ code-digit_among count n earlier (ground arith)
    ]

code-digit : (n : ℕ) → n < 10 → code (digit n) ≡ 48 + n
code-digit n h = code-digit_among 10 n digit_codes_hold h

value_step :
    (a n : ℕ) (acc : String) → n < 10 → value_from a (digit n ∷ acc) ≡ value_from (a * 10 + n) acc
value_step a n acc h =
    ap (λ k. value_from (a * 10 + (k - 48)) acc) (code-digit n h)
    ∙ ap (λ k. value_from (a * 10 + k) acc) (omega arith)

decimal_from_value :
    (fuel n : ℕ) (acc : String)
    → n < fuel
    → value_from 0 (decimal_from fuel n acc) ≡ value_from n acc
unfolding decimal_from
decimal_from_value zero n acc h = absurd (omega arith)
decimal_from_value (suc fuel) n acc h = elim (Bool-cases (ltb n 10)) [
  | inl small ↦
      rw small (value_step 0 n acc (ground arith) ∙ ap (λ k. value_from k acc) (omega arith))
  | inr large ↦ rw large (
      decimal_from_value fuel (n / 10) (digit (n % 10) ∷ acc) (ground arith)
      ∙ value_step (n / 10) (n % 10) acc (omega arith)
      ∙ ap (λ k. value_from k acc) (omega arith))
]

-- `str` of a number has the number's value.
pub decimal_value : (n : ℕ) → value_from 0 (decimal n) ≡ n
unfolding decimal
decimal_value n = decimal_from_value (suc n) n "" (omega arith)

pub decimal_injective : (n m : ℕ) → decimal n ≡ decimal m → n ≡ m
decimal_injective n m h = sym (decimal_value n) ∙ ap (value_from 0) h ∙ decimal_value m

-- Every character of `str(n)` is a digit.
is_digit-digit : (n : ℕ) → n < 10 → is_digit (digit n) ≡ true
is_digit-digit n h = ground (arith, code-digit n h)

decimal_from_digits :
    (fuel n : ℕ) (acc : String)
    → n < fuel
    → all_chars is_digit acc ≡ true
    → all_chars is_digit (decimal_from fuel n acc) ≡ true
unfolding decimal_from
decimal_from_digits zero n acc h d = absurd (omega arith)
decimal_from_digits (suc fuel) n acc h d = elim (Bool-cases (ltb n 10)) [
  | inl small ↦ rw small (rw (is_digit-digit n (ground arith)) d)
  | inr large ↦ rw large (
      decimal_from_digits fuel (n / 10) (digit (n % 10) ∷ acc) (ground arith)
        (rw (is_digit-digit (n % 10) (omega arith)) d))
]

pub decimal_digits : (n : ℕ) → all_chars is_digit (decimal n) ≡ true
unfolding decimal
decimal_digits n = decimal_from_digits (suc n) n "" (omega arith) refl
