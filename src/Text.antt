-- ===== src/Text.antt =====
-- Python's `str` methods that the plugin calls, over the native texts.
pub mod Numbers
pub mod Laws
pub mod Cuts
pub mod Order
use Prim.Native.String.{[], ◌∷◌}
use mathlib.Core.List.{List}
use ctf_plugin_docker_per_te.Prelude.{
  ℕ, zero, suc, ◌+◌, ◌/◌, ◌%◌, Char, code, String, ◌≡◌, refl, Bool, true, false, not, ◌&&◌, ◌||◌,
  ltb, leb, nat_eq, if◌then◌else◌, Option, none, some, arith,
}

-- `str.isspace` of one character: the code points that Python takes for white space.
abbrev pub is_space_code : ℕ → Bool
is_space_code n =
    (leb 9 n && leb n 13)
    || (leb 28 n && leb n 32)
    || nat_eq n 0x85
    || nat_eq n 0xa0
    || nat_eq n 0x1680
    || (leb 0x2000 n && leb n 0x200a)
    || nat_eq n 0x2028
    || nat_eq n 0x2029
    || nat_eq n 0x202f
    || nat_eq n 0x205f
    || nat_eq n 0x3000

unfoldable pub is_space : Char → Bool
is_space c = is_space_code (code c)

abbrev pub same_char : Char → Char → Bool
same_char c d = nat_eq (code c) (code d)

-- `any(test(c) for c in s)` and `all(…)`
abbrev pub any_char : (Char → Bool) → String → Bool
any_char test [] = false
any_char test (c ∷ s) = test c || any_char test s

abbrev pub all_chars : (Char → Bool) → String → Bool
all_chars test [] = true
all_chars test (c ∷ s) = test c && all_chars test s

abbrev pub lstrip_by : (Char → Bool) → String → String
lstrip_by test [] = []
lstrip_by test (c ∷ s) = let rest = lstrip_by test s in if test c then rest else c ∷ s

abbrev pub rstrip_cons : (Char → Bool) → Char → String → String
rstrip_cons test c [] = if test c then [] else c ∷ []
rstrip_cons test c (d ∷ r) = c ∷ d ∷ r

abbrev pub rstrip_by : (Char → Bool) → String → String
rstrip_by test [] = []
rstrip_by test (c ∷ s) = rstrip_cons test c (rstrip_by test s)

-- `s.strip()`
unfoldable pub strip : String → String
strip s = rstrip_by is_space (lstrip_by is_space s)

-- `s.strip(mark)` and `s.rstrip(mark)` for one character
unfoldable pub strip_mark : Char → String → String
strip_mark mark s = rstrip_by (same_char mark) (lstrip_by (same_char mark) s)

unfoldable pub rstrip_mark : Char → String → String
rstrip_mark mark s = rstrip_by (same_char mark) s

-- `s.startswith(prefix)`
abbrev pub starts_with : String → String → Bool
starts_with s [] = true
starts_with [] (d ∷ prefix) = false
starts_with (c ∷ s) (d ∷ prefix) = same_char c d && starts_with s prefix

-- `s.endswith(last)` for one character
abbrev pub ends_with : Char → String → Bool
ends_with last [] = false
ends_with last (c ∷ []) = same_char c last
ends_with last (c ∷ d ∷ s) = ends_with last (d ∷ s)

-- `not s`
abbrev pub is_empty : String → Bool
is_empty [] = true
is_empty (c ∷ s) = false

-- `s.split(mark, 1)[0]`
abbrev pub before : Char → String → String
before mark [] = []
before mark (c ∷ s) = let rest = before mark s in if same_char c mark then [] else c ∷ rest

-- `s.split(mark, 1)[1]`, and the empty text where there is no mark
abbrev pub after : Char → String → String
after mark [] = []
after mark (c ∷ s) = let rest = after mark s in if same_char c mark then s else rest

-- `mark in s`
abbrev pub has_char : Char → String → Bool
has_char mark = any_char (λ c. same_char c mark)

-- `s.rpartition(mark)`: what stands behind the last mark (all of it, if there is none), and before it.
abbrev pub after_last : Char → String → String
after_last mark [] = []
after_last mark (c ∷ s) =
    let rest = after_last mark s in
    if has_char mark s then rest else if same_char c mark then s else c ∷ s

abbrev pub before_last : Char → String → String
before_last mark [] = []
before_last mark (c ∷ s) = let rest = before_last mark s in if has_char mark s then c ∷ rest else []

-- The characters up to the first that passes the test, and those from there on.
abbrev pub take_until : (Char → Bool) → String → String
take_until test [] = []
take_until test (c ∷ s) = let rest = take_until test s in if test c then [] else c ∷ rest

abbrev pub drop_until : (Char → Bool) → String → String
drop_until test [] = []
drop_until test (c ∷ s) = let rest = drop_until test s in if test c then c ∷ s else rest

-- `"".join(c for c in s if not test(c))`
abbrev pub without : (Char → Bool) → String → String
without test [] = []
without test (c ∷ s) = let rest = without test s in if test c then rest else c ∷ rest

-- The text behind a prefix that it starts with.
abbrev pub drop_prefix : String → String → String
drop_prefix s [] = s
drop_prefix [] (d ∷ prefix) = []
drop_prefix (c ∷ s) (d ∷ prefix) = drop_prefix s prefix

-- `value or ""`
abbrev pub or_empty : Option String → String
or_empty none = []
or_empty (some s) = s

-- `s.split(mark)`
abbrev push_front : Char → List String → List String
push_front c List.[] = List.◌∷◌ (c ∷ []) List.[]
push_front c (List.◌∷◌ s parts) = List.◌∷◌ (c ∷ s) parts

unfoldable pub split : Char → String → List String
split mark [] = List.◌∷◌ "" List.[]
split mark (c ∷ s) =
    let parts = split mark s in if same_char c mark then List.◌∷◌ "" parts else push_front c parts

-- The characters of the first text are replaced by those of the second at the same place.
translate : String → String → Char → Char
translate [] to c = c
translate (f ∷ from) [] c = c
translate (f ∷ from) (t ∷ to) c =
    let rest = translate from to c in if same_char f c then t else rest

unfoldable pub lower_char : Char → Char
unfolding translate
lower_char = translate "ABCDEFGHIJKLMNOPQRSTUVWXYZK" "abcdefghijklmnopqrstuvwxyzk"

-- `s.lower()` where it yields ASCII characters; the others that it changes are left as they are.
unfoldable pub lower : String → String
unfolding lower_char
lower [] = []
lower (c ∷ s) =
    let rest = lower s in if nat_eq (code c) 0x130 then "i" ∷ "̇" ∷ rest else lower_char c ∷ rest

unfoldable pub upper_char : Char → Char
unfolding translate
upper_char = translate "abcdefghijklmnopqrstuvwxyzıſ" "ABCDEFGHIJKLMNOPQRSTUVWXYZIS"

-- `s.upper()` on single letters; the letters beyond ASCII that stay outside it are left as they are.
unfoldable pub upper : String → String
unfolding upper_char
upper [] = []
upper (c ∷ s) = upper_char c ∷ upper s

-- `s < t` on texts, by code points
abbrev pub text_below : String → String → Bool
text_below s [] = false
text_below [] (c ∷ t) = true
text_below (c ∷ s) (e ∷ t) =
    let rest = text_below s t in
    if ltb (code c) (code e) then true else if nat_eq (code c) (code e) then rest else false

-- `s[i]`, with `0` beyond the end
char_of : String → ℕ → Char
char_of [] i = "0"
char_of (c ∷ s) zero = c
char_of (c ∷ s) (suc i) = char_of s i

-- `str(n)` of a number that is not negative: the digits, last digit first.
digit : ℕ → Char
digit = char_of "0123456789"

decimal_from : ℕ → ℕ → String → String
decimal_from zero n acc = acc
decimal_from (suc fuel) n acc =
    let rest = decimal_from fuel (n / 10) (digit (n % 10) ∷ acc) in
    if ltb n 10 then digit n ∷ acc else rest

-- The character of a text at a position, as a text.
abbrev pub char_at : String → ℕ → String
char_at [] n = ""
char_at (c ∷ s) zero = c ∷ ""
char_at (c ∷ s) (suc n) = char_at s n

unfoldable pub decimal : ℕ → String
unfolding decimal_from digit char_of
decimal n = decimal_from (suc n) n ""

tests :
    (strip "  a b \n" ≡ "a b")
    × (lower "AbZK9" ≡ "abzk9")
    × (decimal 1020 ≡ "1020")
    × (before ":" "host:80:1" ≡ "host")
    × (after ":" "host:80:1" ≡ "80:1")
unfolding strip is_space lower decimal
tests = (refl, refl, refl, refl, refl)
