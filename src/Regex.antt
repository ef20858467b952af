-- ===== src/Regex.antt =====
-- Python's `re` on the patterns that the plugin uses: regular expressions over code points, matched
-- by derivatives. The proofs that the matcher decides the language of an expression are in
-- Regex/Language.
pub mod Language
pub mod Search
use Prim.Native.String
use ctf_plugin_docker_per_te.Prelude.{
  ℕ, zero, suc, code, String, ◌≡◌, refl, Bool, true, false, ◌&&◌, ◌||◌, List, [], ◌∷◌, leb, nat_eq,
  if◌then◌else◌,
}

pub data Regex : Type 0 where
  nothing : Regex
  empty : Regex
  chars : (ℕ → Bool) → Regex
  seq : Regex → Regex → Regex
  alt : Regex → Regex → Regex
  star : Regex → Regex

-- `r{0,n}` and `r{n}`
abbrev pub up_to : ℕ → Regex → Regex
up_to zero r = empty
up_to (suc n) r = alt empty (seq r (up_to n r))

abbrev pub exactly : ℕ → Regex → Regex
exactly zero r = empty
exactly (suc n) r = seq r (exactly n r)

-- one given character, and a text character by character
abbrev pub literal : ℕ → Regex
literal n = chars (nat_eq n)

abbrev pub codes : String → List ℕ
codes String.[] = []
codes (String.◌∷◌ c s) = code c ∷ codes s

abbrev pub literals : List ℕ → Regex
literals [] = empty
literals (n ∷ ns) = seq (literal n) (literals ns)

nullable : Regex → Bool
nullable nothing = false
nullable empty = true
nullable (chars p) = false
nullable (seq r s) = nullable r && nullable s
nullable (alt r s) = nullable r || nullable s
nullable (star r) = true

-- A sequence and a choice, with what cannot match left out.
abbrev seq' : Regex → Regex → Regex
seq' nothing s = nothing
seq' empty s = s
seq' r s = seq r s

abbrev is_nothing : Regex → Bool
is_nothing nothing = true
is_nothing _ = false

abbrev alt' : Regex → Regex → Regex
alt' r s = if is_nothing r then s else if is_nothing s then r else alt r s

-- What is left to match after the character `n`.
derive : ℕ → Regex → Regex
derive n nothing = nothing
derive n empty = nothing
derive n (chars p) = if p n then empty else nothing
derive n (seq r s) =
    let first = seq' (derive n r) s in
    let second = derive n s in if nullable r then alt' first second else first
derive n (alt r s) = alt' (derive n r) (derive n s)
derive n (star r) = seq' (derive n r) (star r)

pub matches : Regex → List ℕ → Bool
matches r [] = nullable r
matches r (n ∷ w) = matches (derive n r) w

-- `pattern.fullmatch(s)`
unfoldable pub fullmatch : Regex → String → Bool
unfolding matches nullable derive
fullmatch r s = matches r (codes s)

-- A match that begins anywhere and ends at the end of the text, or before a last line feed:
-- `pattern.search(s)` for a pattern that ends in `$`.
ends_match : Regex → List ℕ → Bool
ends_match r [] = nullable r
ends_match r (n ∷ w) = matches r (n ∷ w) || matches (seq r (literal 10)) (n ∷ w) || ends_match r w

unfoldable pub search_end : Regex → String → Bool
unfolding ends_match matches nullable derive
search_end r s = ends_match r (codes s)
