-- ===== src/Prelude/Lists.antt =====
-- Lists as the Python code uses them, over the native numbers, and a dict as an association list.
use Prim.Native.Nat.{ℕ, suc}
use Prim.Native.String.{String}
use mathlib.Core.Path.{◌≡◌}
use mathlib.Core.Logic.{◌⊎◌}
use mathlib.Core.Bool.{Bool, true, false, ◌&&◌, ◌||◌}
use mathlib.Core.List.{List, [], ◌∷◌}
use mathlib.Core.Option.{Option, none, some}
use native.Mathlib.Omega.{arith}
use text.Mathlib.Text.{◌==◌}
use text.Mathlib.TextEquality.{eq_iff}
use ctf_plugin_docker_per_te.Prelude.Tests.{if◌then◌else◌}

module _ {ℓ} {A : Type ℓ} where
  abbrev pub length : List A → ℕ
  length [] = 0
  length (x ∷ xs) = suc (length xs)

  -- `all(test(x) for x in xs)`
  abbrev pub all : (A → Bool) → List A → Bool
  all test [] = true
  all test (x ∷ xs) = test x && all test xs

  -- `any(test(x) for x in xs)`
  abbrev pub any : (A → Bool) → List A → Bool
  any test [] = false
  any test (x ∷ xs) = test x || any test xs

  -- `[x for x in xs if test(x)]`
  abbrev pub keep : (A → Bool) → List A → List A
  keep test [] = []
  keep test (x ∷ xs) = let rest = keep test xs in if test x then x ∷ rest else rest

  -- `.first()` of a query, `next((x for x in xs if test(x)), None)`
  abbrev pub first : (A → Bool) → List A → Option A
  first test [] = none
  first test (x ∷ xs) = let rest = first test xs in if test x then some x else rest

  -- A predicate of every element, by recursion.
  abbrev pub All {κ} : (A → Type κ) → List A → Type κ
  All P [] = Unit
  All P (x ∷ xs) = P x × All P xs

  abbrev pub or_else : Option A → Option A → Option A
  or_else none other = other
  or_else (some x) other = some x

-- Membership as a type by recursion.
abbrev pub In : {A : Type 0} → A → List A → Type 0
In x [] = ⊥
In x (y ∷ ys) = (x ≡ y) ⊎ In x ys

-- `value in {a, b, …}` on texts
abbrev pub one_of : String → List String → Bool
one_of s [] = false
one_of s (t ∷ ts) = s == t || one_of s ts

-- Membership as a type by recursion, which computes to a sum.
abbrev pub OneOf : String → List String → Type 0
OneOf s [] = ⊥
OneOf s (t ∷ ts) = (s ≡ t) ⊎ OneOf s ts

pub one_of_sound : (s : String) (ts : List String) → one_of s ts ≡ true → OneOf s ts
one_of_sound s [] h = absurd (ground arith)
one_of_sound s (t ∷ ts) h = ground (arith, eq_iff s t, one_of_sound s ts)

pub one_of_complete : (s : String) (ts : List String) → OneOf s ts → one_of s ts ≡ true
one_of_complete s [] h = absurd h
one_of_complete s (t ∷ ts) h = ground (arith, eq_iff s t, one_of_complete s ts)

-- A Python dict with text keys.
abbrev pub Dict {ℓ} : Type ℓ → Type ℓ
Dict V = List (String × V)

module _ {ℓ} {V : Type ℓ} where
  -- `d.get(key)`
  abbrev pub get : Dict V → String → Option V
  get [] key = none
  get ((k, v) ∷ d) key = let rest = get d key in if k == key then some v else rest

  -- `d[key] = value`
  abbrev pub put : Dict V → String → V → Dict V
  put [] key value = (key, value) ∷ []
  put ((k, v) ∷ d) key value =
      let rest = put d key value in if k == key then (k, value) ∷ d else (k, v) ∷ rest

  pub get-put :
      (d : Dict V) (key other : String) (value : V)
      → get (put d key value) other ≡ (if key == other then some value else get d other)
  get-put [] key other value = ground arith
  get-put ((k, v) ∷ d) key other value =
      ground (arith, eq_iff k key, eq_iff k other, eq_iff key other, get-put d key other value)

  -- A dict has no key twice.
  abbrev pub Distinct : Dict V → Type ℓ
  Distinct [] = Unit
  Distinct ((k, v) ∷ d) = (get d k ≡ none) × Distinct d
