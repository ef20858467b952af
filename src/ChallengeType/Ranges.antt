-- ===== src/ChallengeType/Ranges.antt =====
-- What a stored challenge payload is like.
use ctf_plugin_docker_per_te.Prelude.{
  ℕ, ◌≤◌, ◌≡◌, refl, String, Bool, true, false, not, inl, inr, Option, none, some, List, [], ◌∷◌,
  keep, All, OneOf, one_of_sound, Dict, get, arith, Bool-cases, subst, leb→le,
}
use ctf_plugin_docker_per_te.Text.Numbers.{ℤ}
use ctf_plugin_docker_per_te.Result.{ok}
use ctf_plugin_docker_per_te.ChallengeType.{
  Value, null, text, number, truth, other, PayloadError, is_true, required_fields, between,
  not_negative, at_most, text_in, fails, fails_both, raise_first, range_checks, missing_of,
  nonempty,
}

abbrev pub Within : ℕ → ℕ → Value → Type 0
Within low high v = (n : ℕ) × (v ≡ number (ℤ.pos n)) × (low ≤ n) × (n ≤ high)

abbrev pub NotNegative : Value → Type 0
NotNegative v = (n : ℕ) × (v ≡ number (ℤ.pos n))

abbrev pub AtMost : Value → Value → Type 0
AtMost u v = (m : ℕ) × (n : ℕ) × (u ≡ number (ℤ.pos m)) × (v ≡ number (ℤ.pos n)) × (m ≤ n)

abbrev pub Among : List String → Value → Type 0
Among choices v = (s : String) × (v ≡ text s) × OneOf s choices

-- What holds of a field, if it is there.
abbrev pub Given : (Value → Type 0) → Option Value → Type 0
Given P none = Unit {0}
Given P (some v) = P v

abbrev pub BothGiven : (Value → Value → Type 0) → Option Value → Option Value → Type 0
BothGiven P (some u) (some v) = P u v
BothGiven P _ _ = Unit {0}

pub record InRange (creation : Bool) (n : Dict Value) : Type 0 where
  pub required : creation ≡ true → All (λ field. is_true (get n field) ≡ true) required_fields
  pub type_container : Given (Among ("container" ∷ [])) (get n "type")
  pub port : Given (Within 1 65535) (get n "port")
  pub initial : Given NotNegative (get n "initial")
  pub minimum : Given NotNegative (get n "minimum")
  pub ordered : BothGiven AtMost (get n "minimum") (get n "initial")
  pub decay : Given (Within 1 100) (get n "decay")
  pub random_flag_length : Given (Within 1 128) (get n "random_flag_length")
  pub connection_type : Given (Among ("tcp" ∷ "web" ∷ [])) (get n "connection_type")
  pub flag_mode : Given (Among ("static" ∷ "random" ∷ [])) (get n "flag_mode")

between-Within : (low high : ℕ) (v : Value) → between low high v ≡ true → Within low high v
between-Within low high null h = cc h
between-Within low high (text s) h = cc h
between-Within low high (number (ℤ.pos n)) h = (n, refl, ground arith, ground arith)
between-Within low high (number (ℤ.negsuc n)) h = cc h
between-Within low high (truth b) h = cc h
between-Within low high (other s b i) h = cc h

not_negative_lem : (v : Value) → not_negative v ≡ true → NotNegative v
not_negative_lem null h = cc h
not_negative_lem (text s) h = cc h
not_negative_lem (number (ℤ.pos n)) h = (n, refl)
not_negative_lem (number (ℤ.negsuc n)) h = cc h
not_negative_lem (truth b) h = cc h
not_negative_lem (other s b i) h = cc h

text_in-Among : (choices : List String) (v : Value) → text_in choices v ≡ true → Among choices v
text_in-Among choices null h = cc h
text_in-Among choices (text s) h = (s, refl, one_of_sound s choices h)
text_in-Among choices (number n) h = cc h
text_in-Among choices (truth b) h = cc h
text_in-Among choices (other s b i) h = cc h

fails-Given :
    (P : Value → Type 0) (test : Value → Bool) (o : Option Value)
    → ((v : Value) → test v ≡ true → P v)
    → fails test o ≡ false
    → Given P o
fails-Given P test none sound h = tt
fails-Given P test (some v) sound h = sound v (ground arith)

at_most-AtMost : (u v : Value) → NotNegative u → NotNegative v → at_most u v ≡ true → AtMost u v
at_most-AtMost u v (m, e) (n, e') h = (m, n, e, e', leb→le m n (rw (e, e') at h))

both-AtMost :
    (u v : Option Value)
    → Given NotNegative u
    → Given NotNegative v
    → fails_both at_most u v ≡ false
    → BothGiven AtMost u v
both-AtMost none v lowest highest h = tt
both-AtMost (some u) none lowest highest h = tt
both-AtMost (some u) (some v) lowest highest h = at_most-AtMost u v lowest highest (ground arith)

pub kept_none :
    (test : String → Bool) (xs : List String)
    → nonempty (keep (λ x. not (test x)) xs) ≡ false
    → All (λ x. test x ≡ true) xs
kept_none test [] h = tt
kept_none test (x ∷ xs) h = elim (Bool-cases (test x)) [
  | inl e ↦ (e, kept_none test xs (rw e at h))
  | inr e ↦ cc (rw e at h)
]

-- The checks pass only if no test holds.
pub raise_first-passes :
    (checks : List (Bool × PayloadError))
    → raise_first checks ≡ ok tt
    → All (λ c. c.0 ≡ false) checks
unfolding raise_first
raise_first-passes [] h = tt
raise_first-passes ((true, e) ∷ checks) h = cc h
raise_first-passes ((false, e) ∷ checks) h = (refl, raise_first-passes checks h)

-- A payload that passes the checks has its numbers in range and its choices among those offered,
-- and on creation no required field is empty.
pub range_checks-InRange :
    (creation : Bool) (n : Dict Value)
    → raise_first (range_checks creation n) ≡ ok tt
    → InRange creation n
range_checks-InRange creation n h =
    let (
      required,
      (
        is_container,
        (port, (initial, (minimum, (ordered, (decay, (length, (connection, (mode, _)))))))),
      ),
    ) =
      raise_first-passes (range_checks creation n) h in
    let lowest = fails-Given NotNegative not_negative (get n "minimum") not_negative_lem minimum in
    let highest = fails-Given NotNegative not_negative (get n "initial") not_negative_lem initial in
    record {
      required = λ e.
          kept_none (λ field. is_true (get n field)) required_fields
            (subst (λ c. nonempty (missing_of c n) ≡ false) e required);
      type_container =
          fails-Given _ _ (get n "type") (text_in-Among ("container" ∷ [])) is_container;
      port = fails-Given _ _ (get n "port") (between-Within 1 65535) port;
      initial = highest;
      minimum = lowest;
      ordered = both-AtMost (get n "minimum") (get n "initial") lowest highest ordered;
      decay = fails-Given _ _ (get n "decay") (between-Within 1 100) decay;
      random_flag_length =
          fails-Given _ _ (get n "random_flag_length") (between-Within 1 128) length;
      connection_type =
          fails-Given _ _ (get n "connection_type") (text_in-Among ("tcp" ∷ "web" ∷ [])) connection;
      flag_mode =
          fails-Given _ _ (get n "flag_mode") (text_in-Among ("static" ∷ "random" ∷ [])) mode;
    }
