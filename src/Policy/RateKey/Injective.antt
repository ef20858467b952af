-- ===== src/Policy/RateKey/Injective.antt =====
-- runtime_policy.py: which accounts and endpoints have which rate-limit keys.
use text.Mathlib.TextLemmas.{append_cancel_left, tail-eq_of_cons-eq}
use ctf_plugin_docker_per_te.Prelude.{
  ℕ, Char, String, ◌≡◌, refl, sym, ap, ◌∙◌, Bool, true, false, not, Option, none, some, arith,
  eq_iff,
}
use ctf_plugin_docker_per_te.Text.{
  strip, or_empty, decimal, before, after, has_char, same_char, is_empty,
}
use ctf_plugin_docker_per_te.Text.Laws.{before-append, after-append, any_char_of_all}
use ctf_plugin_docker_per_te.Text.Numbers.{
  ℤ, pos, negsuc, is_positive, to_ℕ, is_digit, decimal_injective, decimal_digits,
}
use ctf_plugin_docker_per_te.Result.{ok, raise_if-passes}
use ctf_plugin_docker_per_te.Policy.RateKey.{
  scope, join, account_rate_limit_key, or_default, default_key_prefix,
}

-- Two joined texts whose fronts have no colon are equal only part by part.
join_injective :
    (s t u v : String)
    → has_char ":" s ≡ false
    → has_char ":" t ≡ false
    → join s u ≡ join t v
    → (s ≡ t) × (u ≡ v)
join_injective s t u v hs ht e = (
  sym (before-append ":" s u hs) ∙ ap (before ":") e ∙ before-append ":" t v ht,
  sym (after-append ":" s u hs) ∙ ap (after ":") e ∙ after-append ":" t v ht,
)

digit_is_no_colon : (c : Char) → is_digit c ≡ true → same_char c ":" ≡ false
digit_is_no_colon c h = ground arith

decimal_no_colon : (n : ℕ) → has_char ":" (decimal n) ≡ false
decimal_no_colon n =
    any_char_of_all is_digit (λ c. same_char c ":") digit_is_no_colon (decimal n) (decimal_digits n)

scope_no_colon : (is_team : Bool) → has_char ":" (scope is_team) ≡ false
scope_no_colon true = refl
scope_no_colon false = refl

scope_injective : (a b : Bool) → scope a ≡ scope b → a ≡ b
scope_injective true true e = refl
scope_injective false false e = refl
scope_injective true false e = cc ((eq_iff "team" "user").1 e)
scope_injective false true e = cc ((eq_iff "user" "team").1 e)

positive_injective :
    (m n : ℤ) → is_positive m ≡ true → is_positive n ≡ true → to_ℕ m ≡ to_ℕ n → m ≡ n
positive_injective (pos m) (pos n) p q e = ap pos e
positive_injective (negsuc m) n p q e = cc p
positive_injective (pos m) (negsuc n) p q e = cc q

-- What a key is made of.
abbrev key_of : ℤ → Bool → Option String → Option String → String
key_of n is_team endpoint key_prefix =
    join (strip (or_default default_key_prefix (or_empty key_prefix)))
      (join (scope is_team) (join (decimal (to_ℕ n)) (strip (or_empty endpoint))))

key_inv :
    (id : Option ℤ) (is_team : Bool) (endpoint key_prefix : Option String) (key : String)
    → account_rate_limit_key id is_team endpoint key_prefix ≡ ok key
    → (n : ℤ) × (id ≡ some n)
      × (is_positive n ≡ true)
      × (key ≡ key_of n is_team endpoint key_prefix)
unfolding account_rate_limit_key
key_inv none is_team endpoint key_prefix key h = cc h
key_inv (some n) is_team endpoint key_prefix key h =
    let (positive, h1) = raise_if-passes (not (is_positive n)) _ _ h in
    let (filled, h2) = raise_if-passes (is_empty (strip (or_empty endpoint))) _ _ h1 in
    (n, refl, ground arith, cc h2)

-- Under one prefix, two calls give the same key only for the same account id, of the same kind
-- (team or user), at the same endpoint: no account uses up another's requests.
pub account_rate_limit_key_injective :
    (id id' : Option ℤ) (is_team is_team' : Bool) (endpoint endpoint' key_prefix : Option String)
    (key : String)
    → account_rate_limit_key id is_team endpoint key_prefix ≡ ok key
    → account_rate_limit_key id' is_team' endpoint' key_prefix ≡ ok key
    → (id ≡ id') × (is_team ≡ is_team') × (strip (or_empty endpoint) ≡ strip (or_empty endpoint'))
account_rate_limit_key_injective id id' is_team is_team' endpoint endpoint' key_prefix key h h' =
    let (n, there, positive, e) = key_inv id is_team endpoint key_prefix key h in
    let (n', there', positive', e') = key_inv id' is_team' endpoint' key_prefix key h' in
    let behind = tail-eq_of_cons-eq (append_cancel_left _ _ _ (sym e ∙ e')) in
    let (scopes, rest) =
      join_injective _ _ _ _ (scope_no_colon is_team) (scope_no_colon is_team') behind in
    let (ids, endpoints) =
      join_injective _ _ _ _ (decimal_no_colon (to_ℕ n)) (decimal_no_colon (to_ℕ n')) rest in
    let same = positive_injective n n' positive positive' (decimal_injective _ _ ids) in
    (there ∙ ap some same ∙ sym there', scope_injective is_team is_team' scopes, endpoints)
