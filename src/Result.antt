-- ===== src/Result.antt =====
-- A function that may raise returns a `Result`: `err` holds what it raised.
use ctf_plugin_docker_per_te.Prelude.{◌≡◌, refl, Bool, true, false}

pub data Result (E A : Type 0) : Type 0 where
  ok : A → Result E A
  err : E → Result E A

module _ {E : Type 0} where
  infixl 5 ◌>>=◌ ◌>>◌
  abbrev pub ◌>>=◌ : {A B : Type 0} → Result E A → (A → Result E B) → Result E B
  ok a >>= f = f a
  err e >>= f = err e

  abbrev pub ◌>>◌ : {A B : Type 0} → Result E A → Result E B → Result E B
  m >> k = m >>= λ _. k

  -- `if test: raise e`
  abbrev pub raise_if : Bool → E → Result E Unit
  raise_if true e = err e
  raise_if false e = ok tt

  -- A block that returns has passed its first test, and its rest returns.
  pub raise_if-passes :
      {A : Type 0} (test : Bool) (e : E) (rest : Result E A) {a : A}
      → (raise_if test e >> rest) ≡ ok a
      → (test ≡ false) × (rest ≡ ok a)
  raise_if-passes true e rest h = cc h
  raise_if-passes false e rest h = (refl, h)

  pub bind-eq-ok :
      {A B : Type 0} (m : Result E A) (f : A → Result E B) {b : B}
      → (m >>= f) ≡ ok b
      → (a : A) × (m ≡ ok a) × (f a ≡ ok b)
  bind-eq-ok (ok a) f h = (a, refl, h)
  bind-eq-ok (err e) f h = cc h

  pub raise_if_passes : (test : Bool) (e : E) → raise_if test e ≡ ok tt → test ≡ false
  raise_if_passes true e h = cc h
  raise_if_passes false e h = refl

  pub ok_injective : {A : Type 0} {a b : A} → ◌≡◌ {A = Result E A} (ok a) (ok b) → a ≡ b
  ok_injective h = cc h
