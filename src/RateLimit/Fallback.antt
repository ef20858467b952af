-- ===== src/RateLimit/Fallback.antt =====
-- The counters of a single process: each call puts off the end of the count.
use ctf_plugin_docker_per_te.Prelude.{
  ℕ, suc, ◌+◌, ◌-◌, ◌*◌, ◌≤◌, ◌<◌, ◌≡◌, ◌≢◌, refl, sym, ap, ◌∙◌, String, true, false, leb, ◌==◌,
  none, some, List, [], ◌∷◌, arith, eq_iff, Bool-cases, inl, inr, if◌then◌else◌, subst,
}
use ctf_plugin_docker_per_te.RateLimit.{
  live, Backend, IsCache, local_increment, increment_rate_limit,
}
use ctf_plugin_docker_per_te.RateLimit.Window.{admitted}
use ctf_plugin_docker_per_te.RateLimit.Refinement.{Calls, times_of, answers}

-- No call comes as long as `length_of` after the one before it.
abbrev pub Close : ℕ → ℕ → List ℕ → Type 0
Close length_of before [] = Unit {0}
Close length_of before (now ∷ times) = (now < before + length_of) × Close length_of now times

times_of-own :
    (key k : String) (now : ℕ) (calls : Calls)
    → (k == key) ≡ true
    → times_of key ((k, now) ∷ calls) ≡ now ∷ times_of key calls
unfolding times_of
times_of-own key k now calls same = rw same refl

times_of-other :
    (key k : String) (now : ℕ) (calls : Calls)
    → (k == key) ≡ false
    → times_of key ((k, now) ∷ calls) ≡ times_of key calls
unfolding times_of
times_of-other key k now calls differ = rw differ refl

-- One more call, counted `n + 1`, and those after it.
count_step :
    (limit n others : ℕ)
    → others ≤ limit - suc n
    → (if leb (suc n) limit then 1 else 0) + others ≤ limit - n
count_step limit n others h = ground arith

module _ {S : Type 0} (backend : Backend S) (interval : ℕ) (cache : IsCache backend)
    (no_redis : backend.has_redis ≡ false) where
  next_count :
      (key : String) (now : ℕ) (s : S) (n end_of : ℕ)
      → now < end_of
      → backend.entry s key ≡ some (n, some end_of)
      → ((increment_rate_limit backend key interval now s).0 ≡ suc n)
        × (backend.entry (increment_rate_limit backend key interval now s).1 key
            ≡ some (suc n, some (now + 1000 * interval)))
  unfolding increment_rate_limit
  next_count key now s n end_of early e = rw no_redis (
      ground (
        arith,
        cache.cache_get_lem key now s,
        ap (live now) e,
        cache.entry-cache_set key (suc n) interval now s key,
        eq_iff key key,
      ))

  first_count :
      (key : String) (now : ℕ) (s : S)
      → backend.entry s key ≡ none
      → ((increment_rate_limit backend key interval now s).0 ≡ 1)
        × (backend.entry (increment_rate_limit backend key interval now s).1 key
            ≡ some (1, some (now + 1000 * interval)))
  unfolding increment_rate_limit
  first_count key now s e = rw no_redis (
      ground (
        arith,
        cache.cache_get_lem key now s,
        ap (live now) e,
        cache.entry-cache_set key 1 interval now s key,
        eq_iff key key,
      ))

  other_count :
      (key other : String) (now : ℕ) (s : S)
      → key ≢ other
      → backend.entry (increment_rate_limit backend key interval now s).1 other
        ≡ backend.entry s other
  unfolding increment_rate_limit
  other_count key other now s ne = rw no_redis (
      ground (
        arith,
        cache.entry-cache_set key ((local_increment backend key interval now s).0) interval now s
            other,
        eq_iff key other,
      ))

  -- The counts go on from `n`, so that only the rest of the limit is left.
  admitted_from :
      (key : String) (limit before n : ℕ) (calls : Calls) (s : S)
      → Close (1000 * interval) before (times_of key calls)
      → backend.entry s key ≡ some (n, some (before + 1000 * interval))
      → admitted limit (answers backend interval key calls s) ≤ limit - n
  unfolding answers times_of admitted
  admitted_from key limit before n [] s close e = omega arith
  admitted_from key limit before n ((k, now) ∷ calls) s close e = elim (Bool-cases (k == key)) [
    | inl same ↦
        let to_key = (eq_iff k key).0 same in
        let (early, later) =
          subst (Close (1000 * interval) before) (times_of-own key k now calls same) close in
        let step =
          next_count k now s n (before + 1000 * interval) early (ap (backend.entry s) to_key ∙ e) in
        let rest =
          admitted_from key limit now (suc n) calls
            (increment_rate_limit backend k interval now s).1 later
            (ap (backend.entry (increment_rate_limit backend k interval now s).1) (sym to_key)
              ∙ step.1) in
        rw (same, step.0) (count_step limit n _ rest)
    | inr differ ↦ rw differ (
        admitted_from key limit before n calls (increment_rate_limit backend k interval now s).1
          (subst (Close (1000 * interval) before) (times_of-other key k now calls differ) close)
          (other_count k key now s (λ p. cc (differ, (eq_iff k key).1 p)) ∙ e))
  ]

  -- In the fallback, an account that never waits for a whole interval between two of its calls is
  -- let pass no more than the limit's times, for as long as it goes on; other keys do not matter.
  pub locked_out :
      (key : String) (limit start : ℕ) (calls : Calls) (s : S)
      → backend.entry s key ≡ none
      → Close (1000 * interval) start (times_of key calls)
      → admitted limit (answers backend interval key ((key, start) ∷ calls) s) ≤ limit
  unfolding answers admitted
  locked_out key limit start calls s fresh close =
      let step = first_count key start s fresh in
      let rest =
        admitted_from key limit start 1 calls (increment_rate_limit backend key interval start s).1
          close step.1 in
      rw ((eq_iff key key).1 refl, step.0) (omega (arith, count_step limit 0 _ rest))
