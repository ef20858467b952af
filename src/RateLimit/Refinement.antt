-- ===== src/RateLimit/Refinement.antt =====
-- user_routes.py: the counters in Redis, and windows.
use text.Mathlib.TextLemmas.{append_cancel_left}
use Prim.Native.String.{◌++◌}
use ctf_plugin_docker_per_te.Prelude.{
  ℕ, suc, ◌+◌, ◌*◌, ◌<◌, ◌≡◌, ◌≢◌, refl, sym, ap, ap₂, ◌∙◌, String, true, ◌==◌, ltb, Option, none,
  some, List, [], ◌∷◌, if◌then◌else◌, arith, eq_iff, Bool-cases, inl, inr,
}
use ctf_plugin_docker_per_te.RateLimit.{
  Counter, live, Backend, IsRedis, atomic_rate_limit_script, increment_rate_limit,
}
use ctf_plugin_docker_per_te.RateLimit.Window.{Window, hit, counts, window_after}

abbrev pub as_counter : Window → Option Counter
as_counter none = none
as_counter (some (n, end_of)) = some (n, some end_of)

-- A window counts at least the call that opened it.
abbrev pub Started : Window → Type 0
Started none = Unit {0}
Started (some (n, end_of)) = 0 < n

pub hit-Started :
    (length_of now : ℕ) (w : Window) → Started w → Started (some (hit length_of now w))
hit-Started length_of now none h = omega arith
hit-Started length_of now (some (n, end_of)) h = elim (Bool-cases (ltb now end_of)) [
  | inl e ↦ rw e (omega arith)
  | inr e ↦ rw e (omega arith)
]

pub window_after-Started :
    (length_of : ℕ) (times : List ℕ) (w : Window)
    → Started w
    → Started (window_after length_of times w)
unfolding window_after
window_after-Started length_of [] w h = h
window_after-Started length_of (now ∷ times) w h =
    window_after-Started length_of times (some (hit length_of now w))
      (hit-Started length_of now w h)

module _ {S : Type 0} (backend : Backend S) (redis : IsRedis backend) where
  -- What the script makes of a counter, with `before` for what is still there of it.
  opened :
      (key : String) (interval now : ℕ) (s : S)
      → live now (backend.entry s key) ≡ none
      → ((atomic_rate_limit_script backend key interval now s).0 ≡ 1)
        × (backend.entry (atomic_rate_limit_script backend key interval now s).1 key
            ≡ some (1, some (now + 1000 * interval)))
  opened key interval now s gone = ground (
    arith,
    redis.incr_count key now s,
    redis.entry-incr key now s key,
    redis.entry-expire key interval now (backend.incr key now s).1 key,
    eq_iff key key,
  )

  kept :
      (key : String) (interval now : ℕ) (s : S) (n end_of : ℕ)
      → 0 < n
      → live now (backend.entry s key) ≡ some (n, some end_of)
      → ((atomic_rate_limit_script backend key interval now s).0 ≡ suc n)
        × (backend.entry (atomic_rate_limit_script backend key interval now s).1 key
            ≡ some (suc n, some end_of))
  kept key interval now s n end_of more there = ground (
    arith,
    redis.incr_count key now s,
    redis.entry-incr key now s key,
    redis.entry-expire key interval now (backend.incr key now s).1 key,
    eq_iff key key,
  )

  other_kept :
      (key other : String) (interval now : ℕ) (s : S)
      → key ≢ other
      → backend.entry (atomic_rate_limit_script backend key interval now s).1 other
        ≡ backend.entry s other
  other_kept key other interval now s ne = ground (
    arith,
    redis.incr_count key now s,
    redis.entry-incr key now s other,
    redis.entry-expire key interval now (backend.incr key now s).1 other,
    eq_iff key other,
  )

  hit_script :
      (key : String) (interval now : ℕ) (s : S) (w : Window)
      → Started w
      → backend.entry s key ≡ as_counter w
      → ((atomic_rate_limit_script backend key interval now s).0 ≡ (hit (1000 * interval) now w).0)
        × (backend.entry (atomic_rate_limit_script backend key interval now s).1 key
            ≡ as_counter (some (hit (1000 * interval) now w)))
  hit_script key interval now s none started e = opened key interval now s (ap (live now) e)
  hit_script key interval now s (some (n, end_of)) started e = elim (Bool-cases (ltb now end_of)) [
    | inl open_still ↦
        rw open_still (kept key interval now s n end_of started (ap (live now) e ∙ rw open_still))
    | inr over ↦ rw over (opened key interval now s (ap (live now) e ∙ rw over))
  ]

-- A series of calls, each with its key and its time.
abbrev pub Calls : Type 0
Calls = List (String × ℕ)

-- The times of the calls with a key.
unfoldable pub times_of : String → Calls → List ℕ
times_of key [] = []
times_of key ((k, now) ∷ calls) =
    let rest = times_of key calls in if k == key then now ∷ rest else rest

module _ {S : Type 0} (backend : Backend S) (interval : ℕ) where
  -- The store after the calls, and the counts that the calls with a key were given.
  unfoldable pub after_calls : Calls → S → S
  after_calls [] s = s
  after_calls ((k, now) ∷ calls) s =
      after_calls calls (increment_rate_limit backend k interval now s).1

  unfoldable pub answers : String → Calls → S → List ℕ
  answers key [] s = []
  answers key ((k, now) ∷ calls) s =
      let (n, s') = increment_rate_limit backend k interval now s in
      let rest = answers key calls s' in if k == key then n ∷ rest else rest

  module _ (redis : IsRedis backend) (uses_redis : backend.has_redis ≡ true) where
    pub hit-increment :
        (key : String) (now : ℕ) (s : S) (w : Window)
        → Started w
        → backend.entry s (backend.key_prefix ++ key) ≡ as_counter w
        → ((increment_rate_limit backend key interval now s).0 ≡ (hit (1000 * interval) now w).0)
          × (backend.entry
                (increment_rate_limit backend key interval now s).1
                (backend.key_prefix ++ key)
              ≡ as_counter (some (hit (1000 * interval) now w)))
    unfolding increment_rate_limit
    hit-increment key now s w started e =
        rw uses_redis
          (hit_script backend redis (backend.key_prefix ++ key) interval now s w started e)

    other-increment :
        (key other : String) (now : ℕ) (s : S)
        → key ≢ other
        → backend.entry
            (increment_rate_limit backend key interval now s).1
            (backend.key_prefix ++ other)
          ≡ backend.entry s (backend.key_prefix ++ other)
    unfolding increment_rate_limit
    other-increment key other now s ne = rw uses_redis (
        other_kept backend redis (backend.key_prefix ++ key) (backend.key_prefix ++ other) interval
          now s (λ e. ne (append_cancel_left _ _ _ e)))

    -- The calls with a key are given the counts of its own window, whatever other keys are used in
    -- between.
    pub answers-counts :
        (key : String) (calls : Calls) (s : S) (w : Window)
        → Started w
        → backend.entry s (backend.key_prefix ++ key) ≡ as_counter w
        → (answers key calls s ≡ counts (1000 * interval) (times_of key calls) w)
          × (backend.entry (after_calls calls s) (backend.key_prefix ++ key)
              ≡ as_counter (window_after (1000 * interval) (times_of key calls) w))
    unfolding answers after_calls times_of counts window_after
    answers-counts key [] s w started e = (refl, e)
    answers-counts key ((k, now) ∷ calls) s w started e = elim (Bool-cases (k == key)) [
      | inl same ↦
          let to_key = ap (λ (t : String). backend.key_prefix ++ t) ((eq_iff k key).0 same) in
          let step = hit-increment k now s w started (ap (backend.entry s) to_key ∙ e) in
          let rest =
            answers-counts key calls (increment_rate_limit backend k interval now s).1
              (some (hit (1000 * interval) now w)) (hit-Started (1000 * interval) now w started)
              (ap (backend.entry (increment_rate_limit backend k interval now s).1) (sym to_key)
                ∙ step.1) in
          rw same (ap₂ ◌∷◌ step.0 rest.0, rest.1)
      | inr differ ↦ rw differ (
          answers-counts key calls (increment_rate_limit backend k interval now s).1 w started
            (other-increment k key now s (λ p. cc (differ, (eq_iff k key).1 p)) ∙ e))
    ]
