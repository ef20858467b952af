-- ===== src/RateLimit/Bounds.antt =====
-- How often the counters in Redis let an account pass, and that they let it pass again.
use Prim.Native.String.{◌++◌}
use ctf_plugin_docker_per_te.Prelude.{
  ℕ, ◌+◌, ◌*◌, ◌≤◌, ◌≡◌, refl, sym, ap, ◌∙◌, String, true, ltb, none, some, arith, Bool-cases, inl,
  inr, le→ltb, subst,
}
use ctf_plugin_docker_per_te.RateLimit.{Backend, IsRedis, increment_rate_limit}
use ctf_plugin_docker_per_te.RateLimit.Window.{
  Window, hit, window_after, admitted, Rising, admitted_in_period, window_after_inside,
}
use ctf_plugin_docker_per_te.RateLimit.Refinement.{
  Calls, Started, hit-Started, window_after-Started, as_counter, times_of, after_calls, answers,
  hit-increment, answers-counts,
}

-- A call counted 1 has opened a window.
opened-window :
    (length_of now : ℕ) (w : Window)
    → Started w
    → (hit length_of now w).0 ≡ 1
    → hit length_of now w ≡ (1, now + length_of)
opened-window length_of now none h e = refl
opened-window length_of now (some (n, end_of)) h e = elim (Bool-cases (ltb now end_of)) [
  | inl open_still ↦ absurd (ground arith)
  | inr over ↦ rw over
]

hit_over :
    (length_of later n end_of : ℕ) → end_of ≤ later → (hit length_of later (some (n, end_of))).0 ≡ 1
hit_over length_of later n end_of h = rw (le→ltb later end_of h) refl

module _ {S : Type 0} (backend : Backend S) (interval : ℕ) (redis : IsRedis backend)
    (uses_redis : backend.has_redis ≡ true) (key : String) (earlier : Calls) (s : S)
    (fresh : backend.entry s (backend.key_prefix ++ key) ≡ none) where
  -- The key's window after the earlier calls.
  abbrev window : Window
  window = window_after (1000 * interval) (times_of key earlier) none

  started : Started window
  started = window_after-Started (1000 * interval) (times_of key earlier) none tt

  tracked :
      backend.entry (after_calls backend interval earlier s) (backend.key_prefix ++ key)
      ≡ as_counter window
  tracked = (answers-counts backend interval redis uses_redis key earlier s none tt fresh).1

  -- In any period of `interval` seconds, after whatever calls and with whatever other keys in
  -- between, a key of the Redis counters passes a limit at most twice the limit's times.
  pub admitted-le :
      (limit start : ℕ) (calls : Calls)
      → Rising start (start + 1000 * interval) (times_of key calls)
      → admitted limit (answers backend interval key calls (after_calls backend interval earlier s))
        ≤ 2 * limit
  admitted-le limit start calls rising =
      subst (λ ns. admitted limit ns ≤ 2 * limit)
        (sym
          (answers-counts backend interval redis uses_redis key calls
            (after_calls backend interval earlier s) window started tracked).0)
        (admitted_in_period limit (1000 * interval) start (times_of key calls) window rising)

  -- A call that is counted 1 opens a window; the first call that comes after its end is counted 1
  -- again, however many calls came in the window: no account stays locked out.
  pub reopens :
      (start later : ℕ) (calls : Calls)
      → (increment_rate_limit backend key interval start (after_calls backend interval earlier s)).0
        ≡ 1
      → Rising start (start + 1000 * interval) (times_of key calls)
      → start + 1000 * interval ≤ later
      → (increment_rate_limit backend key interval later (
          after_calls backend interval calls
            (increment_rate_limit backend key interval start
              (after_calls backend interval earlier s)).1)).0
        ≡ 1
  reopens start later calls first rising over =
      let step =
        hit-increment backend interval redis uses_redis key start
          (after_calls backend interval earlier s) window started tracked in
      let opening = opened-window (1000 * interval) start window started (sym step.0 ∙ first) in
      let rest =
        (answers-counts backend interval redis uses_redis key calls
          (increment_rate_limit backend key interval start
            (after_calls backend interval earlier s)).1
          (some (hit (1000 * interval) start window))
          (hit-Started (1000 * interval) start window started) step.1).1 in
      let (m, same) =
        window_after_inside (1000 * interval) start 1 (start + 1000 * interval) (times_of key calls)
          rising in
      let now_at : window_after (1000 * interval) (times_of key calls)
            (some (hit (1000 * interval) start window))
          ≡ some (m, start + 1000 * interval) =
        ap (λ h. window_after (1000 * interval) (times_of key calls) (some h)) opening ∙ same in
      (hit-increment backend interval redis uses_redis key later _
        (some (m, start + 1000 * interval))
        (subst Started now_at (
          window_after-Started (1000 * interval) (times_of key calls) _
            (hit-Started (1000 * interval) start window started)))
        (rest ∙ ap as_counter now_at)).0
      ∙ hit_over (1000 * interval) later m (start + 1000 * interval) over
