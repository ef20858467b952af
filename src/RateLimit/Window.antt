-- ===== src/RateLimit/Window.antt =====
-- A rate limit as it is meant: one counter for a key, that starts anew when its window is over.
use ctf_plugin_docker_per_te.Prelude.{
  ℕ, suc, ◌+◌, ◌-◌, ◌*◌, ◌≤◌, ◌<◌, leb, ltb, Option, none, some, List, [], ◌∷◌, if◌then◌else◌,
  arith, Bool-cases, lt→ltb, inl, inr, ◌≡◌, refl,
}

-- The count of the window and its end.
abbrev pub Window : Type 0
Window = Option (ℕ × ℕ)

abbrev pub open_at : ℕ → Window → Window
open_at now none = none
open_at now (some (n, end_of)) = if ltb now end_of then some (n, end_of) else none

abbrev pub counted_in : ℕ → ℕ → Window → ℕ × ℕ
counted_in length_of now none = (1, now + length_of)
counted_in length_of now (some (n, end_of)) = (suc n, end_of)

-- A call at a time: it is counted in the open window, or opens one.
abbrev pub hit : ℕ → ℕ → Window → ℕ × ℕ
hit length_of now w = counted_in length_of now (open_at now w)

-- The counts that a series of calls is given.
unfoldable pub counts : ℕ → List ℕ → Window → List ℕ
counts length_of [] w = []
counts length_of (now ∷ times) w =
    let (n, end_of) = hit length_of now w in n ∷ counts length_of times (some (n, end_of))

-- The window after them.
unfoldable pub window_after : ℕ → List ℕ → Window → Window
window_after length_of [] w = w
window_after length_of (now ∷ times) w = window_after length_of times (some (hit length_of now w))

-- How many of them pass the limit.
unfoldable pub admitted : ℕ → List ℕ → ℕ
admitted limit [] = 0
admitted limit (n ∷ ns) = (if leb n limit then 1 else 0) + admitted limit ns

-- The times of the calls, none before the one above it and all before the end.
abbrev pub Rising : ℕ → ℕ → List ℕ → Type 0
Rising start end_of [] = Unit {0}
Rising start end_of (now ∷ times) = (start ≤ now) × (now < end_of) × Rising now end_of times

-- Inside one window that has counted `n` calls, at most the rest of the limit is admitted.
pub admitted_in_window :
    (limit length_of start end_of n : ℕ) (times : List ℕ)
    → Rising start end_of times
    → admitted limit (counts length_of times (some (n, end_of))) ≤ limit - n
unfolding admitted counts
admitted_in_window limit length_of start end_of n [] h = omega arith
admitted_in_window limit length_of start end_of n (now ∷ times) (h0, h1, h2) =
    ground (arith, admitted_in_window limit length_of now end_of (suc n) times h2)

Rising-widen :
    (start end_of later : ℕ) (times : List ℕ)
    → end_of ≤ later
    → Rising start end_of times
    → Rising start later times
Rising-widen start end_of later [] le h = tt
Rising-widen start end_of later (now ∷ times) le (h0, h1, h2) =
    (h0, omega arith, Rising-widen now end_of later times le h2)

-- A window that opens with the first call admits no more than the limit until it ends,
pub admitted_from_opening :
    (limit length_of now : ℕ) (times : List ℕ) (w : Window)
    → open_at now w ≡ none
    → Rising now (now + length_of) times
    → admitted limit (counts length_of (now ∷ times) w) ≤ limit
unfolding admitted counts
admitted_from_opening limit length_of now times w opens h =
    rw opens (ground (arith, admitted_in_window limit length_of now (now + length_of) 1 times h))

-- What is left of the first window, and a second one.
period_bound :
    (limit length_of start from n end_of : ℕ) (times : List ℕ)
    → start ≤ from
    → Rising from (start + length_of) times
    → admitted limit (counts length_of times (some (n, end_of))) ≤ limit - n + limit
unfolding admitted counts
period_bound limit length_of start from n end_of [] le h = omega arith
period_bound limit length_of start from n end_of (now ∷ times) le (h0, h1, h2) =
    elim (Bool-cases (ltb now end_of)) [
      | inl open_still ↦ rw open_still (
          ground
            (arith, period_bound limit length_of start now (suc n) end_of times (omega arith) h2))
      | inr over ↦ ground (
        arith,
        admitted_from_opening limit length_of now times (some (n, end_of)) (rw over)
            (Rising-widen now (start + length_of) (now + length_of) times (omega arith) h2),
      )
    ]

-- Any period as long as a window meets at most two of them.
pub admitted_in_period :
    (limit length_of start : ℕ) (times : List ℕ) (w : Window)
    → Rising start (start + length_of) times
    → admitted limit (counts length_of times w) ≤ 2 * limit
unfolding admitted counts
admitted_in_period limit length_of start [] w h = omega arith
admitted_in_period limit length_of start (now ∷ times) none (h0, h1, h2) = omega (
  arith,
  admitted_from_opening limit length_of now times none refl
      (Rising-widen now (start + length_of) (now + length_of) times (omega arith) h2),
)
admitted_in_period limit length_of start (now ∷ times) (some (n, end_of)) h =
    omega (arith, period_bound limit length_of start start n end_of (now ∷ times) (omega arith) h)

-- Calls inside an open window do not move its end.
pub window_after_inside :
    (length_of start n end_of : ℕ) (times : List ℕ)
    → Rising start end_of times
    → (m : ℕ) × (window_after length_of times (some (n, end_of)) ≡ some (m, end_of))
unfolding window_after
window_after_inside length_of start n end_of [] h = (n, refl)
window_after_inside length_of start n end_of (now ∷ times) (h0, h1, h2) =
    rw (lt→ltb now end_of h1) (window_after_inside length_of now (suc n) end_of times h2)
