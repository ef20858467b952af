-- ===== src/RateLimit/Gate.antt =====
-- What `account_ratelimit` lets through.
use ctf_plugin_docker_per_te.Prelude.{
  ℕ, ◌≤◌, ◌<◌, ◌≡◌, refl, String, Bool, true, false, ◌==◌, ltb, ◌⊎◌, inl, inr, arith, Bool-cases,
  subst,
}
use ctf_plugin_docker_per_te.Result.{Result, ok, err}
use ctf_plugin_docker_per_te.Policy.Errors.{PolicyError}
use ctf_plugin_docker_per_te.Requests.Account.{RequestError}
use ctf_plugin_docker_per_te.RateLimit.{
  Backend, Request, Limited, bad_account, bad_key, too_many_requests, passed, request_key,
  increment_rate_limit, judge_count, counted, account_ratelimit,
}

-- The request's key, and the count that it is given now.
abbrev pub Counts : {S : Type 0} → Backend S → String → ℕ → Request → S → String → ℕ → S → Type 0
Counts backend method interval request s key current s' =
    ((request.method == method) ≡ true)
    × (request_key request ≡ ok (ok key))
    × (increment_rate_limit backend key interval request.now s ≡ (current, s'))

module _ {S W R : Type 0} (backend : Backend S) (function : W → R × W) (method : String)
    (limit interval : ℕ) (request : Request) (s : S) (w : W) where
  abbrev pub Gate : Limited R × S × W → Type 0
  Gate (passed r, s', w') =
      (function w ≡ (r, w'))
      × ((((request.method == method) ≡ false) × (s' ≡ s))
          ⊎ ((key : String) × (current : ℕ) × Counts backend method interval request s key current
                s'
              × (current ≤ limit)))
  Gate (too_many_requests l i, s', w') =
      (w' ≡ w)
      × (l ≡ limit)
      × (i ≡ interval)
      × ((key : String) × (current : ℕ) × Counts backend method interval request s key current s'
          × (limit < current))
  Gate (bad_account e, s', w') = (w' ≡ w) × (s' ≡ s) × (request_key request ≡ err e)
  Gate (bad_key e, s', w') = (w' ≡ w) × (s' ≡ s) × (request_key request ≡ ok (err e))

  judge_count-Gate :
      (matches : (request.method == method) ≡ true) (key : String)
      (k : request_key request ≡ ok (ok key)) (over : Bool) (current : ℕ) (s' : S)
      → ltb limit current ≡ over
      → increment_rate_limit backend key interval request.now s ≡ (current, s')
      → Gate (judge_count backend function limit interval w (current, s'))
  judge_count-Gate matches key k true current s' e inc =
      rw e (refl, refl, refl, (key, current, (matches, k, inc), ground arith))
  judge_count-Gate matches key k false current s' e inc =
      rw e (refl, inr (key, current, (matches, k, inc), ground arith))

  counted-Gate :
      (matches : (request.method == method) ≡ true)
      (found : Result RequestError (Result PolicyError String))
      → request_key request ≡ found
      → Gate (counted backend function limit interval request.now (s, w) found)
  counted-Gate matches (err e) k = (refl, refl, k)
  counted-Gate matches (ok (err e)) k = (refl, refl, k)
  counted-Gate matches (ok (ok key)) k =
      judge_count-Gate matches key k
        (ltb limit (increment_rate_limit backend key interval request.now s).0)
        (increment_rate_limit backend key interval request.now s).0
        (increment_rate_limit backend key interval request.now s).1 refl refl

  -- The wrapped function runs only for a request of another method, or for a request with a key
  -- whose count is at most the limit, and then the route answers what the function does; every other
  -- request, one without an account, without a key, or with a count above the limit, leaves the
  -- world as it is.
  pub account_ratelimit-Gate :
      Gate (account_ratelimit backend function method limit interval request (s, w))
  unfolding account_ratelimit
  account_ratelimit-Gate = elim (Bool-cases (request.method == method)) [
    | inl e ↦ rw e (counted-Gate e (request_key request) refl)
    | inr e ↦ rw e (refl, inl (e, refl))
  ]

  -- A request of the limited method that is let through.
  pub passed-within :
      (r : R) (s' : S) (w' : W)
      → (request.method == method) ≡ true
      → account_ratelimit backend function method limit interval request (s, w) ≡ (passed r, s', w')
      → (function w ≡ (r, w'))
        × ((key : String) × (current : ℕ) × Counts backend method interval request s key current s'
            × (current ≤ limit))
  passed-within r s' w' matches h =
      let (runs, why) = subst Gate h account_ratelimit-Gate in
      (runs, elim why [ inl other ↦ cc (matches, other.0) | inr within ↦ within ])
