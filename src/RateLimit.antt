-- ===== src/RateLimit.antt =====
-- user_routes.py: the counters of `increment_rate_limit` and the wrapper `account_ratelimit`.
pub mod Window
pub mod Refinement
pub mod Bounds
pub mod Fallback
pub mod Gate
pub mod Samples
mod Tests
use Prim.Native.String.{◌++◌}
use ctf_plugin_docker_per_te.Prelude.{
  ℕ, suc, ◌+◌, ◌*◌, ◌≡◌, String, Bool, true, false, ◌==◌, ltb, nat_eq, Option, none, some, List, [],
  ◌∷◌, if◌then◌else◌,
}
use ctf_plugin_docker_per_te.Text.Numbers.{ℤ}
use ctf_plugin_docker_per_te.Result.{Result, ok, err}
use ctf_plugin_docker_per_te.Models.{User}
use ctf_plugin_docker_per_te.Policy.Errors.{PolicyError}
use ctf_plugin_docker_per_te.Policy.RateKey.{account_rate_limit_key}
use ctf_plugin_docker_per_te.Requests.Account.{RequestError, get_current_user_or_team}

-- A stored counter, and when it is dropped if it has a timeout. Times are in milliseconds.
abbrev pub Counter : Type 0
Counter = ℕ × Option ℕ

-- What of a stored counter is still there at a time.
abbrev pub live : ℕ → Option Counter → Option Counter
live now none = none
live now (some (n, none)) = some (n, none)
live now (some (n, some deadline)) = if ltb now deadline then some (n, some deadline) else none

abbrev pub count_of : Option Counter → ℕ
count_of none = 0
count_of (some (n, _)) = n

abbrev pub count_in : Option Counter → Option ℕ
count_in none = none
count_in (some (n, _)) = some n

abbrev pub deadline_of : Option Counter → Option ℕ
deadline_of none = none
deadline_of (some (_, deadline)) = deadline

abbrev pub with_deadline : ℕ → Option Counter → Option Counter
with_deadline deadline none = none
with_deadline deadline (some (n, _)) = some (n, some deadline)

-- Where the counters are kept, over the states `S` of the store: the commands of Redis that the
-- script uses, and the cache of CTFd. Each command is given the key and the time.
pub record Backend (S : Type 0) : Type 0 where
  -- whether the cache has a Redis client, `_write_client`
  pub has_redis : Bool
  pub key_prefix : String
  pub incr : String → ℕ → S → ℕ × S
  pub expire : String → ℕ → ℕ → S → S
  pub cache_get : String → ℕ → S → Option ℕ
  pub cache_set : String → ℕ → ℕ → ℕ → S → S
  -- what is stored under a key, dropped or not
  pub entry : S → String → Option Counter

module _ {S : Type 0} (backend : Backend S) where
  -- The documented behaviour of INCR and EXPIRE.
  pub record IsRedis : Type 0 where
    pub incr_count :
        (key : String) (now : ℕ) (s : S)
        → (backend.incr key now s).0 ≡ suc (count_of (live now (backend.entry s key)))
    pub entry-incr :
        (key : String) (now : ℕ) (s : S) (other : String)
        → backend.entry (backend.incr key now s).1 other ≡ (
            if key == other
            then some (
              suc (count_of (live now (backend.entry s key))),
              deadline_of (live now (backend.entry s key)),
            )
            else backend.entry s other)
    pub entry-expire :
        (key : String) (seconds now : ℕ) (s : S) (other : String)
        → backend.entry (backend.expire key seconds now s) other ≡ (
            if key == other
            then with_deadline (now + 1000 * seconds) (live now (backend.entry s key))
            else backend.entry s other)

  -- The documented behaviour of the cache.
  pub record IsCache : Type 0 where
    pub cache_get_lem :
        (key : String) (now : ℕ) (s : S)
        → backend.cache_get key now s ≡ count_in (live now (backend.entry s key))
    pub entry-cache_set :
        (key : String) (n seconds now : ℕ) (s : S) (other : String)
        → backend.entry (backend.cache_set key n seconds now s) other
          ≡ (if key == other then some (n, some (now + 1000 * seconds)) else backend.entry s other)

  -- `_ATOMIC_RATE_LIMIT_SCRIPT`
  abbrev expire_first : String → ℕ → ℕ → ℕ × S → ℕ × S
  expire_first key interval now (current, s) =
      (current, if nat_eq current 1 then backend.expire key interval now s else s)

  abbrev pub atomic_rate_limit_script : String → ℕ → ℕ → S → ℕ × S
  atomic_rate_limit_script key interval now s =
      expire_first key interval now (backend.incr key now s)

  -- The part of `increment_rate_limit` under the lock; `int(current or 0)`
  abbrev value_or_zero : Option ℕ → ℕ
  value_or_zero none = 0
  value_or_zero (some n) = n

  abbrev pub local_increment : String → ℕ → ℕ → S → ℕ × S
  local_increment key interval now s =
      let current = value_or_zero (backend.cache_get key now s) + 1 in
      (current, backend.cache_set key current interval now s)

  -- `increment_rate_limit`
  unfoldable pub increment_rate_limit : String → ℕ → ℕ → S → ℕ × S
  increment_rate_limit key interval now s =
      if backend.has_redis
      then atomic_rate_limit_script (backend.key_prefix ++ key) interval now s
      else local_increment key interval now s

-- What a wrapped route answers: a 400, the 429, or its own answer.
pub data Limited (R : Type 0) : Type 0 where
  bad_account : RequestError → Limited R
  bad_key : PolicyError → Limited R
  too_many_requests : ℕ → ℕ → Limited R
  passed : R → Limited R

-- What the wrapper reads of the request, of the session and of the clock.
pub record Request : Type 0 where
  pub method : String
  pub endpoint : Option String
  pub user : Option User
  pub is_team : Bool
  pub now : ℕ

-- The key of the request's account.
abbrev pub key_of_account :
    Request → Result RequestError ℕ → Result RequestError (Result PolicyError String)
key_of_account request (err e) = err e
key_of_account request (ok id) = ok (
    account_rate_limit_key (some (ℤ.pos id)) request.is_team request.endpoint
      (some "docker-per-team:rate-v2"))

unfoldable pub request_key : Request → Result RequestError (Result PolicyError String)
request_key request = key_of_account request (get_current_user_or_team request.is_team request.user)

module _ {S W R : Type 0} (backend : Backend S) (function : W → R × W) where
  abbrev pub pass : S × W → Limited R × S × W
  pass (s, w) = let (r, w') = function w in (passed r, s, w')

  abbrev pub judge_count : ℕ → ℕ → W → ℕ × S → Limited R × S × W
  judge_count limit interval w (current, s) =
      if ltb limit current then (too_many_requests limit interval, s, w) else pass (s, w)

  abbrev pub counted :
      ℕ → ℕ → ℕ → S × W → Result RequestError (Result PolicyError String) → Limited R × S × W
  counted limit interval now (s, w) (err e) = (bad_account e, s, w)
  counted limit interval now (s, w) (ok (err e)) = (bad_key e, s, w)
  counted limit interval now (s, w) (ok (ok key)) =
      judge_count limit interval w (increment_rate_limit backend key interval now s)

  -- `account_ratelimit(method, limit, interval)(function)`
  unfoldable pub account_ratelimit : String → ℕ → ℕ → Request → S × W → Limited R × S × W
  account_ratelimit method limit interval request sw =
      if request.method == method
      then counted limit interval request.now sw (request_key request)
      else pass sw
