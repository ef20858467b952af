-- ===== src/UserRoutes.antt =====
-- user_routes.py: the routes of an account's containers.
pub mod Limits
mod Tests
use ctf_plugin_docker_per_te.Prelude.{
  ℕ, String, Bool, true, false, not, Option, none, some, List, [], ◌∷◌, Dict, if◌then◌else◌,
}
use ctf_plugin_docker_per_te.Text.{is_empty}
use ctf_plugin_docker_per_te.Result.{Result, ok, err}
use ctf_plugin_docker_per_te.Models.{ContainerInfo, account_owner}
use ctf_plugin_docker_per_te.Models.Queries.{find_account_info}
use ctf_plugin_docker_per_te.Manager.{World, Fault, Action, ◌>>=◌, return, get_session}
use ctf_plugin_docker_per_te.Manager.Connection.{setting}
use ctf_plugin_docker_per_te.Manager.Containers.{LockReply}
use ctf_plugin_docker_per_te.Requests.{
  Reply, Runtime, create_container, renew_container, view_container_info, kill_container,
  connect_type,
}
use ctf_plugin_docker_per_te.Requests.Account.{
  RequestError, get_current_user_or_team, validate_request,
}
use ctf_plugin_docker_per_te.RateLimit.{Backend, Request, Limited, account_ratelimit}

-- What a route answers: the 400 of a `ValueError`, the 400 of a stop without a container, or what
-- a helper answers.
pub data Answer : Type 0 where
  bad_request : RequestError → Answer
  no_container : Answer
  answered : Reply → Answer

-- The body of a request; a value is the text of the JSON value.
abbrev pub Body : Type 0
Body = Option (Dict (Option String))

-- What a request finds: the host it names and its body.
pub record Post : Type 0 where
  pub request : Request
  pub request_host : Option String
  pub body : Body

module _ {D : Type 0} where
  abbrev answer : Action D Reply → Action D Answer
  answer m = m >>= λ reply. return (answered reply)

  abbrev for_account : (ℕ → Action D Answer) → Result RequestError ℕ → Action D Answer
  for_account handler (err e) = return (bad_request e)
  for_account handler (ok xid) = handler xid

  abbrev if_valid : Action D Answer → Result RequestError Unit → Action D Answer
  if_valid rest (err e) = return (bad_request e)
  if_valid rest (ok _) = rest

  -- The `try` of the routes: the body is checked, and the account looked up.
  abbrev pub checked_request : Post → (ℕ → Action D Answer) → Action D Answer
  checked_request post handler =
      if_valid
        (for_account handler (get_current_user_or_team post.request.is_team post.request.user))
        (validate_request post.body ("chal_id" ∷ []))

abbrev body_value : Body → String → Option String
body_value none key = none
body_value (some fields) key = setting fields key

-- `id_of` is the challenge id that the database compares a `chal_id` with.
module _ {S D : Type 0} (backend : Backend S) (runtime : Runtime D)
    (id_of : Option String → ℕ) where
  abbrev pub chal_id : Post → ℕ
  chal_id post = id_of (body_value post.body "chal_id")

  -- `get_connect_type`
  abbrev pub connect_steps : ℕ → Action D Answer
  connect_steps challenge_id =
      get_session >>= λ s. return (answered (connect_type s.view challenge_id))

  unfoldable pub get_connect_type :
      ℕ → Post → S × World D → Limited (Result Fault Answer) × S × World D
  get_connect_type challenge_id post =
      account_ratelimit backend (connect_steps challenge_id) "GET" 15 60 post.request

  -- `route_view_info`
  abbrev pub view_steps : Post → Action D Answer
  view_steps post = checked_request post λ xid.
      answer (view_container_info runtime post.request_host xid post.request.is_team (chal_id post))

  unfoldable pub route_view_info : Post → S × World D → Limited (Result Fault Answer) × S × World D
  route_view_info post = account_ratelimit backend (view_steps post) "POST" 15 60 post.request

  -- `route_request_container`, by the reply of the lock of the account
  abbrev pub request_steps : LockReply → Post → Action D Answer
  request_steps lock post = checked_request post λ xid.
      answer
        (create_container runtime post.request_host xid post.request.is_team lock (chal_id post))

  unfoldable pub route_request_container :
      LockReply → Post → S × World D → Limited (Result Fault Answer) × S × World D
  route_request_container lock post =
      account_ratelimit backend (request_steps lock post) "POST" 6 60 post.request

  -- `route_renew_container`
  abbrev pub renew_steps : Post → Action D Answer
  renew_steps post = checked_request post λ xid.
      answer (renew_container runtime post.request_host xid post.request.is_team (chal_id post))

  unfoldable pub route_renew_container :
      Post → S × World D → Limited (Result Fault Answer) × S × World D
  route_renew_container post = account_ratelimit backend (renew_steps post) "POST" 6 60 post.request

  -- `route_stop_container`
  abbrev pub stop_found : Option ContainerInfo → Action D Answer
  stop_found none = return no_container
  stop_found (some running_container) =
      if is_empty running_container.container_id
      then return no_container
      else answer (kill_container runtime running_container.container_id)

  abbrev pub stop_own : Post → ℕ → Action D Answer
  stop_own post xid = get_session >>= λ s.
      stop_found (find_account_info s.view (chal_id post) (account_owner post.request.is_team xid))

  abbrev pub stop_steps : Post → Action D Answer
  stop_steps post = checked_request post (stop_own post)

  unfoldable pub route_stop_container :
      Post → S × World D → Limited (Result Fault Answer) × S × World D
  route_stop_container post = account_ratelimit backend (stop_steps post) "POST" 10 60 post.request
