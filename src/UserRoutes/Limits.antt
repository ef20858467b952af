-- ===== src/UserRoutes/Limits.antt =====
-- user_routes.py: who is given a container, and whose container is stopped.
use ctf_plugin_docker_per_te.Prelude.{
  ℕ, ◌≤◌, ◌≡◌, ◌≢◌, refl, String, true, ◌==◌, Option, none, some, [], ◌∷◌, inl, inr, Bool-cases,
}
use ctf_plugin_docker_per_te.Text.{is_empty}
use ctf_plugin_docker_per_te.Result.{Result, ok, err}
use ctf_plugin_docker_per_te.Models.{ContainerInfo, account_owner}
use ctf_plugin_docker_per_te.Models.Queries.{find_account_info, find_account_info-Owned}
use ctf_plugin_docker_per_te.Manager.{World, Fault, Action, continue}
use ctf_plugin_docker_per_te.Manager.Containers.{LockReply, busy}
use ctf_plugin_docker_per_te.Requests.{
  Reply, created, killed, Runtime, create_container, kill_container,
}
use ctf_plugin_docker_per_te.Requests.Endpoint.{Payload}
use ctf_plugin_docker_per_te.Requests.Account.{
  RequestError, get_current_user_or_team, validate_request,
}
use ctf_plugin_docker_per_te.Requests.Capacity.{Admissible, refreshed, created-Admitted}
use ctf_plugin_docker_per_te.RateLimit.{Backend, passed}
use ctf_plugin_docker_per_te.RateLimit.Gate.{Counts, passed-within}
use ctf_plugin_docker_per_te.UserRoutes.{
  Answer, answered, Post, for_account, if_valid, checked_request, chal_id, request_steps,
  route_request_container, stop_found, stop_own, stop_steps, route_stop_container,
}

module _ {D : Type 0} where
  answer-eq-ok :
      (r : Result Fault Reply × World D) (w' : World D) (reply : Reply)
      → continue r (λ a w. (ok (answered a), w)) ≡ (ok (answered reply), w')
      → r ≡ (ok reply, w')
  answer-eq-ok (ok a, w) w' reply h = cc h
  answer-eq-ok (err e, w) w' reply h = cc h

  for_account-eq-ok :
      (handler : ℕ → Action D Answer) (account : Result RequestError ℕ) (w w' : World D)
      (reply : Reply)
      → for_account handler account w ≡ (ok (answered reply), w')
      → (xid : ℕ) × (account ≡ ok xid) × (handler xid w ≡ (ok (answered reply), w'))
  for_account-eq-ok handler (err e) w w' reply h = cc h
  for_account-eq-ok handler (ok xid) w w' reply h = (xid, refl, h)

  if_valid-eq-ok :
      (rest : Action D Answer) (valid : Result RequestError Unit) (w w' : World D) (reply : Reply)
      → if_valid rest valid w ≡ (ok (answered reply), w')
      → rest w ≡ (ok (answered reply), w')
  if_valid-eq-ok rest (err e) w w' reply h = cc h
  if_valid-eq-ok rest (ok t) w w' reply h = h

  -- A helper's answer is given for the account of the request.
  checked_request-eq-ok :
      (post : Post) (handler : ℕ → Action D Answer) (w w' : World D) (reply : Reply)
      → checked_request post handler w ≡ (ok (answered reply), w')
      → (xid : ℕ) × (get_current_user_or_team post.request.is_team post.request.user ≡ ok xid)
        × (handler xid w ≡ (ok (answered reply), w'))
  checked_request-eq-ok post handler w w' reply h =
      for_account-eq-ok handler (get_current_user_or_team post.request.is_team post.request.user) w
        w' reply
        (if_valid-eq-ok
          (for_account handler (get_current_user_or_team post.request.is_team post.request.user))
          (validate_request post.body ("chal_id" ∷ [])) w w' reply h)

module _ {S D : Type 0} (backend : Backend S) (runtime : Runtime D)
    (id_of : Option String → ℕ) where
  -- A request to start a container is answered with a new container only if the account's count
  -- at this endpoint is at most 6, and then only if the handler admits the account: the lock is not
  -- held by another, the challenge exists and is unsolved, and the account has room for it.
  pub created_within_limit :
      (lock : LockReply) (post : Post) (p : Payload) (s s' : S) (w w' : World D)
      → (post.request.method == "POST") ≡ true
      → route_request_container backend runtime id_of lock post (s, w)
        ≡ (passed (ok (answered (created p))), s', w')
      → ((key : String) × (current : ℕ) × Counts backend "POST" 60 post.request s key current s'
          × (current ≤ 6))
        × ((xid : ℕ) × (get_current_user_or_team post.request.is_team post.request.user ≡ ok xid)
            × (lock ≢ busy)
            × Admissible runtime post.request_host xid post.request.is_team
                (chal_id backend runtime id_of post)
                p
                (refreshed runtime post.request_host xid post.request.is_team w))
  unfolding route_request_container
  created_within_limit lock post p s s' w w' posted h =
      let (runs, counts) =
        passed-within backend (request_steps backend runtime id_of lock post) "POST" 6 60
          post.request s w (ok (answered (created p))) s' w' posted h in
      let (xid, account, answers) = checked_request-eq-ok post _ w w' (created p) runs in
      let admitted =
        created-Admitted runtime post.request_host xid post.request.is_team lock
          (chal_id backend runtime id_of post) p w w'
          (answer-eq-ok
            (create_container runtime post.request_host xid post.request.is_team lock
              (chal_id backend runtime id_of post) w)
            w' (created p) answers) in
      (counts, (xid, account, admitted.0, admitted.1))

  stop_found-eq-ok :
      (found : Option ContainerInfo) (w w' : World D)
      → stop_found backend runtime id_of found w ≡ (ok (answered killed), w')
      → (info : ContainerInfo) × (found ≡ some info)
        × (kill_container runtime info.container_id w ≡ (ok killed, w'))
  stop_found-eq-ok none w w' h = cc h
  stop_found-eq-ok (some info) w w' h = elim (Bool-cases (is_empty info.container_id)) [
    | inl empty ↦ cc (rw empty at h)
    | inr filled ↦ (
      info,
      refl,
      answer-eq-ok (kill_container runtime info.container_id w) w' killed (rw filled at h),
    )
  ]

  -- A request to stop a container is answered with "killed" only if the account's count at this
  -- endpoint is at most 10, the account itself has a row for the challenge, and the kill that was
  -- made is that of the row's container.
  pub stops_own_container :
      (post : Post) (s s' : S) (w w' : World D)
      → (post.request.method == "POST") ≡ true
      → route_stop_container backend runtime id_of post (s, w)
        ≡ (passed (ok (answered killed)), s', w')
      → ((key : String) × (current : ℕ) × Counts backend "POST" 60 post.request s key current s'
          × (current ≤ 10))
        × ((xid : ℕ) × (get_current_user_or_team post.request.is_team post.request.user ≡ ok xid)
            × ((info : ContainerInfo) × (find_account_info w.session.view
                    (chal_id backend runtime id_of post)
                    (account_owner post.request.is_team xid)
                  ≡ some info)
                × (info.challenge_id ≡ chal_id backend runtime id_of post)
                × (info.owner ≡ account_owner post.request.is_team xid)
                × (kill_container runtime info.container_id w ≡ (ok killed, w'))))
  unfolding route_stop_container
  stops_own_container post s s' w w' posted h =
      let (runs, counts) =
        passed-within backend (stop_steps backend runtime id_of post) "POST" 10 60 post.request s w
          (ok (answered killed)) s' w' posted h in
      let (xid, account, answers) =
        checked_request-eq-ok post (stop_own backend runtime id_of post) w w' killed runs in
      let (info, found, kills) =
        stop_found-eq-ok
          (find_account_info w.session.view (chal_id backend runtime id_of post)
            (account_owner post.request.is_team xid))
          w w' answers in
      let (challenge, owner) =
        find_account_info-Owned w.session.view (chal_id backend runtime id_of post)
          (account_owner post.request.is_team xid) info found in
      (counts, (xid, account, (info, found, challenge, owner, kills)))
