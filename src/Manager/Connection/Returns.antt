-- ===== src/Manager/Connection/Returns.antt =====
-- container_manager.py: what `run_command` returns.
use ctf_plugin_docker_per_te.Prelude.{◌≡◌, ◌≢◌, String, Bool, true, false}
use ctf_plugin_docker_per_te.Result.{Result, ok, err}
use ctf_plugin_docker_per_te.Policy.Hardening.{Floats}
use ctf_plugin_docker_per_te.Manager.{
  connection_lost, Fault, container_exception, docker, not_found, image_not_found, api_error,
  docker_error, timed_out, ssh_error, auth_error, transport_error, integrity_error, other_exception,
  value_error, cut_off, Docker, World, Action, continue, recover, return, fail, call,
  continue-eq-ok, recover-eq-ok,
}
use ctf_plugin_docker_per_te.Manager.Connection.{
  initialize_connection, reconnect, when_pinged, lost_connection, run_command,
}

module _ {D A : Type 0} where
  fails_anyway :
      (m : Result Fault Unit × World D) (a : A)
      → (continue (recover m (λ _. return tt)) (λ _. fail {A = A} connection_lost)).0 ≢ ok a
  fails_anyway (ok u, w) a h = cc h
  fails_anyway (err e, w) a h = cc h

module _ {D A : Type 0} (floats : Floats) (netloc_ok : String → Bool) (dock : Docker D) where
  when_pinged-eq-ok :
      (func : Action D A) (answer : Bool) (w w' : World D) (a : A)
      → when_pinged floats netloc_ok dock func answer w ≡ (ok a, w')
      → func w ≡ (ok a, w')
  when_pinged-eq-ok func true w w' a h = h
  when_pinged-eq-ok func false w w' a h = cc h

  lost_connection-raises :
      (a : A) (e : Fault) (w : World D) → (lost_connection floats netloc_ok dock e w).0 ≢ ok a
  lost_connection-raises a (docker not_found) w h =
      fails_anyway (initialize_connection floats netloc_ok dock w.manager.settings w) a h
  lost_connection-raises a (docker image_not_found) w h =
      fails_anyway (initialize_connection floats netloc_ok dock w.manager.settings w) a h
  lost_connection-raises a (docker api_error) w h =
      fails_anyway (initialize_connection floats netloc_ok dock w.manager.settings w) a h
  lost_connection-raises a (docker docker_error) w h =
      fails_anyway (initialize_connection floats netloc_ok dock w.manager.settings w) a h
  lost_connection-raises a (docker ssh_error) w h = cc h
  lost_connection-raises a (docker auth_error) w h =
      fails_anyway (initialize_connection floats netloc_ok dock w.manager.settings w) a h
  lost_connection-raises a (docker transport_error) w h =
      fails_anyway (initialize_connection floats netloc_ok dock w.manager.settings w) a h
  lost_connection-raises a (docker timed_out) w h = cc h
  lost_connection-raises a (container_exception e) w h = cc h
  lost_connection-raises a integrity_error w h = cc h
  lost_connection-raises a other_exception w h = cc h
  lost_connection-raises a value_error w h = cc h
  lost_connection-raises a cut_off w h = cc h

  pub run_command-eq-ok :
      (func : Action D A) (w w' : World D) (a : A)
      → run_command floats netloc_ok dock func w ≡ (ok a, w')
      → (w1 : World D) × (func w1 ≡ (ok a, w'))
  unfolding run_command
  run_command-eq-ok func w w' a h =
      let (u, w1, e1, h1) =
        continue-eq-ok (reconnect floats netloc_ok dock w.manager w.manager.client w) _ h in
      let h2 =
        recover-eq-ok _ (lost_connection floats netloc_ok dock) (lost_connection-raises a) h1 in
      let (answer, w2, e2, h3) = continue-eq-ok (call dock.ping w1) _ h2 in
      (w2, when_pinged-eq-ok func answer w2 w' a h3)
