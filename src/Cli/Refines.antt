-- ===== src/Cli/Refines.antt =====
-- pkg/cli/gpu_delete.go: the delete command refines what is asked of it.
use sims.Prelude.{String, List, [], ◌∷◌, Option, none, some, ◌≡◌, refl, ap, ◌∙◌, inl, inr}
use sims.Prelude.Results.{Result, ok, err, wrap}
use sims.Prelude.Commands.{
  ◌>>=◌, ◌>>◌, Keeps, done-Keeps, effect-Keeps, call-Keeps, within-Keeps, attempt-Keeps, >>=-Keeps,
  call, attempt, within, effect, lift, next-returns, call-returns,
}
use sims.K8s.{Quantities}
use sims.Cluster.{
  guarded_keeps, unless_cancelled, delete, list, kube_config, delete_failed, list_failed,
  kube_config_failed,
}
use sims.Helm.Client.{Client, NewError, new}
use sims.Helm.Actions.{uninstall}
use sims.Helm.Frames.{FilesKeep, new_keeps, close_keeps}
use sims.Helm.Kept.{HelmKeeps, uninstall-Keeps}
use sims.Cli.Host.{Host, CliError, cluster_failed, helm_failed}
use sims.Cli.Delete.{
  run_delete, uninstall_known_releases, uninstall_with, delete_target, deleted_text, target,
  with_client, known_releases, closed,
}
use sims.Cli.Deleted.{without, Deleted, Targets, target_exact}

-- What kind and the other calls do to the clusters of the host: a list shows them, a delete that succeeds
-- removes the one that is named, and nothing else of a delete command changes them.
pub record ClusterLaws {qs : Quantities} {W : Type 0} (host : Host qs W) : Type 0 where
  pub clusters : W → List String
  pub listed : (w : W) (names : List String) → (host.kind.list w).0 ≡ ok names → names ≡ clusters w
  pub list_keeps : (w : W) → clusters (host.kind.list w).1 ≡ clusters w
  pub deletes :
      (n : String) (w : W)
      → (host.kind.delete n w).0 ≡ ok tt
      → clusters (host.kind.delete n w).1 ≡ without n (clusters w)
  pub kube_config_keeps : (n : String) (w : W) → clusters (host.kind.kube_config n w).1 ≡ clusters w
  pub files : FilesKeep (List String) clusters host.files
  pub helm : HelmKeeps (List String) clusters host.helm
  pub print : (t : String) (w : W) → clusters (host.print t w).1 ≡ clusters w

module _ {qs : Quantities} {W : Type 0} (host : Host qs W) (laws : ClusterLaws host) where
  abbrev seen : W → List String
  seen = laws.clusters

  closed_keeps : (c : Client) (w : W) → seen (closed host c w) ≡ seen w
  closed_keeps c w = close_keeps seen host.files laws.files c w

  client-Keeps :
      (release : String) (r : Result NewError Client) → Keeps seen (with_client host release r)
  client-Keeps release (err e) = done-Keeps seen tt
  client-Keeps release (ok c) =
      >>=-Keeps seen (attempt (within helm_failed (uninstall host.helm c release))) _
        (attempt-Keeps seen (within helm_failed (uninstall host.helm c release)) (
          within-Keeps seen helm_failed (uninstall host.helm c release)
            (uninstall-Keeps seen host.helm laws.helm c release)))
        (λ r. effect-Keeps seen (closed host c) (closed_keeps c))

  releases-Keeps :
      (releases : List (String × String)) (kubeconfig : String)
      → Keeps seen (uninstall_known_releases host releases kubeconfig)
  unfolding uninstall_known_releases
  releases-Keeps [] kubeconfig = done-Keeps seen tt
  releases-Keeps ((release, namespace) ∷ rest) kubeconfig =
      >>=-Keeps seen (attempt (call (λ (e : NewError). e) (new host.files kubeconfig namespace))) _
        (attempt-Keeps seen (call (λ (e : NewError). e) (new host.files kubeconfig namespace)) (
          call-Keeps seen (λ (e : NewError). e) (new host.files kubeconfig namespace)
            (new_keeps seen host.files laws.files kubeconfig namespace)))
        (λ c.
          >>=-Keeps seen (with_client host release c) _ (client-Keeps release c)
            (λ _. releases-Keeps rest kubeconfig))

  known-Keeps : (r : Result CliError String) → Keeps seen (uninstall_with host r)
  known-Keeps (err e) = done-Keeps seen tt
  known-Keeps (ok kubeconfig) = releases-Keeps known_releases kubeconfig

  kubeconfig-Keeps :
      (n : String)
      → Keeps seen (attempt {F = CliError} (call cluster_failed (kube_config host.kind n)))
  unfolding kube_config
  kubeconfig-Keeps n = attempt-Keeps seen (call cluster_failed (kube_config host.kind n)) (
      call-Keeps seen cluster_failed (kube_config host.kind n) (λ w.
        guarded_keeps host.kind seen (kube_config_failed n) (host.kind.kube_config n)
          (laws.kube_config_keeps n) (host.kind.ctx_err w) w))

  deleted_without :
      (n : String) (w : W)
      → (delete host.kind n w).0 ≡ ok tt
      → seen (delete host.kind n w).1 ≡ without n (seen w)
  unfolding delete
  deleted_without n w h = by_context (host.kind.ctx_err w) h
    where
      unwrapped : (r : Result String (Unit {0})) → wrap (delete_failed n) r ≡ ok tt → r ≡ ok tt
      unwrapped (ok u) e = refl
      unwrapped (err x) e = cc

      by_context :
          (o : Option String)
          → (unless_cancelled host.kind (delete_failed n) (host.kind.delete n) o w).0 ≡ ok tt
          → seen (unless_cancelled host.kind (delete_failed n) (host.kind.delete n) o w).1
            ≡ without n (seen w)
      by_context none e = laws.deletes n w (unwrapped (host.kind.delete n w).0 e)
      by_context (some x) e = cc

  listed_now :
      (w : W) (all : List String)
      → (list host.kind w).0 ≡ ok all
      → (all ≡ seen w) × (seen (list host.kind w).1 ≡ seen w)
  unfolding list
  listed_now w all h = by_context (host.kind.ctx_err w) h
    where
      unwrapped : (r : Result String (List String)) → wrap list_failed r ≡ ok all → r ≡ ok all
      unwrapped (ok l) e = cc
      unwrapped (err x) e = cc

      by_context :
          (o : Option String)
          → (unless_cancelled host.kind list_failed host.kind.list o w).0 ≡ ok all
          → (all ≡ seen w)
            × (seen (unless_cancelled host.kind list_failed host.kind.list o w).1 ≡ seen w)
      by_context none e = (laws.listed w all (unwrapped (host.kind.list w).0 e), laws.list_keeps w)
      by_context (some x) e = cc

  removed :
      (n : String) (w w' : W)
      → delete_target host (some n) w ≡ some (ok tt, w')
      → seen w' ≡ without n (seen w)
  removed n w w' h =
      let (r, w1, e1, h1) =
        next-returns
          (λ r.
            uninstall_with host r
            >> (call cluster_failed (delete host.kind n)
                >> effect (λ w. (host.print (deleted_text host n) w).1)))
          (attempt (call cluster_failed (kube_config host.kind n)) w) h in
      let (u, w2, e2, h2) =
        next-returns
          (λ _.
            call cluster_failed (delete host.kind n)
            >> effect (λ w. (host.print (deleted_text host n) w).1))
          (uninstall_with host r w1) h1 in
      let (v, w3, e3, h3) =
        next-returns (λ _. effect (λ w. (host.print (deleted_text host n) w).1))
          (call cluster_failed (delete host.kind n) w2) h2 in
      let (fine, same) = call-returns cluster_failed (delete host.kind n w2) e3 in
      effect-Keeps seen (λ w. (host.print (deleted_text host n) w).1)
        (laws.print (deleted_text host n)) w3 w' (ok tt) h3
      ∙ (ap seen same
          ∙ (deleted_without n w2 fine
              ∙ ap (without n) (known-Keeps r w1 w2 (ok u) e2 ∙ kubeconfig-Keeps n w w1 (ok r) e1)))

  -- A delete that returns no error has done to the clusters of the host what was asked: with a name, that
  -- cluster is gone where it was there; without one, the only cluster whose name starts with "sims-" is
  -- gone, or there was none; and every other cluster is still there.
  pub run_delete_refines :
      (name : String) (w w' : W)
      → run_delete host name w ≡ some (ok tt, w')
      → Deleted name (laws.clusters w) (laws.clusters w')
  unfolding run_delete
  run_delete_refines name w w' h =
      let (all, w1, e1, h1) =
        next-returns (λ all. lift (λ (e : CliError). e) (target name all) >>= delete_target host)
          (call cluster_failed (list host.kind) w) h in
      let (chosen, w2, e2, h2) =
        next-returns (delete_target host) (lift (λ (e : CliError). e) (target name all) w1) h1 in
      let (fine, same) = call-returns cluster_failed (list host.kind w) e1 in
      let (now, still) = listed_now w all fine in
      let (exact, here) = call-returns (λ (e : CliError). e) (target name all, w1) e2 in
      outcome all w2 chosen (target_exact name all chosen exact) now
        (ap seen here ∙ (ap seen same ∙ still)) h2
    where
      outcome :
          (all : List String) (w2 : W) (o : Option String)
          → Targets name all o
          → all ≡ seen w
          → seen w2 ≡ seen w
          → delete_target host o w2 ≡ some (ok tt, w')
          → Deleted name (seen w) (seen w')
      outcome all w2 none nothing now kept d =
          inl (rw (← now) nothing, done-Keeps seen tt w2 w' (ok tt) d ∙ kept)
      outcome all w2 (some n) chosen now kept d =
          inr (n, rw (← now) chosen, removed n w2 w' d ∙ ap (without n) kept)
