-- ===== src/Helm/Kept.antt =====
-- pkg/helm: what the actions of a client leave as it was, and the temporary kubeconfig files.
use sims.Prelude.{
  String, false, List, ◌∷◌, Option, none, some, ◌≡◌, refl, ◌∙◌, inl, inr, Bool-cases,
}
use sims.Prelude.Results.{Result, ok, err}
use sims.Prelude.Commands.{Keeps, >>=-Keeps, call-Keeps, fail-Keeps, some-Keeps, call}
use sims.Text.{is_empty}
use sims.Helm.Client.{
  TempFiles, Client, NewError, new, close, after_temp, after_write, after_close, after_registry,
}
use sims.Helm.Actions.{
  HelmLib, HelmError, InstallAction, Value, init_failed, locate_failed, load_failed, install_failed,
  uninstalled, action_config, locate_and_load, install, uninstall, ensure_dependencies,
  dependencies_failed, unless_cancelled, cancelled, contains,
}

-- Helm changes the cluster and its caches, and not what `view` shows.
pub record HelmKeeps {W : Type 0} (T : Type 0) (view : W → T) (lib : HelmLib W) : Type 0 where
  pub init : (p n d : String) (w : W) → view (lib.init p n d w).1 ≡ view w
  pub locate : (r : String) (w : W) → view (lib.locate_chart r w).1 ≡ view w
  pub load : (p : String) (w : W) → view (lib.load_chart p w).1 ≡ view w
  pub install :
      (cfg : lib.Config) (i : InstallAction) (ch : lib.Chart) (v : Value) (w : W)
      → view (lib.run_install cfg i ch v w).1 ≡ view w
  pub uninstall :
      (cfg : lib.Config) (r : String) (w : W) → view (lib.run_uninstall cfg r w).1 ≡ view w
  pub build : (c : Client) (p : String) (w : W) → view (lib.build_dependencies c p w).1 ≡ view w

module _ {W T : Type 0} (view : W → T) (lib : HelmLib W) (laws : HelmKeeps T view lib) where
  action_config-Keeps : (c : Client) → Keeps view (action_config lib c)
  unfolding action_config
  action_config-Keeps c w w' r h =
      call-Keeps view init_failed
        (lib.init c.kubeconfig_path c.namespace (lib.getenv "HELM_DRIVER" w))
        (laws.init c.kubeconfig_path c.namespace (lib.getenv "HELM_DRIVER" w)) w w' r h

  locate_and_load-Keeps : (chart_ref : String) → Keeps view (locate_and_load lib chart_ref)
  unfolding locate_and_load
  locate_and_load-Keeps chart_ref =
      >>=-Keeps view (call (locate_failed chart_ref) (lib.locate_chart chart_ref))
        (λ path. call (load_failed chart_ref path) (lib.load_chart path))
        (call-Keeps view (locate_failed chart_ref) (lib.locate_chart chart_ref)
          (laws.locate chart_ref))
        (λ path.
          call-Keeps view (load_failed chart_ref path) (lib.load_chart path) (laws.load path))

  pub install-Keeps :
      (c : Client) (release chart_ref : String) (values : Value)
      (opts : List (InstallAction → InstallAction))
      → Keeps view (install lib c release chart_ref values opts)
  unfolding install
  install-Keeps c release chart_ref values opts =
      >>=-Keeps view (action_config lib c) _ (action_config-Keeps c) (λ cfg.
        >>=-Keeps view (locate_and_load lib chart_ref) _ (locate_and_load-Keeps chart_ref) (λ chart.
          call-Keeps view (install_failed release) (lib.run_install cfg _ chart values)
            (laws.install cfg _ chart values)))

  uninstalled-Keeps :
      (release : String) (w : W) (p : Result String (Unit {0}) × W)
      → view p.1 ≡ view w
      → (w' : W) (r : Result HelmError (Unit {0})) → uninstalled lib release p ≡ some (r, w')
      → view w' ≡ view w
  uninstalled-Keeps release w (ok u, w1) kept w' r h = some-Keeps view w w1 (ok tt) kept w' r h
  uninstalled-Keeps release w (err e, w1) kept w' r h = elim (Bool-cases (contains e "not found")) [
    | inl gone ↦ some-Keeps view w w1 _ kept w' r (rw gone at h)
    | inr other ↦ some-Keeps view w w1 _ kept w' r (rw other at h)
  ]

  pub uninstall-Keeps : (c : Client) (release : String) → Keeps view (uninstall lib c release)
  unfolding uninstall
  uninstall-Keeps c release =
      >>=-Keeps view (action_config lib c) _ (action_config-Keeps c) (λ cfg w w' r h.
        uninstalled-Keeps release w (lib.run_uninstall cfg release w) (laws.uninstall cfg release w)
          w' r h)

  pub ensure_dependencies-Keeps :
      (c : Client) (chart_path : String) → Keeps view (ensure_dependencies lib c chart_path)
  unfolding ensure_dependencies
  ensure_dependencies-Keeps c chart_path w w' r h = by_context (lib.ctx_err w) h
    where
      by_context :
          (o : Option String)
          → unless_cancelled lib c chart_path o w ≡ some (r, w')
          → view w' ≡ view w
      by_context none e =
          call-Keeps view (dependencies_failed chart_path) (lib.build_dependencies c chart_path)
            (laws.build c chart_path) w w' r e
      by_context (some x) e = fail-Keeps view (cancelled x) w w' r e

-- A view of the temporary kubeconfig files, the newest first, in which a file stands from its creation to
-- the call that removes it. Cli/Disk has such a view, whether the system removes the file or not.
pub record TempLaws {W : Type 0} (files : TempFiles W) : Type 0 where
  pub temps : W → List String
  pub named : (w : W) (p : String) → (files.create_temp w).0 ≡ ok p → is_empty p ≡ false
  pub created :
      (w : W) (p : String)
      → (files.create_temp w).0 ≡ ok p
      → temps (files.create_temp w).1 ≡ p ∷ temps w
  pub not_created :
      (w : W) (e : String)
      → (files.create_temp w).0 ≡ err e
      → temps (files.create_temp w).1 ≡ temps w
  pub write : (p t : String) (w : W) → temps (files.write p t w).1 ≡ temps w
  pub close : (p : String) (w : W) → temps (files.close p w).1 ≡ temps w
  pub registry : (w : W) → temps (files.new_registry w).1 ≡ temps w
  pub removed :
      (p : String) (old : List String) (w : W)
      → temps w ≡ p ∷ old
      → temps (files.remove p w).1 ≡ old

module _ {W : Type 0} (files : TempFiles W) (laws : TempLaws files) where
  open laws use {temps}

  -- What a New has left: the client's own file, or nothing.
  abbrev pub Opened : List String → Result NewError Client × W → Type 0
  Opened old (err e, w) = temps w ≡ old
  Opened old (ok c, w) = (temps w ≡ c.kubeconfig_path ∷ old) × (is_empty c.kubeconfig_path ≡ false)

  registry-Opened :
      (namespace path : String) (old : List String) (p : Result String (Unit {0}) × W)
      → temps p.1 ≡ path ∷ old
      → is_empty path ≡ false
      → Opened old (after_registry files namespace path p)
  registry-Opened namespace path old (err e, w) h n = laws.removed path old w h
  registry-Opened namespace path old (ok u, w) h n = (h, n)

  close-Opened :
      (namespace path : String) (old : List String) (p : Result String (Unit {0}) × W)
      → temps p.1 ≡ path ∷ old
      → is_empty path ≡ false
      → Opened old (after_close files namespace path p)
  close-Opened namespace path old (err e, w) h n = laws.removed path old w h
  close-Opened namespace path old (ok u, w) h n =
      registry-Opened namespace path old (files.new_registry w) (laws.registry w ∙ h) n

  write-Opened :
      (namespace path : String) (old : List String) (p : Result String (Unit {0}) × W)
      → temps p.1 ≡ path ∷ old
      → is_empty path ≡ false
      → Opened old (after_write files namespace path p)
  write-Opened namespace path old (err e, w) h n =
      laws.removed path old (files.close path w).1 (laws.close path w ∙ h)
  write-Opened namespace path old (ok u, w) h n =
      close-Opened namespace path old (files.close path w) (laws.close path w ∙ h) n

  temp-Opened :
      (kubeconfig namespace : String) (w0 : W) (p : Result String String × W)
      → ((path : String) → p.0 ≡ ok path → (temps p.1 ≡ path ∷ temps w0) × (is_empty path ≡ false))
      → ((e : String) → p.0 ≡ err e → temps p.1 ≡ temps w0)
      → Opened (temps w0) (after_temp files kubeconfig namespace p)
  temp-Opened kubeconfig namespace w0 (err e, w) good bad = bad e refl
  temp-Opened kubeconfig namespace w0 (ok path, w) good bad =
      let (h, n) = good path refl in
      write-Opened namespace path (temps w0) (files.write path kubeconfig w)
        (laws.write path kubeconfig w ∙ h) n

  -- A New that fails has removed its file again, at every point where it can fail.
  pub new-Opened :
      (kubeconfig namespace : String) (w : W) → Opened (temps w) (new files kubeconfig namespace w)
  unfolding new
  new-Opened kubeconfig namespace w = elim (Bool-cases (is_empty kubeconfig)) [
    | inl none_given ↦ rw none_given refl
    | inr given ↦ rw given (elim (Bool-cases (is_empty namespace)) [
      | inl no_namespace ↦ rw no_namespace refl
      | inr named ↦ rw named (
          temp-Opened kubeconfig namespace w (files.create_temp w)
            (λ path e. (laws.created w path e, laws.named w path e)) (laws.not_created w))
    ])
  ]

  -- Closing the client that was opened last removes its file.
  pub close-temps :
      (c : Client) (old : List String) (w : W)
      → temps w ≡ c.kubeconfig_path ∷ old
      → is_empty c.kubeconfig_path ≡ false
      → let (r, c', w') = close files c w in temps w' ≡ old
  unfolding close
  close-temps c old w h n = rw n (laws.removed c.kubeconfig_path old w h)

  -- Close is safe to call twice: a second one returns no error and changes nothing.
  pub close_twice :
      (c : Client) (w : W)
      → let (r, c', w') = close files c w in close files c' w' ≡ (ok tt, c', w')
  unfolding close
  close_twice c w = elim (Bool-cases (is_empty c.kubeconfig_path)) [
    | inl shut ↦ rw shut (rw shut refl)
    | inr open_still ↦ rw open_still refl
  ]
