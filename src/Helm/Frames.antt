-- ===== src/Helm/Frames.antt =====
-- pkg/helm/install.go: what the life of a client leaves as it was, but its temporary file.
use sims.Prelude.{String, ◌≡◌, refl, ◌∙◌, inl, inr, Bool-cases}
use sims.Prelude.Results.{Result, ok, err}
use sims.Text.{is_empty}
use sims.Helm.Client.{
  TempFiles, Client, new, close, after_temp, after_write, after_close, after_registry,
}

-- The calls of the file system and of the registry leave what `view` shows.
pub record FilesKeep {W : Type 0} (T : Type 0) (view : W → T) (files : TempFiles W) : Type 0 where
  pub create_temp : (w : W) → view (files.create_temp w).1 ≡ view w
  pub write : (p t : String) (w : W) → view (files.write p t w).1 ≡ view w
  pub close : (p : String) (w : W) → view (files.close p w).1 ≡ view w
  pub remove : (p : String) (w : W) → view (files.remove p w).1 ≡ view w
  pub registry : (w : W) → view (files.new_registry w).1 ≡ view w

module _ {W T : Type 0} (view : W → T) (files : TempFiles W) (laws : FilesKeep T view files) where
  after_registry_keeps :
      (namespace path : String) (p : Result String (Unit {0}) × W)
      → view (after_registry files namespace path p).1 ≡ view p.1
  after_registry_keeps namespace path (err e, w) = laws.remove path w
  after_registry_keeps namespace path (ok u, w) = refl

  after_close_keeps :
      (namespace path : String) (p : Result String (Unit {0}) × W)
      → view (after_close files namespace path p).1 ≡ view p.1
  after_close_keeps namespace path (err e, w) = laws.remove path w
  after_close_keeps namespace path (ok u, w) =
      after_registry_keeps namespace path (files.new_registry w) ∙ laws.registry w

  after_write_keeps :
      (namespace path : String) (p : Result String (Unit {0}) × W)
      → view (after_write files namespace path p).1 ≡ view p.1
  after_write_keeps namespace path (err e, w) =
      laws.remove path (files.close path w).1 ∙ laws.close path w
  after_write_keeps namespace path (ok u, w) =
      after_close_keeps namespace path (files.close path w) ∙ laws.close path w

  after_temp_keeps :
      (kubeconfig namespace : String) (p : Result String String × W)
      → view (after_temp files kubeconfig namespace p).1 ≡ view p.1
  after_temp_keeps kubeconfig namespace (err e, w) = refl
  after_temp_keeps kubeconfig namespace (ok path, w) =
      after_write_keeps namespace path (files.write path kubeconfig w)
      ∙ laws.write path kubeconfig w

  pub new_keeps :
      (kubeconfig namespace : String) (w : W) → view (new files kubeconfig namespace w).1 ≡ view w
  unfolding new
  new_keeps kubeconfig namespace w = elim (Bool-cases (is_empty kubeconfig)) [
    | inl none_given ↦ rw none_given refl
    | inr given ↦ rw given (elim (Bool-cases (is_empty namespace)) [
      | inl no_namespace ↦ rw no_namespace refl
      | inr named ↦
          rw named
            (after_temp_keeps kubeconfig namespace (files.create_temp w) ∙ laws.create_temp w)
    ])
  ]

  pub close_keeps : (c : Client) (w : W) → let (r, c', w') = close files c w in view w' ≡ view w
  unfolding close
  close_keeps c w = elim (Bool-cases (is_empty c.kubeconfig_path)) [
    | inl shut ↦ rw shut refl
    | inr open_still ↦ rw open_still (laws.remove c.kubeconfig_path w)
  ]
