-- ===== src/Helm/Client.antt =====
-- pkg/helm/install.go: the life of a client, which keeps a kubeconfig in a temporary file. The operating
-- system and the OCI registry are parameters on the world `W`.
use sims.Prelude.{String, if◌then◌else◌}
use sims.Prelude.Results.{Result, ok, err, Call}
use sims.Text.{is_empty}

pub data RemoveError : Type 0 where
  not_exist : RemoveError
  not_removed : String → RemoveError

-- os.CreateTemp, the write and the close of the file, os.Remove and registry.NewClient.
pub record TempFiles (W : Type 0) : Type 0 where
  pub create_temp : Call W (Result String String)
  pub write : String → String → Call W (Result String (Unit {0}))
  pub close : String → Call W (Result String (Unit {0}))
  pub remove : String → Call W (Result RemoveError (Unit {0}))
  pub new_registry : Call W (Result String (Unit {0}))

pub record Client : Type 0 where
  pub kubeconfig_path : String
  pub namespace : String

pub data NewError : Type 0 where
  empty_kubeconfig : NewError
  empty_namespace : NewError
  create_temp_failed : String → NewError
  write_temp_failed : String → NewError
  close_temp_failed : String → NewError
  registry_failed : String → NewError

module _ {W : Type 0} (files : TempFiles W) where
  abbrev pub removed : String → W → W
  removed path w = (files.remove path w).1

  abbrev pub after_registry :
      String → String → Result String (Unit {0}) × W → Result NewError Client × W
  after_registry namespace path (err e, w) = (err (registry_failed e), removed path w)
  after_registry namespace path (ok _, w) =
      (ok (record { kubeconfig_path = path; namespace = namespace }), w)

  abbrev pub after_close :
      String → String → Result String (Unit {0}) × W → Result NewError Client × W
  after_close namespace path (err e, w) = (err (close_temp_failed e), removed path w)
  after_close namespace path (ok _, w) = after_registry namespace path (files.new_registry w)

  abbrev pub after_write :
      String → String → Result String (Unit {0}) × W → Result NewError Client × W
  after_write namespace path (err e, w) =
      (err (write_temp_failed e), removed path (files.close path w).1)
  after_write namespace path (ok _, w) = after_close namespace path (files.close path w)

  abbrev pub after_temp : String → String → Result String String × W → Result NewError Client × W
  after_temp kubeconfig namespace (err e, w) = (err (create_temp_failed e), w)
  after_temp kubeconfig namespace (ok path, w) =
      after_write namespace path (files.write path kubeconfig w)

  unfoldable pub new : String → String → Call W (Result NewError Client)
  new kubeconfig namespace w =
      if is_empty kubeconfig
      then (err empty_kubeconfig, w)
      else if is_empty namespace
      then (err empty_namespace, w)
      else after_temp kubeconfig namespace (files.create_temp w)

  -- A file that is gone already is no error.
  abbrev pub closed : Result RemoveError (Unit {0}) → Result String (Unit {0})
  closed (ok _) = ok tt
  closed (err not_exist) = ok tt
  closed (err (not_removed e)) = err e

  unfoldable pub close : Client → W → Result String (Unit {0}) × Client × W
  close c w =
      let (r, w') = files.remove c.kubeconfig_path w in
      if is_empty c.kubeconfig_path
      then (ok tt, c, w)
      else (closed r, record c { kubeconfig_path = "" }, w')
