-- ===== src/Rocm/Controller/Steps.antt =====
-- operators/fake-rocm-gpu-operator/pkg/controller/deviceconfig_controller.go: what one step of a Reconcile
-- does to the objects of the API server.
use sims.Prelude.{String, false, Option, none, some, ◌≡◌, refl, ◌∙◌, ap, ◌⊎◌, inl, inr}
use sims.Prelude.Results.{Result, ok, err, Call, wrap}
use sims.K8s.{ApiError, not_found}
use sims.Rocm.Controller.Objects.{
  DeviceConfig, Config, Kind, ObjectSpec, workload, service_spec, Key, Object, same_key,
}
use sims.Rocm.Controller.Workloads.{key_of}
use sims.Rocm.Controller.Reconcile.{
  Client, ReconcileError, and_then, updated_spec, apply, delete_if_exists, ds_ready, with_ready,
  ignore_not_found,
}

-- What the API server keeps: `find` is the object that it has under a key. A call that succeeds has
-- stored what the function made of an object with the wanted key, and no call touches another key.
pub record ClientLaws {W : Type 0} (api : Client W) : Type 0 where
  pub find : W → Key → Option Object
  pub set_owner_keeps :
      (cr : DeviceConfig) (o o' : Object)
      → api.set_owner cr o ≡ ok o'
      → (o'.labels ≡ o.labels) × (o'.spec ≡ o.spec)
  pub applied :
      (want : Object) (f : Object → Result ApiError Object) (w : W)
      → (api.create_or_update want f w).0 ≡ ok tt
      → (current : Object) × (o : Object) × (f current ≡ ok o)
        × (find (api.create_or_update want f w).1 want.key ≡ some o)
  pub apply_frame :
      (want : Object) (f : Object → Result ApiError Object) (w : W) (k : Key)
      → same_key want.key k ≡ false
      → find (api.create_or_update want f w).1 k ≡ find w k
  pub deleted : (k : Key) (w : W) → (api.delete k w).0 ≡ ok tt → find (api.delete k w).1 k ≡ none
  pub delete_missing :
      (k : Key) (w : W) → (api.delete k w).0 ≡ err not_found → find (api.delete k w).1 k ≡ none
  pub delete_frame :
      (j : Key) (w : W) (k : Key) → same_key j k ≡ false → find (api.delete j w).1 k ≡ find w k
  pub ds_status_frame :
      (namespace name : String) (w : W) (k : Key)
      → find (api.ds_status namespace name w).1 k ≡ find w k
  pub update_status_frame :
      (cr : DeviceConfig) (w : W) (k : Key) → find (api.update_status cr w).1 k ≡ find w k

-- A spec up to the cluster IP, which the API server gives a service.
abbrev pub forget_ip : ObjectSpec → ObjectSpec
forget_ip (workload s) = workload s
forget_ip (service_spec s) = service_spec (record s { cluster_ip = "" })

forget_ip-updated_spec : (old new : ObjectSpec) → forget_ip (updated_spec old new) ≡ forget_ip new
forget_ip-updated_spec (workload a) (workload b) = refl
forget_ip-updated_spec (workload a) (service_spec b) = refl
forget_ip-updated_spec (service_spec a) (workload b) = refl
forget_ip-updated_spec (service_spec a) (service_spec b) = refl

-- A step that succeeded, and what the steps after it do not undo.
pub first_ok :
    {W E A B : Type 0} (P : W → Type 0) (p : Result E A × W) (f : A → Call W (Result E B)) {b : B}
    → ((a : A) → p.0 ≡ ok a → P p.1)
    → ((a : A) (w : W) → P w → P (f a w).1)
    → (and_then p f).0 ≡ ok b
    → P (and_then p f).1
first_ok P (ok a, w) f g k h = k a w (g a refl)
first_ok P (err e, w) f g k h = cc

-- What the last steps do.
pub rest_ok :
    {W E A B : Type 0} (P : W → Type 0) (p : Result E A × W) (f : A → Call W (Result E B)) {b : B}
    → ((a : A) (w : W) → (f a w).0 ≡ ok b → P (f a w).1)
    → (and_then p f).0 ≡ ok b
    → P (and_then p f).1
rest_ok P (ok a, w) f g h = g a w h
rest_ok P (err e, w) f g h = cc

module _ {W : Type 0} (api : Client W) (cfg : Config) (laws : ClientLaws api) where
  open laws use {
    find, set_owner_keeps, applied, apply_frame, deleted, delete_missing, delete_frame,
    ds_status_frame, update_status_frame,
  }

  -- The server has the object, with the wanted labels and, but for a cluster IP, the wanted spec.
  abbrev pub Holds : W → Object → Type 0
  Holds w want =
      (o : Object) × (find w want.key ≡ some o)
      × (o.labels ≡ want.labels)
      × (forget_ip o.spec ≡ forget_ip want.spec)

  abbrev pub Absent : W → Kind → String → Type 0
  Absent w kind name = find w (key_of cfg kind name) ≡ none

  pub Holds-kept :
      (want : Object) (w w' : W) → find w' want.key ≡ find w want.key → Holds w want → Holds w' want
  Holds-kept want w w' e (o, f, l, s) = (o, e ∙ f, l, s)

  wrap-eq-ok : {E F A : Type 0} (f : E → F) (r : Result E A) {a : A} → wrap f r ≡ ok a → r ≡ ok a
  wrap-eq-ok f (ok b) h = cc
  wrap-eq-ok f (err e) h = cc

  pub apply-Holds :
      (cr : DeviceConfig) (want : Object) (w : W)
      → (apply api cfg cr want w).0 ≡ ok tt
      → Holds (apply api cfg cr want w).1 want
  unfolding apply
  apply-Holds cr want w h =
      let (current, o, made, there) = applied want _ w (wrap-eq-ok _ _ h) in
      let (labels, spec) = set_owner_keeps cr _ o made in
      (o, there, labels, ap forget_ip spec ∙ forget_ip-updated_spec current.spec want.spec)

  -- A step that leaves the object under `k` alone.
  abbrev pub Keeps : {A : Type 0} → Key → Call W A → Type 0
  Keeps k m = (w : W) → find (m w).1 k ≡ find w k

  pub apply-Keeps :
      (cr : DeviceConfig) (want : Object) (k : Key)
      → same_key want.key k ≡ false
      → Keeps k (apply api cfg cr want)
  unfolding apply
  apply-Keeps cr want k differs w = apply_frame want _ w k differs

  pub delete-Keeps : (j k : Key) → same_key j k ≡ false → Keeps k (delete_if_exists api cfg j)
  unfolding delete_if_exists
  delete-Keeps j k differs w = delete_frame j w k differs

  pub with_ready-Keeps : (name : String) (k : Key) → Keeps k (with_ready api cfg name)
  unfolding ds_ready
  with_ready-Keeps name k w = ds_status_frame cfg.namespace name w k

  pub and_then-Keeps :
      {A B : Type 0} (k : Key) (p : Result ReconcileError A × W)
      (f : A → Call W (Result ReconcileError B))
      → ((a : A) → Keeps k (f a))
      → find (and_then p f).1 k ≡ find p.1 k
  and_then-Keeps k (ok a, w) f h = h a w
  and_then-Keeps k (err e, w) f h = refl

  pub gone :
      (r : Result ApiError (Unit {0}))
      → ignore_not_found api cfg r ≡ ok tt
      → (r ≡ ok tt) ⊎ (r ≡ err not_found)
  gone (ok _) h = inl refl
  gone (err not_found) h = inr refl
  gone (err ApiError.already_exists) h = cc
  gone (err (ApiError.other t)) h = cc

  pub delete_absent :
      (j : Key) (w : W)
      → (delete_if_exists api cfg j w).0 ≡ ok tt
      → find (delete_if_exists api cfg j w).1 j ≡ none
  unfolding delete_if_exists
  delete_absent j w h = elim (gone (api.delete j w).0 h) [
    | inl e ↦ deleted j w e
    | inr e ↦ delete_missing j w e
  ]

  -- An object that was applied first is there at the end, where the steps after it keep its key.
  pub applied_first :
      {B : Type 0} (cr : DeviceConfig) (want : Object) (w : W)
      (f : Unit {0} → Call W (Result ReconcileError B)) (b : B)
      → ((a : Unit {0}) → Keeps want.key (f a))
      → (and_then (apply api cfg cr want w) f).0 ≡ ok b
      → Holds (and_then (apply api cfg cr want w) f).1 want
  applied_first cr want w f b keeps h =
      first_ok (λ w'. Holds w' want) (apply api cfg cr want w) f (λ a e. apply-Holds cr want w e)
        (λ a w' there. Holds-kept want w' (f a w').1 (keeps a w') there) h

  pub deleted_first :
      {B : Type 0} (kind : Kind) (name : String) (w : W)
      (f : Unit {0} → Call W (Result ReconcileError B)) (b : B)
      → ((a : Unit {0}) → Keeps (key_of cfg kind name) (f a))
      → (and_then (delete_if_exists api cfg (key_of cfg kind name) w) f).0 ≡ ok b
      → Absent (and_then (delete_if_exists api cfg (key_of cfg kind name) w) f).1 kind name
  deleted_first kind name w f b keeps h =
      first_ok (λ w'. Absent w' kind name) (delete_if_exists api cfg (key_of cfg kind name) w) f
        (λ a e. delete_absent (key_of cfg kind name) w e) (λ a w' there. keeps a w' ∙ there) h
