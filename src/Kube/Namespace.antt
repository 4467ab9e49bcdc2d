-- ===== src/Kube/Namespace.antt =====
-- pkg/kube/namespace.go: creating, labelling and deleting a namespace. The API is a parameter on the
-- world `W`; a namespace is known by its labels.
use sims.Prelude.{
  String, Bool, true, false, ◌||◌, List, [], ◌∷◌, Option, none, some, if◌then◌else◌, ◌==◌, ◌≡◌,
  refl, ◌∙◌, sym, ap, In, Distinct, inl, inr, map, Bool-cases, eq_iff, ◌⊎◌,
}
use sims.Prelude.Maps.{Map, lookup, insert, get_or, lookup-insert}
use sims.Prelude.Results.{Result, ok, err, Call, wrap}
use sims.K8s.{ApiError, not_found, already_exists}

pub record Namespaces (W : Type 0) : Type 0 where
  pub get : String → Call W (Result ApiError (Map String))
  pub create : String → Map String → Call W (Result ApiError (Unit {0}))
  pub update : String → Map String → Call W (Result ApiError (Unit {0}))
  pub delete : String → Call W (Result ApiError (Unit {0}))

pub data NamespaceError : Type 0 where
  get_failed : ApiError → NamespaceError
  create_failed : ApiError → NamespaceError
  get_after_race_failed : ApiError → NamespaceError
  update_failed : ApiError → NamespaceError
  delete_failed : ApiError → NamespaceError

-- `if ns.Labels[k] != v`
abbrev pub add_label : String → String → Map String → Map String × Bool
add_label k v m = if get_or "" m k == v then (m, false) else (insert m k v, true)

-- The loop over the wanted labels: the labels after it, and whether one was set.
unfoldable pub merge_labels : Map String → Map String → Map String × Bool
merge_labels [] m = (m, false)
merge_labels ((k, v) ∷ r) m =
    let (m1, b1) = add_label k v m in let (m2, b2) = merge_labels r m1 in (m2, b1 || b2)

module _ {W : Type 0} (api : Namespaces W) where
  abbrev pub updated : String → Map String × Bool → Call W (Result NamespaceError (Unit {0}))
  updated name (m, false) w = (ok tt, w)
  updated name (m, true) w = let (r, w') = api.update name m w in (wrap update_failed r, w')

  abbrev pub label :
      (ApiError → NamespaceError)
      → String
      → Map String
      → Result ApiError (Map String) × W
      → Result NamespaceError (Unit {0}) × W
  label f name labels (err e, w) = (err (f e), w)
  label f name labels (ok existing, w) = updated name (merge_labels labels existing) w

  -- Another client may have created the namespace in between.
  abbrev pub created :
      String → Map String → Result ApiError (Unit {0}) × W → Result NamespaceError (Unit {0}) × W
  created name labels (ok _, w) = (ok tt, w)
  created name labels (err already_exists, w) =
      label get_after_race_failed name labels (api.get name w)
  created name labels (err not_found, w) = (err (create_failed not_found), w)
  created name labels (err (ApiError.other t), w) = (err (create_failed (ApiError.other t)), w)

  abbrev pub looked_up :
      String → Map String → Result ApiError (Map String) × W → Result NamespaceError (Unit {0}) × W
  looked_up name labels (err not_found, w) = created name labels (api.create name labels w)
  looked_up name labels (err already_exists, w) = (err (get_failed already_exists), w)
  looked_up name labels (err (ApiError.other t), w) = (err (get_failed (ApiError.other t)), w)
  looked_up name labels (ok existing, w) = label get_failed name labels (ok existing, w)

  unfoldable pub ensure_namespace : String → Map String → Call W (Result NamespaceError (Unit {0}))
  unfolding merge_labels
  ensure_namespace name labels w = looked_up name labels (api.get name w)

  abbrev pub deleted : Result ApiError (Unit {0}) → Result NamespaceError (Unit {0})
  deleted (ok _) = ok tt
  deleted (err not_found) = ok tt
  deleted (err already_exists) = err (delete_failed already_exists)
  deleted (err (ApiError.other t)) = err (delete_failed (ApiError.other t))

  unfoldable pub delete_namespace : String → Call W (Result NamespaceError (Unit {0}))
  delete_namespace name w = let (r, w') = api.delete name w in (deleted r, w')

-- The keys of a map, which a Go map has once each.
abbrev pub keys : Map String → List String
keys m = map (λ (e : String × String). e.0) m

lookup_missing : (m : Map String) (k : String) → ¬ (In k (keys m)) → lookup m k ≡ none
unfolding lookup
lookup_missing [] k h = refl
lookup_missing ((j, v) ∷ m) k h = elim (Bool-cases (j == k)) [
  | inl same ↦ absurd (h (inl (sym ((eq_iff j k).0 same))))
  | inr other ↦ rw other (lookup_missing m k (λ i. h (inr i)))
]

add_label_lem :
    (j v : String) (m : Map String) (k : String)
    → get_or "" (add_label j v m).0 k ≡ (if j == k then v else get_or "" m k)
add_label_lem j v m k = elim (Bool-cases (get_or "" m j == v)) [
  | inl there ↦ rw there (elim (Bool-cases (j == k)) [
    | inl same ↦ rw same (
        ap (λ (i : String). get_or "" m i) (sym ((eq_iff j k).0 same))
        ∙ (eq_iff (get_or "" m j) v).0 there)
    | inr other ↦ rw other refl
  ])
  | inr other ↦ rw other (
      rw (get_or, lookup-insert m j k v)
        (elim (Bool-cases (j == k)) [ inl same ↦ rw same refl | inr differ ↦ rw differ refl ]))
]

-- The labels after the loop are the wanted ones where a key is wanted, and the old ones elsewhere, for
-- wanted labels without a key twice. A missing label and an empty one read alike.
pub merge_labels_exact :
    (labels m : Map String) (k : String)
    → Distinct (keys labels)
    → get_or "" (merge_labels labels m).0 k ≡ get_or (get_or "" m k) labels k
unfolding merge_labels lookup
merge_labels_exact [] m k d = refl
merge_labels_exact ((j, v) ∷ r) m k (new, d) =
    merge_labels_exact r (add_label j v m).0 k d
    ∙ (ap (λ (old : String). get_or old r k) (add_label_lem j v m k) ∙ head (Bool-cases (j == k)))
  where
    head :
        ((j == k) ≡ true) ⊎ ((j == k) ≡ false)
        → get_or (if j == k then v else get_or "" m k) r k ≡ get_or (get_or "" m k) ((j, v) ∷ r) k
    head (inl same) =
        let missing : lookup r k ≡ none =
          lookup_missing r k (λ i. new (rw ((eq_iff j k).0 same) i)) in
        rw (get_or, missing) (rw same refl)
    head (inr other) =
        ap (λ (b : Bool). get_or (if b then v else get_or "" m k) r k) other
        ∙ rw (get_or, other) refl

-- What the API server keeps of a namespace: `labels_of` is what it has. A read shows it, a create that
-- succeeds has stored the labels given (beside which the server may put its own), and an update that
-- succeeds has stored the labels given.
pub record NamespaceLaws {W : Type 0} (api : Namespaces W) : Type 0 where
  pub labels_of : W → String → Option (Map String)
  pub got :
      (name : String) (m : Map String) (w : W)
      → (api.get name w).0 ≡ ok m
      → labels_of (api.get name w).1 name ≡ some m
  pub create_stores :
      (name : String) (labels : Map String) (w : W)
      → (api.create name labels w).0 ≡ ok tt
      → (m : Map String) × (labels_of (api.create name labels w).1 name ≡ some m)
        × ((k v : String) → lookup labels k ≡ some v → lookup m k ≡ some v)
  pub update_stores :
      (name : String) (m : Map String) (w : W)
      → (api.update name m w).0 ≡ ok tt
      → labels_of (api.update name m w).1 name ≡ some m

unset : (labels m : Map String) → (merge_labels labels m).1 ≡ false → (merge_labels labels m).0 ≡ m
unfolding merge_labels
unset [] m h = refl
unset ((j, v) ∷ r) m h = elim (Bool-cases (get_or "" m j == v)) [
  | inl there ↦ rw there (unset r m (rw there at h))
  | inr other ↦ absurd (set_true (rw other at h))
]
  where
    set_true : true ≡ false → ⊥
    set_true e = cc

module _ {W : Type 0} (api : Namespaces W) (laws : NamespaceLaws api) where
  open laws use {labels_of, got, create_stores, update_stores}

  -- The namespace is there with every wanted label; a missing one and an empty one read alike.
  abbrev pub Labelled : W → String → Map String → String → String → Type 0
  Labelled w name labels k v = (m : Map String) × (labels_of w name ≡ some m) × (get_or "" m k ≡ v)

  wrap-eq-ok : {E F A : Type 0} (f : E → F) (r : Result E A) {a : A} → wrap f r ≡ ok a → r ≡ ok a
  wrap-eq-ok f (ok b) h = cc
  wrap-eq-ok f (err e) h = cc

  merged_label :
      (labels m : Map String) (k v : String)
      → Distinct (keys labels)
      → lookup labels k ≡ some v
      → get_or "" (merge_labels labels m).0 k ≡ v
  merged_label labels m k v d e = merge_labels_exact labels m k d ∙ rw (get_or, e) refl

  updated_state :
      (name : String) (p : Map String × Bool) (w : W)
      → (p.1 ≡ false → labels_of w name ≡ some p.0)
      → (updated api name p w).0 ≡ ok tt
      → labels_of (updated api name p w).1 name ≡ some p.0
  updated_state name (m, false) w same h = same refl
  updated_state name (m, true) w same h = update_stores name m w (wrap-eq-ok update_failed _ h)

  existing_labels :
      (f : ApiError → NamespaceError) (name : String) (labels : Map String)
      (p : Result ApiError (Map String) × W) (k v : String)
      → Distinct (keys labels)
      → lookup labels k ≡ some v
      → ((m : Map String) → p.0 ≡ ok m → labels_of p.1 name ≡ some m)
      → (label api f name labels p).0 ≡ ok tt
      → Labelled (label api f name labels p).1 name labels k v
  existing_labels f name labels (err e, w) k v d i there h = cc
  existing_labels f name labels (ok m, w) k v d i there h = (
    (merge_labels labels m).0,
    updated_state name (merge_labels labels m) w
        (λ same. there m refl ∙ ap (λ (x : Map String). some x) (sym (unset labels m same))) h,
    merged_label labels m k v d i,
  )

  created_labels :
      (name : String) (labels : Map String) (p : Result ApiError (Unit {0}) × W) (k v : String)
      → Distinct (keys labels)
      → lookup labels k ≡ some v
      → (p.0 ≡ ok tt
          → (m : Map String) × (labels_of p.1 name ≡ some m)
            × ((k v : String) → lookup labels k ≡ some v → lookup m k ≡ some v))
      → (created api name labels p).0 ≡ ok tt
      → Labelled (created api name labels p).1 name labels k v
  created_labels name labels (ok _, w) k v d i there h =
      let (m, stored, has) = there refl in (m, stored, rw (get_or, has k v i) refl)
  created_labels name labels (err already_exists, w) k v d i there h =
      existing_labels get_after_race_failed name labels (api.get name w) k v d i
        (λ m e. got name m w e) h
  created_labels name labels (err not_found, w) k v d i there h = cc
  created_labels name labels (err (ApiError.other t), w) k v d i there h = cc

  looked_up_labels :
      (name : String) (labels : Map String) (p : Result ApiError (Map String) × W) (k v : String)
      → Distinct (keys labels)
      → lookup labels k ≡ some v
      → ((m : Map String) → p.0 ≡ ok m → labels_of p.1 name ≡ some m)
      → (looked_up api name labels p).0 ≡ ok tt
      → Labelled (looked_up api name labels p).1 name labels k v
  looked_up_labels name labels (err not_found, w) k v d i there h =
      created_labels name labels (api.create name labels w) k v d i (create_stores name labels w) h
  looked_up_labels name labels (err already_exists, w) k v d i there h = cc
  looked_up_labels name labels (err (ApiError.other t), w) k v d i there h = cc
  looked_up_labels name labels (ok m, w) k v d i there h =
      existing_labels get_failed name labels (ok m, w) k v d i there h

  -- A namespace that was ensured without an error is there with every wanted label, whether it was
  -- created, was there before, or was created by another client in between; a missing label and an
  -- empty one read alike.
  pub ensure_namespace_labels :
      (name : String) (labels : Map String) (k v : String) (w : W)
      → Distinct (keys labels)
      → lookup labels k ≡ some v
      → (ensure_namespace api name labels w).0 ≡ ok tt
      → Labelled (ensure_namespace api name labels w).1 name labels k v
  unfolding ensure_namespace
  ensure_namespace_labels name labels k v w d i h =
      looked_up_labels name labels (api.get name w) k v d i (λ m e. got name m w e) h
