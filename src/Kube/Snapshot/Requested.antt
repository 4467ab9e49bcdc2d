-- ===== src/Kube/Snapshot/Requested.antt =====
-- pkg/kube/snapshot.go: the GPUs that a pod asks for are the sum over its containers.
use sims.Prelude.{String, List, [], ◌∷◌, none, some, ◌≡◌, refl, ap, ◌∙◌, Option}
use sims.Prelude.Int.{ℤ, pos, ◌+ℤ◌, wrap64}
use sims.Prelude.Wrapped.{wrap64_sum, sum_assoc, sum_zero, zero_sum}
use sims.Prelude.Maps.{lookup}
use sims.K8s.{Quantities, Container}
use sims.Kube.Snapshot.{int_of, pod_gpu_request}

module _ (qs : Quantities) where
  open qs use {Q}

  -- What a container asks for of the resource, and the sum over the containers of a pod.
  abbrev pub asked : String → Container Q → ℤ
  asked resource c = int_of qs (lookup c.limits resource)

  abbrev pub asked_in_all : String → List (Container Q) → ℤ
  asked_in_all resource [] = pos 0
  asked_in_all resource (c ∷ cs) = asked resource c +ℤ asked_in_all resource cs

  requested_from :
      (resource : String) (t : ℤ) (cs : List (Container Q))
      → pod_gpu_request qs resource (wrap64 t) cs ≡ wrap64 (t +ℤ asked_in_all resource cs)
  unfolding pod_gpu_request
  requested_from resource t [] = rw (sum_zero t) refl
  requested_from resource t (c ∷ cs) =
      by_limit (λ u. requested_from resource u cs) (lookup c.limits resource)
    where
      Rest : Type 0
      Rest =
          (u : ℤ)
          → pod_gpu_request qs resource (wrap64 u) cs ≡ wrap64 (u +ℤ asked_in_all resource cs)

      same : wrap64 t ≡ wrap64 (t +ℤ pos 0)
      same = rw (sum_zero t) refl

      step :
          Rest
          → (v next : ℤ) → next ≡ wrap64 (t +ℤ v)
          → pod_gpu_request qs resource next cs ≡ wrap64 (t +ℤ (v +ℤ asked_in_all resource cs))
      step rest v next e =
          ap (λ n. pod_gpu_request qs resource n cs) e
          ∙ (rest (t +ℤ v) ∙ ap wrap64 (sum_assoc t v (asked_in_all resource cs)))

      by_value :
          Rest
          → (o : Option ℤ)
          → pod_gpu_request qs resource
              (elim o [ none ↦ wrap64 t | some v ↦ wrap64 (wrap64 t +ℤ v) ])
              cs
            ≡ wrap64 (t +ℤ (elim o [ none ↦ pos 0 | some v ↦ v ] +ℤ asked_in_all resource cs))
      by_value rest none = step rest (pos 0) (wrap64 t) same
      by_value rest (some v) = step rest v (wrap64 (wrap64 t +ℤ v)) (wrap64_sum t v)

      by_limit :
          Rest
          → (o : Option Q)
          → pod_gpu_request qs resource
              (elim o [
                | none ↦ wrap64 t
                | some q ↦ elim (qs.as_int64 q) [
                  | none ↦ wrap64 t
                  | some v ↦ wrap64 (wrap64 t +ℤ v)
                ]
              ])
              cs
            ≡ wrap64 (t +ℤ (int_of qs o +ℤ asked_in_all resource cs))
      by_limit rest none = step rest (pos 0) (wrap64 t) same
      by_limit rest (some q) = by_value rest (qs.as_int64 q)

  -- The loop adds up what the containers ask for.
  pub requested :
      (resource : String) (cs : List (Container Q))
      → pod_gpu_request qs resource (pos 0) cs ≡ wrap64 (asked_in_all resource cs)
  requested resource cs =
      requested_from resource (pos 0) cs ∙ ap wrap64 (zero_sum (asked_in_all resource cs))
