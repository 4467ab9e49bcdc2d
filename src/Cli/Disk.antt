-- ===== src/Cli/Disk.antt =====
-- pkg/helm and pkg/cli: the temporary kubeconfig files on the disk, and those that could not be removed.
use sims.Prelude.{
  ℕ, String, false, List, [], ◌∷◌, if◌then◌else◌, ◌==◌, ◌≡◌, refl, ap, ◌∙◌, In, inl, inr,
  Bool-cases, eq_iff, eq_refl, arith,
}
use sims.Prelude.Results.{Result, ok, err}
use sims.K8s.{Quantities}
use sims.Text.{is_empty}
use sims.Helm.Client.{RemoveError, not_exist, not_removed}
use sims.Helm.Kept.{HelmKeeps}
use sims.Kube.Clients.{Clientset}
use sims.Kube.Kept.{ClientsetKeeps}
use sims.Cli.Host.{Host}
use sims.Cli.Tidy.{IsTidy}

-- The list without the first that has the name.
abbrev pub without_first : String → List String → List String
without_first p [] = []
without_first p (x ∷ xs) = if x == p then xs else x ∷ without_first p xs

-- The files but those that the system has refused to remove.
abbrev pub outstanding : List String → List String → List String
outstanding xs [] = xs
outstanding xs (r ∷ rs) = outstanding (without_first r xs) rs

without_swap :
    (p q : String) (xs : List String)
    → without_first p (without_first q xs) ≡ without_first q (without_first p xs)
without_swap p q [] = refl
without_swap p q (x ∷ xs) = ground (arith, without_swap p q xs, eq_iff x p, eq_iff x q)

outstanding-without_first :
    (p : String) (xs rs : List String)
    → outstanding (without_first p xs) rs ≡ without_first p (outstanding xs rs)
outstanding-without_first p xs [] = refl
outstanding-without_first p xs (r ∷ rs) =
    ap (λ t. outstanding t rs) (without_swap r p xs)
    ∙ outstanding-without_first p (without_first r xs) rs

outstanding-cons :
    (p : String) (xs rs : List String) → ¬ In p rs → outstanding (p ∷ xs) rs ≡ p ∷ outstanding xs rs
outstanding-cons p xs [] h = refl
outstanding-cons p xs (r ∷ rs) h = elim (Bool-cases (p == r)) [
  | inl same ↦ absurd (h (inl ((eq_iff p r).0 same)))
  | inr other ↦ rw other (outstanding-cons p (without_first r xs) rs (λ i. h (inr i)))
]

In-without_first : (x p : String) (xs : List String) → In x (without_first p xs) → In x xs
In-without_first x p [] h = h
In-without_first x p (y ∷ xs) h = elim (Bool-cases (y == p)) [
  | inl same ↦ inr (rw same at h)
  | inr other ↦ elim (rw other at h) [ inl e ↦ inl e | inr i ↦ inr (In-without_first x p xs i) ]
]

In-outstanding : (x : String) (xs rs : List String) → In x (outstanding xs rs) → In x xs
In-outstanding x xs [] h = h
In-outstanding x xs (r ∷ rs) h =
    In-without_first x r xs (In-outstanding x (without_first r xs) rs h)

-- The same files are there, and the same have been refused.
abbrev pub IsSame : {W : Type 0} → (W → List String) → (W → List String) → W → W → Type 0
IsSame temps refused w w' =
    ◌≡◌ {A = List String × List String} (temps w', refused w') (temps w, refused w)

-- What is documented of the calls. `temps` are the temporary kubeconfig files that are there, and `refused`
-- those of them whose removal has failed. A new file has a name of its own; a removal takes the file, finds
-- none, or fails and leaves it; and nothing else touches these files.
pub record DiskLaws {qs : Quantities} {W : Type 0} (host : Host qs W) : Type 0 where
  pub temps : W → List String
  pub refused : W → List String
  pub named : (w : W) (p : String) → (host.files.create_temp w).0 ≡ ok p → is_empty p ≡ false
  pub created :
      (w : W) (p : String)
      → (host.files.create_temp w).0 ≡ ok p
      → (temps (host.files.create_temp w).1 ≡ p ∷ temps w)
        × (refused (host.files.create_temp w).1 ≡ refused w)
        × ¬ In p (refused w)
  pub not_created :
      (w : W) (e : String)
      → (host.files.create_temp w).0 ≡ err e
      → (temps (host.files.create_temp w).1 ≡ temps w)
        × (refused (host.files.create_temp w).1 ≡ refused w)
  pub removed :
      (p : String) (w : W)
      → (host.files.remove p w).0 ≡ ok tt
      → (temps (host.files.remove p w).1 ≡ without_first p (temps w))
        × (refused (host.files.remove p w).1 ≡ refused w)
  pub missing : (p : String) (w : W) → (host.files.remove p w).0 ≡ err not_exist → ¬ In p (temps w)
  pub refuses :
      (p t : String) (w : W)
      → (host.files.remove p w).0 ≡ err (not_removed t)
      → (temps (host.files.remove p w).1 ≡ temps w)
        × (refused (host.files.remove p w).1 ≡ p ∷ refused w)
  pub write : (p t : String) (w : W) → IsSame temps refused w (host.files.write p t w).1
  pub close : (p : String) (w : W) → IsSame temps refused w (host.files.close p w).1
  pub registry : (w : W) → IsSame temps refused w (host.files.new_registry w).1
  pub helm : HelmKeeps (List String × List String) (λ w. (temps w, refused w)) host.helm
  pub clients :
      (kubeconfig : String) (cs : Clientset qs W)
      → host.connect kubeconfig ≡ ok cs
      → ClientsetKeeps (List String × List String) (λ w. (temps w, refused w)) qs cs
  pub kind_create : (n c : String) (w : W) → IsSame temps refused w (host.kind.create n c w).1
  pub kind_delete : (n : String) (w : W) → IsSame temps refused w (host.kind.delete n w).1
  pub kind_list : (w : W) → IsSame temps refused w (host.kind.list w).1
  pub kind_kube_config : (n : String) (w : W) → IsSame temps refused w (host.kind.kube_config n w).1
  pub print : (t : String) (w : W) → IsSame temps refused w (host.print t w).1
  pub timeout : (n : ℕ) (w : W) → IsSame temps refused w (host.timers.with_timeout n w)
  pub cancel : (w : W) → IsSame temps refused w (host.timers.cancel w)
  pub tick : (w : W) → IsSame temps refused w (host.timers.tick w).1

module _ {qs : Quantities} {W : Type 0} (host : Host qs W) (disk : DiskLaws host) where
  open disk use {temps, refused}

  -- The files that are there and whose removal has not failed.
  abbrev pub files_left : W → List String
  files_left w = outstanding (temps w) (refused w)

  pub same_left : {w w' : W} → IsSame temps refused w w' → files_left w' ≡ files_left w
  same_left e = ap (λ (p : List String × List String). outstanding p.0 p.1) e

  pub created_left :
      (w : W) (p : String)
      → (host.files.create_temp w).0 ≡ ok p
      → files_left (host.files.create_temp w).1 ≡ p ∷ files_left w
  created_left w p h =
      let (there, same, fresh) = disk.created w p h in
      rw (there, same) (outstanding-cons p (temps w) (refused w) fresh)

  pub removed_left :
      (p : String) (old : List String) (w : W)
      → files_left w ≡ p ∷ old
      → files_left (host.files.remove p w).1 ≡ old
  removed_left p old w h = by_result (host.files.remove p w).0 refl
    where
      shrinks : outstanding (without_first p (temps w)) (refused w) ≡ old
      shrinks =
          outstanding-without_first p (temps w) (refused w)
          ∙ (ap (without_first p) h ∙ rw (eq_refl p) refl)

      by_result :
          (r : Result RemoveError (Unit {0}))
          → (host.files.remove p w).0 ≡ r
          → files_left (host.files.remove p w).1 ≡ old
      by_result (ok u) e = let (a, b) = disk.removed p w e in rw (a, b) shrinks
      by_result (err not_exist) e =
          absurd (disk.missing p w e (In-outstanding p (temps w) (refused w) (rw h (inl refl))))
      by_result (err (not_removed t)) e = let (a, b) = disk.refuses p t w e in rw (a, b) shrinks

  -- The files that are left take the place of those that are there.
  abbrev pub tidy_of : IsTidy host
  tidy_of = record {
    files = record {
      temps = files_left;
      named = disk.named;
      created = created_left;
      not_created = λ w e h. let (a, b) = disk.not_created w e h in rw (a, b) refl;
      write = λ p t w. same_left (disk.write p t w);
      close = λ p w. same_left (disk.close p w);
      registry = λ w. same_left (disk.registry w);
      removed = removed_left;
    };
    helm = record {
      init = λ p n d w. same_left (disk.helm.init p n d w);
      locate = λ r w. same_left (disk.helm.locate r w);
      load = λ p w. same_left (disk.helm.load p w);
      install = λ c i ch v w. same_left (disk.helm.install c i ch v w);
      uninstall = λ c r w. same_left (disk.helm.uninstall c r w);
      build = λ c p w. same_left (disk.helm.build c p w);
    };
    clients = λ kubeconfig cs e.
        let keeps = disk.clients kubeconfig cs e in
        record {
          get = λ n w. same_left (keeps.get n w);
          create = λ n l w. same_left (keeps.create n l w);
          update = λ n l w. same_left (keeps.update n l w);
          delete = λ n w. same_left (keeps.delete n w);
          list_labelled = λ w. same_left (keeps.list_labelled w);
          get_deployment = λ n d w. same_left (keeps.get_deployment n d w);
        };
    kind_create = λ n c w. same_left (disk.kind_create n c w);
    kind_delete = λ n w. same_left (disk.kind_delete n w);
    kind_list = λ w. same_left (disk.kind_list w);
    kind_kube_config = λ n w. same_left (disk.kind_kube_config n w);
    print = λ t w. same_left (disk.print t w);
    timeout = λ n w. same_left (disk.timeout n w);
    cancel = λ w. same_left (disk.cancel w);
    tick = λ w. same_left (disk.tick w);
  }
