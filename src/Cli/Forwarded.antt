-- ===== src/Cli/Forwarded.antt =====
-- pkg/cli/gpu_dashboard.go: the port-forward as a machine of two states, running and stopped.
use sims.Prelude.{
  ℕ, suc, ◌<◌, ◌^◌, String, Bool, true, false, List, Option, none, some, ◌≡◌, refl, sym, ◌∙◌, ◌⊎◌,
  inl, inr,
}
use sims.Prelude.Int.{ℤ, pos}
use sims.Prelude.Results.{Result, ok, err}
use sims.Cli.Dashboard.{
  Processes, OsError, missing, other, probe, terminate, recorded, probed, probe_recorded,
  after_read, read_running_pid, kubectl_args,
}

abbrev pub read_of : Option String → Result OsError String
read_of none = err missing
read_of (some text) = ok text

-- What is documented of the calls on files and processes. `files` are the texts that are there, and `spared`
-- tells of a process that it has not been sent the signal to end. A read gives the text, says that there is
-- none, or fails; a signal that was sent without an error has been sent; a new process has a positive number
-- and has been sent nothing; a remove takes the file or leaves it. Processes may end at any time.
pub record ProcessLaws {W : Type 0} (os : Processes W) : Type 0 where
  pub files : W → String → Option String
  pub spared : W → ℤ → Bool
  pub reads :
      (p : String) (w : W)
      → ((os.read_file p w).0 ≡ read_of (files w p))
        ⊎ ((t : String) × ((os.read_file p w).0 ≡ err (other t)))
  pub read_keeps :
      (p : String) (w : W)
      → (files (os.read_file p w).1 ≡ files w) × (spared (os.read_file p w).1 ≡ spared w)
  pub probe_keeps :
      (pid : ℤ) (w : W)
      → (files (os.kill pid probe w).1 ≡ files w) × (spared (os.kill pid probe w).1 ≡ spared w)
  pub terminated :
      (pid : ℤ) (w : W)
      → (os.kill pid terminate w).0 ≡ ok tt
      → spared (os.kill pid terminate w).1 pid ≡ false
  pub removes :
      (p : String) (w : W)
      → (files (os.remove p w).1 p ≡ none) ⊎ ((t : String) × ((os.remove p w).0 ≡ err (other t)))
  pub remove_spared : (p : String) (w : W) → spared (os.remove p w).1 ≡ spared w
  pub starts :
      (c : String) (args : List String) (w : W) (pid : ℤ)
      → (os.start c args w).0 ≡ ok pid
      → (n : ℕ) × (pid ≡ pos (suc n)) × (suc n < 2 ^ 63) × (spared (os.start c args w).1 pid ≡ true)
  pub start_files :
      (c : String) (args : List String) (w : W) → files (os.start c args w).1 ≡ files w
  pub start_spared :
      (c : String) (args : List String) (w : W) (q : ℤ)
      → spared w q ≡ true
      → spared (os.start c args w).1 q ≡ true
  pub release_keeps :
      (pid : ℤ) (w : W)
      → (files (os.release pid w).1 ≡ files w) × (spared (os.release pid w).1 ≡ spared w)
  pub writes :
      (p t : String) (w : W)
      → (os.write_file p t w).0 ≡ ok tt
      → files (os.write_file p t w).1 p ≡ some t
  pub write_spared : (p t : String) (w : W) → spared (os.write_file p t w).1 ≡ spared w
  pub print_keeps :
      (t : String) (w : W) → (files (os.print t w) ≡ files w) × (spared (os.print t w) ≡ spared w)
  pub sleep_keeps : (w : W) → (files (os.sleep w) ≡ files w) × (spared (os.sleep w) ≡ spared w)

module _ {W : Type 0} (os : Processes W) (laws : ProcessLaws os) where
  open laws use {files, spared}

  -- The process that a file records.
  abbrev pub recorded_in : Option String → Option ℤ
  recorded_in none = none
  recorded_in (some text) = recorded os text

  abbrev pub recorded_at : String → W → Option ℤ
  recorded_at path w = recorded_in (files w path)

  -- The file records the process, and it answers a probe.
  abbrev pub IsRunning : String → W → ℤ → Type 0
  IsRunning path w pid =
      (recorded_at path w ≡ some pid) × ((os.kill pid probe (os.read_file path w).1).0 ≡ ok tt)

  -- The file records no process, or one that does not answer a probe, or it cannot be read.
  abbrev pub IsStopped : String → W → Type 0
  IsStopped path w =
      (recorded_at path w ≡ none)
      ⊎ (((pid : ℤ) × (recorded_at path w ≡ some pid)
            × ((e : OsError) × ((os.kill pid probe (os.read_file path w).1).0 ≡ err e)))
          ⊎ ((t : String) × ((os.read_file path w).0 ≡ err (other t))))

  -- What a step has left: the texts, and every process that was not told to end.
  abbrev pub Spares : W → W → Type 0
  Spares w w' = (files w' ≡ files w) × ((q : ℤ) → spared w q ≡ true → spared w' q ≡ true)

  -- The machine. A stop removes the file, unless the system refuses to, and sends the recorded process the
  -- signal to end, or finds it gone. A start leaves a forward that runs as it is; where none runs, it starts
  -- one, which the file then records.
  abbrev pub Toggled : Bool → String → String → W → W → Type 0
  Toggled true cluster path w w' =
      ((files w' path ≡ none) ⊎ ((v : W) × (t : String) × ((os.remove path v).0 ≡ err (other t))))
      × ((pid : ℤ)
          → recorded_at path w ≡ some pid
          → (spared w' pid ≡ false)
            ⊎ ((os.kill pid terminate (os.read_file path w).1).0 ≡ err missing))
  Toggled false cluster path w w' =
      ((pid : ℤ) × IsRunning path w pid × Spares w w')
      ⊎ (IsStopped path w
          × ((pid : ℤ) × (recorded_at path w' ≡ some pid)
              × (spared w' pid ≡ true)
              × ((v : W) × ((os.start "kubectl" (kubectl_args os cluster) v).0 ≡ ok pid))))

  -- What the reading of the file finds.
  abbrev pub Found : String → W → ℤ × Bool → Type 0
  Found path w (pid, true) = IsRunning path w pid
  Found path w (pid, false) = IsStopped path w

  abbrev Same : W → W → Type 0
  Same w w' = (files w' ≡ files w) × (spared w' ≡ spared w)

  probed-Found :
      (path : String) (w w1 : W) (pid : ℤ) (p : Result OsError (Unit {0}) × W)
      → recorded_at path w ≡ some pid
      → (os.kill pid probe (os.read_file path w).1).0 ≡ p.0
      → Same w p.1
      → Found path w (probed os pid p).0 × Same w (probed os pid p).1
  probed-Found path w w1 pid (ok u, v) there e s = ((there, e), s)
  probed-Found path w w1 pid (err x, v) there e s = (inr (inl (pid, there, (x, e))), s)

  recorded-Found :
      (path : String) (w : W) (r : Option ℤ)
      → recorded_at path w ≡ r
      → Found path w (probe_recorded os r (os.read_file path w).1).0
        × Same w (probe_recorded os r (os.read_file path w).1).1
  recorded-Found path w none e = (inl e, laws.read_keeps path w)
  recorded-Found path w (some pid) e =
      let w1 = (os.read_file path w).1 in
      let (f, a) = laws.read_keeps path w in
      let (g, b) = laws.probe_keeps pid w1 in
      probed-Found path w w1 pid (os.kill pid probe w1) e refl (g ∙ f, b ∙ a)

  after_read-Found :
      (path : String) (w : W) (r : Result OsError String)
      → (os.read_file path w).0 ≡ r
      → Found path w (after_read os (r, (os.read_file path w).1)).0
        × Same w (after_read os (r, (os.read_file path w).1)).1
  after_read-Found path w r e = elim (laws.reads path w) [
    | inl direct ↦ by_file (files w path) refl r (sym e ∙ direct)
    | inr (t, failed) ↦ unreadable r t failed (sym e ∙ failed)
  ]
    where
      by_file :
          (o : Option String)
          → files w path ≡ o
          → (q : Result OsError String) → q ≡ read_of o
          → Found path w (after_read os (q, (os.read_file path w).1)).0
            × Same w (after_read os (q, (os.read_file path w).1)).1
      by_file none there (ok text) d = cc
      by_file none there (err x) d = (inl (rw there refl), laws.read_keeps path w)
      by_file (some text) there (ok text') d =
          let same : text' ≡ text = cc in
          recorded-Found path w (recorded os text') (rw (there, ← same) refl)
      by_file (some text) there (err x) d = cc

      unreadable :
          (q : Result OsError String) (t : String)
          → (os.read_file path w).0 ≡ err (other t)
          → q ≡ err (other t)
          → Found path w (after_read os (q, (os.read_file path w).1)).0
            × Same w (after_read os (q, (os.read_file path w).1)).1
      unreadable (ok text) t failed d = cc
      unreadable (err x) t failed d = (inr (inr (t, failed)), laws.read_keeps path w)

  pub read_running :
      (path : String) (w : W)
      → Found path w (read_running_pid os path w).0 × Same w (read_running_pid os path w).1
  unfolding read_running_pid
  read_running path w = after_read-Found path w (os.read_file path w).0 refl
