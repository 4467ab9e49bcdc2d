-- ===== src/Cli/Toggles.antt =====
-- pkg/cli/gpu_dashboard.go: the command refines the machine of two states.
use sims.Prelude.{
  String, Bool, true, false, Option, none, some, ◌≡◌, refl, ap, sym, ◌∙◌, inl, inr, ◌⊎◌, Bool-cases,
}
use sims.Prelude.Int.{ℤ}
use sims.Prelude.Results.{Result, ok, err}
use sims.Prelude.Commands.{◌>>◌, effect, next-returns}
use sims.Cli.Dashboard.{
  Processes, OsError, missing, other, terminate, DashboardOpts, recorded, read_running_pid,
  start_forward, after_kill, stop_recorded, stop_read, stop_forward, opened_later, start_unless,
  toggle, running_text, started_text, stopped_text,
}
use sims.Cli.Forwarded.{
  ProcessLaws, read_of, recorded_in, recorded_at, Toggled, Found, read_running,
}
use sims.Cli.Kept.{kept-Spares, then-Spares, opened_stays, opened_later_stays, started_forward}

module _ {W : Type 0} (os : Processes W) (laws : ProcessLaws os) where
  open laws use {files, spared}

  abbrev Gone : String → W → Type 0
  Gone path w =
      (files w path ≡ none) ⊎ ((v : W) × (t : String) × ((os.remove path v).0 ≡ err (other t)))

  -- The world after the file was removed and a line printed.
  removed-Gone : (path text : String) (w : W) → Gone path (os.print text (os.remove path w).1)
  removed-Gone path text w = elim (laws.removes path w) [
    | inl gone ↦ inl (rw ((laws.print_keeps text (os.remove path w).1).0) gone)
    | inr (t, e) ↦ inr (w, t, e)
  ]

  removed_spared :
      (path text : String) (w : W) (pid : ℤ)
      → spared (os.print text (os.remove path w).1) pid ≡ spared w pid
  removed_spared path text w pid =
      ap (λ (l : ℤ → Bool). l pid)
        ((laws.print_keeps text (os.remove path w).1).1 ∙ laws.remove_spared path w)

  abbrev Ended : String → W → W → ℤ → Type 0
  Ended path w w' pid =
      (spared w' pid ≡ false) ⊎ ((os.kill pid terminate (os.read_file path w).1).0 ≡ err missing)

  killed-Ended :
      (path : String) (pid : ℤ) (w w' : W) (r : Result OsError (Unit {0}))
      → (os.kill pid terminate (os.read_file path w).1).0 ≡ r
      → after_kill os path pid (r, (os.kill pid terminate (os.read_file path w).1).1)
        ≡ some (ok tt, w')
      → Gone path w' × Ended path w w' pid
  killed-Ended path pid w w' (err (other t)) e h = cc
  killed-Ended path pid w w' (err missing) e h =
      let w1 = (os.kill pid terminate (os.read_file path w).1).1 in
      let ended : os.print (stopped_text os pid) (os.remove path w1).1 ≡ w' = cc in
      rw (← ended) (removed-Gone path (stopped_text os pid) w1, inr e)
  killed-Ended path pid w w' (ok u) e h =
      let w1 = (os.kill pid terminate (os.read_file path w).1).1 in
      let ended : os.print (stopped_text os pid) (os.remove path w1).1 ≡ w' = cc in
      rw (← ended) (
        removed-Gone path (stopped_text os pid) w1,
        inl (
            removed_spared path (stopped_text os pid) w1 pid
            ∙ laws.terminated pid (os.read_file path w).1 e),
      )

  abbrev Stopped : String → W → W → Type 0
  Stopped path w w' =
      Gone path w' × ((pid : ℤ) → recorded_at os laws path w ≡ some pid → Ended path w w' pid)

  recorded-Stopped :
      (path : String) (w w' : W) (o : Option ℤ)
      → recorded_at os laws path w ≡ o
      → stop_recorded os path o (os.read_file path w).1 ≡ some (ok tt, w')
      → Stopped path w w'
  recorded-Stopped path w w' none r h =
      let w1 = (os.read_file path w).1 in
      let ended : os.print "PID file was unusable; removed\n" (os.remove path w1).1 ≡ w' = cc in
      rw (← ended)
        (removed-Gone path "PID file was unusable; removed\n" w1, λ pid e. none_some (sym r ∙ e))
    where
      none_some : {A : Type 0} {p : ℤ} → ◌≡◌ {A = Option ℤ} none (some p) → A
      none_some d = cc
  recorded-Stopped path w w' (some pid) r h =
      let (gone, ended) =
        killed-Ended path pid w w' (os.kill pid terminate (os.read_file path w).1).0 refl h in
      (gone, λ q e. rw (← pid_is (sym r ∙ e)) ended)
    where
      pid_is : {q : ℤ} → ◌≡◌ {A = Option ℤ} (some pid) (some q) → pid ≡ q
      pid_is d = cc

  nothing-Stopped :
      (path : String) (w w' : W)
      → files w path ≡ none
      → stop_read os path (err missing, (os.read_file path w).1) ≡ some (ok tt, w')
      → Stopped path w w'
  nothing-Stopped path w w' there h =
      let w1 = (os.read_file path w).1 in
      let text : String = "no port-forward PID file found; nothing to stop\n" in
      let ended : os.print text w1 ≡ w' = cc in
      let (f, a) = laws.read_keeps path w in
      let (g, b) = laws.print_keeps text w1 in
      rw (← ended) (
        inl (ap (λ (l : String → Option String). l path) (g ∙ f) ∙ there),
        λ pid e. none_some (ap (recorded_in os laws) (sym there) ∙ e),
      )
    where
      none_some : {A : Type 0} {p : ℤ} → ◌≡◌ {A = Option ℤ} none (some p) → A
      none_some d = cc

  read-Stopped :
      (path : String) (w w' : W) (r : Result OsError String)
      → (os.read_file path w).0 ≡ r
      → stop_read os path (r, (os.read_file path w).1) ≡ some (ok tt, w')
      → Stopped path w w'
  read-Stopped path w w' (err (other t)) e h = cc
  read-Stopped path w w' r e h = elim (laws.reads path w) [
    | inl direct ↦ by_file (files w path) refl r (sym e ∙ direct) h
    | inr (t, failed) ↦ unreadable r t (sym e ∙ failed) h
  ]
    where
      unreadable :
          (q : Result OsError String) (t : String)
          → q ≡ err (other t)
          → stop_read os path (q, (os.read_file path w).1) ≡ some (ok tt, w')
          → Stopped path w w'
      unreadable (ok text) t d k = cc
      unreadable (err (other s)) t d k = cc
      unreadable (err missing) t d k = cc

      by_file :
          (o : Option String)
          → files w path ≡ o
          → (q : Result OsError String) → q ≡ read_of o
          → stop_read os path (q, (os.read_file path w).1) ≡ some (ok tt, w')
          → Stopped path w w'
      by_file none there (ok text) d k = cc
      by_file none there (err (other t)) d k = cc
      by_file none there (err missing) d k = nothing-Stopped path w w' there k
      by_file (some text) there (err x) d k = cc
      by_file (some text) there (ok text') d k =
          let same : text' ≡ text = cc in
          recorded-Stopped path w w' (recorded os text') (rw (there, ← same) refl) k

  start_toggles :
      (o : DashboardOpts) (cluster path : String) (w w1 w' : W) (found : ℤ × Bool)
      → Found os laws path w found
      → (files w1 ≡ files w) × (spared w1 ≡ spared w)
      → start_unless os o cluster path found w1 ≡ some (ok tt, w')
      → Toggled os laws false cluster path w w'
  start_toggles o cluster path w w1 w' (pid, true) there same h =
      let printed = os.print (running_text os pid) w1 in
      inl (
        pid,
        there,
        then-Spares os laws w w1 w' (kept-Spares os laws w w1 same) (
            then-Spares os laws w1 printed w'
              (kept-Spares os laws w1 printed (laws.print_keeps (running_text os pid) w1))
              (opened_stays os laws o.open_url printed w' h)),
      )
  start_toggles o cluster path w w1 w' (pid, false) absent same h =
      let (started, w2, e2, h2) =
        next-returns
          (λ started. effect (os.print (started_text os started)) >> opened_later os o.open_url)
          (start_forward os cluster path w1) h in
      let printed = os.print (started_text os started) w2 in
      let (recorded_now, fresh, begun) = started_forward os laws cluster path w1 w2 started e2 in
      let (f, a) =
        then-Spares os laws w2 printed w'
          (kept-Spares os laws w2 printed (laws.print_keeps (started_text os started) w2))
          (opened_later_stays os laws o.open_url printed w' h2) in
      inr (
        absent,
        (
          started,
          ap (λ (l : String → Option String). recorded_in os laws (l path)) f ∙ recorded_now,
          a started fresh,
          (w1, begun),
        ),
      )

  -- A dashboard command that returns no error has done with the port-forward of the cluster what was asked.
  -- A stop removes the file, unless the system refuses to, and the process that the file recorded has been
  -- sent the signal to end, or was gone. A start leaves a recorded process that answers a probe as it is,
  -- with its file; where the file records none, or one that does not answer, or cannot be read, it starts
  -- the port-forward, which the file records afterwards and which nothing has told to end.
  pub toggle_refines :
      (o : DashboardOpts) (cluster path : String) (w w' : W)
      → toggle os o cluster path w ≡ some (ok tt, w')
      → Toggled os laws o.stop cluster path w w'
  unfolding toggle stop_forward
  toggle_refines o cluster path w w' h = elim (Bool-cases o.stop) [
    | inl stopping ↦
        rw stopping (read-Stopped path w w' (os.read_file path w).0 refl (rw stopping at h))
    | inr starting ↦
        let (there, same) = read_running os laws path w in
        rw starting (
          start_toggles o cluster path w (read_running_pid os path w).1 w'
            (read_running_pid os path w).0 there same (rw starting at h))
  ]
