-- ===== src/Cli/Kept.antt =====
-- pkg/cli/gpu_dashboard.go: what starting a port-forward and opening a browser leave of the forward.
use Prim.Native.Char.{Char}
use sims.Prelude.{
  ℕ, suc, ◌<◌, ◌^◌, String, Bool, true, false, [], ◌∷◌, ◌==◌, Option, some, ◌≡◌, refl, ap, ◌∙◌,
  arith, inl, inr, Bool-cases,
}
use sims.Prelude.Int.{ℤ, pos}
use sims.Prelude.Results.{Result, ok, err}
use sims.Prelude.Commands.{◌>>◌, call, next-returns, call-returns}
use sims.Text.{trim_space_solid, AllChars-imp, is_solid}
use sims.Text.Decimal.{itoa, itoa_ℤ, is_digit}
use sims.Text.Decimal.RoundTrip.{atoi-itoa, itoa-AllChars}
use sims.Cli.Dashboard.{
  Processes, DashboardError, recorded, start_forward, browse, open_browser, opened, opened_later,
  kubectl_args, start_failed, release_failed, write_failed, browser_failed, browser_unsupported,
  grafana_url,
}
use sims.Cli.Forwarded.{ProcessLaws, Spares, recorded_at}

module _ {W : Type 0} (os : Processes W) (laws : ProcessLaws os) where
  open laws use {files, spared}

  digit_solid : (c : Char) → is_digit c ≡ true → is_solid c ≡ true
  digit_solid c h = ground arith

  -- The text of a positive number is read back.
  recorded-itoa : (n : ℕ) → suc n < 2 ^ 63 → recorded os (itoa_ℤ (pos (suc n))) ≡ some (pos (suc n))
  unfolding recorded itoa_ℤ
  recorded-itoa n small =
      rw
        (
          trim_space_solid (itoa (suc n))
              (AllChars-imp is_digit is_solid (itoa (suc n)) digit_solid (itoa-AllChars (suc n))),
          atoi-itoa (suc n) small,
        )
        (ground arith)

  pub kept-Spares : (w w' : W) → (files w' ≡ files w) × (spared w' ≡ spared w) → Spares os laws w w'
  kept-Spares w w' (f, a) = (f, λ q h. ap (λ (l : ℤ → Bool). l q) a ∙ h)

  pub then-Spares : (w w1 w2 : W) → Spares os laws w w1 → Spares os laws w1 w2 → Spares os laws w w2
  then-Spares w w1 w2 (f, a) (g, b) = (g ∙ f, λ q h. b q (a q h))

  browse_stays :
      (program url : String) (w w' : W)
      → browse os program url w ≡ some (ok tt, w')
      → Spares os laws w w'
  browse_stays program url w w' h =
      let (pid, w1, e1, h1) =
        next-returns (λ pid. call browser_failed (os.release pid))
          (call browser_failed (os.start program (url ∷ [])) w) h in
      let (started, s1) = call-returns browser_failed (os.start program (url ∷ []) w) e1 in
      let (released, s2) = call-returns browser_failed (os.release pid w1) h1 in
      rw s2 (
        then-Spares w w1 (os.release pid w1).1
          (rw s1 (laws.start_files program (url ∷ []) w, laws.start_spared program (url ∷ []) w))
          (kept-Spares w1 (os.release pid w1).1 (laws.release_keeps pid w1)))

  open_browser_stays :
      (url : String) (w w' : W) → open_browser os url w ≡ some (ok tt, w') → Spares os laws w w'
  unfolding open_browser
  open_browser_stays url w w' h = elim (Bool-cases (os.goos == "darwin")) [
    | inl mac ↦ browse_stays "open" url w w' (rw mac at h)
    | inr other_os ↦ elim (Bool-cases (os.goos == "linux")) [
      | inl linux ↦ browse_stays "xdg-open" url w w' (rw (other_os, linux) at h)
      | inr neither ↦ failed (rw (other_os, neither) at h)
    ]
  ]
    where
      failed :
          {A : Type 0}
          → ◌≡◌ {A = Option (Result DashboardError (Unit {0}) × W)}
              (some (err (browser_unsupported os.goos), w))
              (some (ok tt, w'))
          → A
      failed e = cc

  same_world :
      (w w' : W)
      → ◌≡◌ {A = Option (Result DashboardError (Unit {0}) × W)} (some (ok tt, w)) (some (ok tt, w'))
      → Spares os laws w w'
  same_world w w' e = let s : w ≡ w' = cc in rw (← s) (refl, λ q h. h)

  pub opened_stays : (b : Bool) (w w' : W) → opened os b w ≡ some (ok tt, w') → Spares os laws w w'
  opened_stays true w w' h = open_browser_stays grafana_url w w' h
  opened_stays false w w' h = same_world w w' h

  pub opened_later_stays :
      (b : Bool) (w w' : W) → opened_later os b w ≡ some (ok tt, w') → Spares os laws w w'
  opened_later_stays true w w' h =
      then-Spares w (os.sleep w) w' (kept-Spares w (os.sleep w) (laws.sleep_keeps w))
        (open_browser_stays grafana_url (os.sleep w) w' h)
  opened_later_stays false w w' h = same_world w w' h

  -- A start that succeeds has recorded the process that it has started.
  pub started_forward :
      (cluster path : String) (w w' : W) (pid : ℤ)
      → start_forward os cluster path w ≡ some (ok pid, w')
      → (recorded_at os laws path w' ≡ some pid)
        × (spared w' pid ≡ true)
        × ((os.start "kubectl" (kubectl_args os cluster) w).0 ≡ ok pid)
  unfolding start_forward
  started_forward cluster path w w' pid h =
      let (p, w1, e1, h1) =
        next-returns
          (λ p.
            call release_failed (os.release p)
            >> (call write_failed (os.write_file path (itoa_ℤ p)) >> (λ w. some (ok p, w))))
          (call start_failed (os.start "kubectl" (kubectl_args os cluster)) w) h in
      let (u, w2, e2, h2) =
        next-returns
          (λ _. call write_failed (os.write_file path (itoa_ℤ p)) >> (λ w. some (ok p, w)))
          (call release_failed (os.release p) w1) h1 in
      let (v, w3, e3, h3) =
        next-returns (λ _. λ w. some (ok p, w))
          (call write_failed (os.write_file path (itoa_ℤ p)) w2) h2 in
      let (begun, s1) =
        call-returns start_failed (os.start "kubectl" (kubectl_args os cluster) w) e1 in
      let (released, s2) = call-returns release_failed (os.release p w1) e2 in
      let (written, s3) = call-returns write_failed (os.write_file path (itoa_ℤ p) w2) e3 in
      let (n, positive, small, runs) = laws.starts "kubectl" (kubectl_args os cluster) w p begun in
      let same : p ≡ pid = cc in
      let ended : w3 ≡ w' = cc in
      let text : files w' path ≡ some (itoa_ℤ p) =
        rw (← ended, s3) (laws.writes path (itoa_ℤ p) w2 written) in
      let fresh : spared w' p ≡ true =
        rw (← ended, s3)
          (ap (λ (l : ℤ → Bool). l p) (laws.write_spared path (itoa_ℤ p) w2)
            ∙ rw s2 (ap (λ (l : ℤ → Bool). l p) (laws.release_keeps p w1).1 ∙ rw s1 runs)) in
      let read : recorded os (itoa_ℤ p) ≡ some p = rw positive (recorded-itoa n small) in
      rw (← same) (rw text read, fresh, begun)
