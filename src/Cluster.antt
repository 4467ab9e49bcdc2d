-- ===== src/Cluster.antt =====
-- pkg/cluster/kind.go: the kind provider behind a context, and the log levels that its adapter uses. kind
-- itself is a parameter on the world `W`.
use sims.Prelude.{◌≡◌, refl, ℕ, String, Bool, List, Option, none, some, eqb, if◌then◌else◌}
use sims.Prelude.Results.{Result, err, Call, wrap}

-- The provider of kind; `ctx_err` is ctx.Err().
pub record Kind (W : Type 0) : Type 0 where
  pub ctx_err : W → Option String
  pub create : String → String → Call W (Result String (Unit {0}))
  pub delete : String → Call W (Result String (Unit {0}))
  pub list : Call W (Result String (List String))
  pub kube_config : String → Call W (Result String String)

pub data ClusterError : Type 0 where
  cancelled : String → ClusterError
  create_failed : String → String → ClusterError
  delete_failed : String → String → ClusterError
  list_failed : String → ClusterError
  kube_config_failed : String → String → ClusterError

module _ {W : Type 0} (kind : Kind W) where
  abbrev pub unless_cancelled :
      {A : Type 0}
      → (String → ClusterError)
      → Call W (Result String A)
      → Option String
      → Call W (Result ClusterError A)
  unless_cancelled f m none w = let (r, w') = m w in (wrap f r, w')
  unless_cancelled f m (some e) w = (err (cancelled e), w)

  unfoldable pub create : String → String → Call W (Result ClusterError (Unit {0}))
  create name raw_config w =
      unless_cancelled (create_failed name) (kind.create name raw_config) (kind.ctx_err w) w

  unfoldable pub delete : String → Call W (Result ClusterError (Unit {0}))
  delete name w = unless_cancelled (delete_failed name) (kind.delete name) (kind.ctx_err w) w

  unfoldable pub list : Call W (Result ClusterError (List String))
  list w = unless_cancelled list_failed kind.list (kind.ctx_err w) w

  unfoldable pub kube_config : String → Call W (Result ClusterError String)
  kube_config name w =
      unless_cancelled (kube_config_failed name) (kind.kube_config name) (kind.ctx_err w) w

-- What the call of kind leaves as it was, the guard does.
module _ {W T : Type 0} (kind : Kind W) (view : W → T) where
  pub guarded_keeps :
      {A : Type 0} (f : String → ClusterError) (m : Call W (Result String A))
      → ((w : W) → view (m w).1 ≡ view w)
      → (o : Option String) (w : W) → view (unless_cancelled kind f m o w).1 ≡ view w
  guarded_keeps f m kept none w = kept w
  guarded_keeps f m kept (some e) w = refl

-- The levels of slog that the adapter writes kind's messages at.
pub data Level : Type 0 where
  debug : Level
  info : Level
  warn : Level
  error : Level

-- slogInfoLogger.Info, at one of kind's verbosity levels.
abbrev pub info_level : ℕ → Level
info_level level = if eqb level 0 then info else debug

-- slogInfoLogger.Enabled; `enabled` is the logger's own answer.
abbrev pub info_enabled : (Level → Bool) → ℕ → Bool
info_enabled enabled level = if eqb level 0 then enabled info else enabled debug
