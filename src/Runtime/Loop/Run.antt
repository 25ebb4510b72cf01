-- ===== src/Runtime/Loop/Run.antt =====
-- Steps of the run loop of pkg/sdc/target/manager/runtime.go with no other goroutine in between.
pub mod Replay
pub mod Ensuring
-- So many steps of the loop, with no other goroutine in between.
use config_server.Prelude.{ap, subst, suc, sym, zero, ℕ, ◌∙◌, ◌≡◌}
use config_server.Runtime.{Runtime}
use config_server.Runtime.Datastore.{World}
use config_server.Runtime.Loop.{LoopStep, Point, advance, notifies}
use config_server.Transactor.{Env, History, Key}

unfoldable pub loop_run : Env → Key → ℕ → LoopStep → LoopStep
unfolding advance
loop_run env target zero s = s
loop_run env target (suc n) (p, rt, h) = loop_run env target n (advance env target p rt h)

module _ (env : Env) (target : Key) where
  abbrev pub Leads : LoopStep → LoopStep → Type 0
  Leads s s' = (n : ℕ) × (loop_run env target n s ≡ s')

  pub goes :
      (p : Point) (rt : Runtime) (h : History) {s : LoopStep}
      → Leads (advance env target p rt h) s
      → Leads (p, rt, h) s
  unfolding loop_run
  goes p rt h (n, same) = (suc n, same)

  pub turns :
      (p : Point) (rt : Runtime) (h : History) (s s' : LoopStep)
      → advance env target p rt h ≡ s
      → Leads s s'
      → Leads (p, rt, h) s'
  unfolding loop_run
  turns p rt h s s' there (n, same) = (suc n, ap (loop_run env target n) there ∙ same)

  -- The run ends in a world, but for the notification.
  abbrev pub Finishes : LoopStep → World → Type 0
  Finishes s w = Leads s (notifies, w.0, w.1)

  pub to : (s : LoopStep) (w w' : World) → w' ≡ w → Finishes s w → Finishes s w'
  to s w w' same ends = subst (λ (v : World). Finishes s v) (sym same) ends

  pub loop_run_last :
      (n : ℕ) (s s' : LoopStep)
      → loop_run env target n s ≡ s'
      → loop_run env target (suc n) s ≡ loop_run env target 1 s'
  unfolding loop_run
  loop_run_last zero s s' same = ap (loop_run env target 1) same
  loop_run_last (suc n) (p, rt, h) s' same = loop_run_last n (advance env target p rt h) s' same
