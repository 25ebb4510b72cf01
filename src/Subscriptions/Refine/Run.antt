-- ===== src/Subscriptions/Refine/Run.antt =====
-- Any run of AddSubscription and DelSubscription of pkg/sdc/target/manager/subscription.go, against the
-- abstract view of the paths.
use config_server.Prelude.{List, [], ap, refl, string_eq, ◌∙◌, ◌∷◌, ◌≡◌}
use config_server.Subscriptions.Entries.{entry}
use config_server.Subscriptions.Refine.{
  View, add_subscription-reconciled, del_subscription-forgotten, forgotten, reconciled,
}
use config_server.Subscriptions.Update.{
  PathStore, SubscriptionResource, Subscriptions, add_subscription, del_subscription,
}
use mathlib.Core.Path.{fun_ext}

-- What the subscription reconciler calls.
pub data Operation : Type 0 where
  adds_cr : SubscriptionResource → Operation
  deletes_cr : SubscriptionResource → Operation

-- The abstract run.
abbrev pub view_after : List Operation → View → View
view_after [] view = view
view_after (adds_cr cr ∷ ops) view = view_after ops (reconciled cr view)
view_after (deletes_cr cr ∷ ops) view = view_after ops (forgotten cr view)

module _ {S : Type 0} (store : PathStore S) where
  unfoldable pub run : List Operation → Subscriptions S → Subscriptions S
  unfolding add_subscription del_subscription
  run [] state = state
  run (adds_cr cr ∷ ops) state = run ops (add_subscription store cr state)
  run (deletes_cr cr ∷ ops) state = run ops (del_subscription store cr state)

  -- However a store keeps the paths, and whatever run of AddSubscription and DelSubscription was made:
  -- the subscriptions by path and name are those of the abstract run, in which each call replaces what
  -- one CR declares, or removes what it owns, and touches nothing else.
  pub run_refines :
      (ops : List Operation) (state : Subscriptions S)
      → entry store (run ops state).paths ≡ view_after ops (entry store state.paths)
  unfolding run
  run_refines [] state = refl
  run_refines (adds_cr cr ∷ ops) state =
      run_refines ops (add_subscription store cr state)
      ∙ ap (view_after ops)
          (fun_ext λ path. fun_ext λ name. add_subscription-reconciled store cr state path name)
  run_refines (deletes_cr cr ∷ ops) state =
      run_refines ops (del_subscription store cr state)
      ∙ ap (view_after ops)
          (fun_ext λ path. fun_ext λ name. del_subscription-forgotten store cr state path name)
