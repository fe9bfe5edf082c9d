-- ===== src/Server/Subscriptions/Task.antt =====
-- `reload_subscriptions_task` of server/src/subscription.rs: the ticks of its two timers and SIGHUP
-- are events, with what the database returned. A failed reload is only logged.
use openwec.Prelude.{ℕ, true, false, List, [], ◌∷◌, Result}
use openwec.Prelude.Dict.{lookup}
use openwec.Subscription.Data.{SubscriptionData, SubscriptionParameters}
use openwec.Server.Drivers.{Clients}
use openwec.Server.Output.{Outputs, new_context, garbage_collect_context}
use openwec.Server.Subscriptions.{Memory, reload_subscriptions}
use openwec.Server.Subscriptions.Prune.{IsKeyed-nil}
use openwec.Server.Subscriptions.Soundness.{IsSound, reload_subscriptions-IsSound}

pub data ReloadEvent (P : Type 0) : Type 0 where
  reload_tick : Result (List (SubscriptionData P)) → ReloadEvent P
  garbage_collect_tick : ReloadEvent P
  sighup : Result (List (SubscriptionData P)) → ReloadEvent P

module _ {P K R : Type 0} (clients : Clients K R) (hash : SubscriptionParameters → Result ℕ)
    (settings : Outputs) where
  unfoldable pub reload_step : ReloadEvent P → Memory P K R → Memory P K R
  unfolding reload_subscriptions garbage_collect_context
  reload_step (reload_tick db) m = (reload_subscriptions clients hash db true m).0
  reload_step garbage_collect_tick m = record m {
    context = garbage_collect_context settings m.context;
  }
  reload_step (sighup db) m = (reload_subscriptions clients hash db false m).0

  unfoldable pub reload_loop : List (ReloadEvent P) → Memory P K R → Memory P K R
  unfolding reload_step
  reload_loop [] m = m
  reload_loop (e ∷ es) m = reload_loop es (reload_step e m)

  -- The server starts with no subscription and a new context.
  unfoldable pub reload_subscriptions_task : List (ReloadEvent P) → Memory P K R
  unfolding reload_loop
  reload_subscriptions_task es =
      reload_loop es (record { subscriptions = []; context = new_context settings })

  reload_step-IsSound :
      (e : ReloadEvent P) (m : Memory P K R)
      → IsSound hash m.subscriptions
      → IsSound hash (reload_step e m).subscriptions
  unfolding reload_step
  reload_step-IsSound (reload_tick db) m i = reload_subscriptions-IsSound clients hash db true m i
  reload_step-IsSound garbage_collect_tick m i = i
  reload_step-IsSound (sighup db) m i = reload_subscriptions-IsSound clients hash db false m i

  reload_loop-IsSound :
      (es : List (ReloadEvent P)) (m : Memory P K R)
      → IsSound hash m.subscriptions
      → IsSound hash (reload_loop es m).subscriptions
  unfolding reload_loop
  reload_loop-IsSound [] m i = i
  reload_loop-IsSound (e ∷ es) m i =
      reload_loop-IsSound es (reload_step e m) (reload_step-IsSound e m i)

  -- At every moment of the task's life, after any sequence of reloads, successful or not, and garbage
  -- collections, each subscription in memory stands under its own identifier, once, and has the
  -- public version, outputs and formats of its data.
  pub reload_subscriptions_task-IsSound :
      (es : List (ReloadEvent P)) → IsSound hash (reload_subscriptions_task es).subscriptions
  unfolding reload_subscriptions_task lookup
  reload_subscriptions_task-IsSound es =
      reload_loop-IsSound es (record { subscriptions = []; context = new_context settings })
        (record { keyed = IsKeyed-nil; built = λ u b here. cc })
