-- ===== src/Tests/Reload.antt =====
-- A reload that replaces the whole memory.
use openwec.Prelude.{
  bail, List, ℕ, String, true, some, [], ◌∷◌, ◌≡◌, refl, ok, arith, inl, inr, Bool-cases, ◌==◌,
}
use native.Mathlib.Decide.{ℕ_discrete}
use openwec.Prelude.Dict
use openwec.Prelude.Dict.{lookup, values}
use openwec.Subscription.Output.{SubscriptionOutputFormat-discrete}
use openwec.Server.Subscriptions.Members.{Among}
use openwec.Subscription.Data.{
  SubscriptionData, is_active, SubscriptionUuid-discrete, InternalVersion-discrete,
  SubscriptionUuid, subscription_uuid_eq,
}
use openwec.Server.Subscriptions.{Subscription, from_data, reload_one, reload_subscriptions}
use openwec.Server.Subscriptions.Prune.{IsKeyed, IsKeyed-nil, IsKeyed-insert, data_at}
use openwec.Server.Subscriptions.Reload.{IsConsistent}
use openwec.Server.Subscriptions.Refinement.{reload_subscriptions-active}
use openwec.Server.Subscriptions.Soundness.{IsSound, reload_subscriptions-IsSound}
use openwec.Server.Output.{initialize_missing}
use openwec.Server.Subscriptions.Success.{reload_subscriptions-ok}
use openwec.Server.Subscriptions.Task.{
  ReloadEvent, reload_tick, garbage_collect_tick, sighup, reload_subscriptions_task,
  reload_subscriptions_task-IsSound,
}
use openwec.Tests.{clients, hash, id, logons, stale, context, memory, first, loaded, logons_built}

memory-IsKeyed : IsKeyed memory.subscriptions
unfolding Dict.insert
memory-IsKeyed = IsKeyed-insert [] stale IsKeyed-nil

version_differs :
    (u : SubscriptionUuid) (b : Subscription String ℕ ℕ) (s : SubscriptionData String)
    → lookup u memory.subscriptions ≡ some b
    → Among s (logons ∷ [])
    → b.subscription_data.internal_version ≡ s.internal_version
    → ⊥
unfolding lookup
version_differs u b s here (inl e) same = elim (Bool-cases (u == id 9)) [
  | inl is ↦ ground (arith, here, e, same)
  | inr other ↦ ground (arith, here)
]
version_differs u b s here (inr never) same = elim never [ ]

memory-IsConsistent : IsConsistent (logons ∷ []) memory.subscriptions
unfolding lookup
memory-IsConsistent = record {
  uuids = (tt, tt);
  content = λ u b s here among same. absurd (version_differs u b s here among same);
}

reloaded : (reload_subscriptions clients hash (ok (logons ∷ [])) true memory).1 ≡ ok tt
unfolding reload_subscriptions reload_one InternalVersion-discrete ℕ_discrete
reloaded = refl

reload_example :
    data_at
      (id 1)
      (reload_subscriptions clients hash (ok (logons ∷ [])) true memory).0.subscriptions
    ≡ some logons
unfolding is_active SubscriptionUuid-discrete ℕ_discrete
reload_example =
    reload_subscriptions-active clients hash (logons ∷ []) true memory (id 1) memory-IsKeyed
      memory-IsConsistent reloaded

nothing-IsSound : IsSound {P = String} {K = ℕ} {R = ℕ} hash []
unfolding lookup
nothing-IsSound = record { keyed = IsKeyed-nil; built = λ u b here. cc }

pub loaded-IsSound : IsSound hash loaded
loaded-IsSound =
    reload_subscriptions-IsSound clients hash (ok (logons ∷ [])) true first nothing-IsSound

IsSound_example :
    IsSound hash (reload_subscriptions clients hash (ok (logons ∷ [])) true first).0.subscriptions
IsSound_example =
    reload_subscriptions-IsSound clients hash (ok (logons ∷ [])) true first nothing-IsSound

abbrev reload_events : List (ReloadEvent String)
reload_events =
    reload_tick (ok (logons ∷ []))
    ∷ garbage_collect_tick
    ∷ reload_tick (bail "locked")
    ∷ sighup (ok [])
    ∷ []

task_example :
    IsSound hash
      (reload_subscriptions_task clients hash context.settings reload_events).subscriptions
task_example = reload_subscriptions_task-IsSound clients hash context.settings reload_events

logons_buildable :
    is_active logons ≡ true
    → (b : Subscription String ℕ ℕ) × (from_data clients hash logons context ≡ ok b)
unfolding from_data SubscriptionOutputFormat-discrete
logons_buildable on = (logons_built, refl)

no_context_missing : initialize_missing clients (logons ∷ []) context ≡ (context, ok tt)
unfolding initialize_missing
no_context_missing = refl

success_example : (reload_subscriptions clients hash (ok (logons ∷ [])) true memory).1 ≡ ok tt
success_example =
    reload_subscriptions-ok clients hash (logons ∷ []) true memory context no_context_missing
      (logons_buildable, tt)
