-- ===== src/Models/Export.antt =====
-- Export and import of subscriptions: common/src/models/export.rs. The package serde_json is a
-- record of its two functions.
pub mod V1
pub mod V2
pub mod V3
pub mod RoundTrip
pub mod Legacy
use openwec.Prelude.{ℕ, String, Bool, List, Result}
use openwec.Prelude.Run.{Run, ◌>>=◌, lift, run_context}
use openwec.Subscription.Data.{Uuid, SubscriptionData}
use openwec.Subscription.Filter.{Glob}

pub data ImportExport : Type 0 where
  v1 : V1.Subscriptions → ImportExport
  v2 : V2.Subscriptions → ImportExport
  v3 : V3.Subscriptions → ImportExport

pub record SerdeJson : Type 0 where
  pub to_string : ImportExport → Result String
  pub from_str : String → Result ImportExport

module _ {P : Type 0} (crate : Glob P) (to_lowercase : String → String)
    (serde_json : SerdeJson) where
  -- `order` is the order in which exported sets of targets iterate.
  unfoldable pub serialize : (List String → List String) → List (SubscriptionData P) → Run String
  serialize order subscriptions = do
    export ← V3.from_subscriptions crate to_lowercase order subscriptions
    lift (serde_json.to_string (v3 export))

  unfoldable pub into_subscriptions :
      (is_ip_addr : String → Bool)
      → (drawn : ℕ → ℕ → Uuid) → ImportExport
      → Run (List (SubscriptionData P))
  into_subscriptions is_ip_addr drawn (v1 subscriptions) =
      V1.into_subscriptions is_ip_addr drawn subscriptions
  into_subscriptions is_ip_addr drawn (v2 subscriptions) =
      V2.into_subscriptions is_ip_addr drawn subscriptions
  into_subscriptions is_ip_addr drawn (v3 subscriptions) =
      V3.into_subscriptions crate to_lowercase is_ip_addr drawn subscriptions

  unfoldable pub parse :
      (is_ip_addr : String → Bool)
      → (drawn : ℕ → ℕ → Uuid) → String
      → Run (List (SubscriptionData P))
  parse is_ip_addr drawn content = do
    import ← run_context "Failed to parse file" (lift (serde_json.from_str content))
    run_context "Invalid subscription data" (into_subscriptions is_ip_addr drawn import)
