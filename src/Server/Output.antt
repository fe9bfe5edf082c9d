-- ===== src/Server/Output.antt =====
-- Outputs and their shared contexts: server/src/output.rs.
use openwec.Prelude.{
  String, Bool, true, false, ◌&&◌, Option, none, some, List, Result, ok, ◌>>=◌, ℕ, any, is_empty,
  if◌then◌else◌,
}
use openwec.Prelude.Dict.{Dict}
use openwec.Subscription.Output
use openwec.Subscription.Output.{
  SubscriptionOutput, SubscriptionOutputDriver, SubscriptionOutputFormat,
}
use openwec.Subscription.Data.{SubscriptionData, is_active}
use openwec.Server.Drivers
use openwec.Server.Drivers.{
  Clients, OutputFilesContext, OutputKafkaContext, OutputDriver, clear_handles, garbage_collect,
}

-- The settings that the drivers read: the Kafka options and the idle time after which a file is
-- closed.
pub record Outputs : Type 0 where
  pub kafka_options : Dict String String
  pub files_descriptor_close_timeout : ℕ

pub record OutputDriversContext (Producer : Type 0) : Type 0 where
  pub settings : Outputs
  pub files : Option OutputFilesContext
  pub kafka : Option (OutputKafkaContext Producer)

abbrev pub new_context : {K : Type 0} → Outputs → OutputDriversContext K
new_context settings = record { settings = settings; files = none; kafka = none }

abbrev is_files : SubscriptionOutputDriver → Bool
is_files (Output.files _) = true
is_files _ = false

abbrev is_shared_kafka : SubscriptionOutputDriver → Bool
is_shared_kafka (Output.kafka config) = is_empty config.options
is_shared_kafka _ = false

module _ {P : Type 0} where
  abbrev pub uses_driver : (SubscriptionOutputDriver → Bool) → List (SubscriptionData P) → Bool
  uses_driver test =
      any (λ s. is_active s && any (λ output. output.enabled && test output.driver) s.outputs)

  unfoldable pub need_files_context : List (SubscriptionData P) → Bool
  unfolding is_active
  need_files_context = uses_driver is_files

  unfoldable pub need_kafka_context : List (SubscriptionData P) → Bool
  unfolding is_active
  need_kafka_context = uses_driver is_shared_kafka

abbrev is_none {ℓ} : {A : Type ℓ} → Option A → Bool
is_none none = true
is_none (some _) = false

module _ {P K R : Type 0} (clients : Clients K R) where
  -- The contexts that the active outputs need and that are not there yet. The files context stays
  -- when the Kafka context fails.
  unfoldable pub initialize_missing :
      List (SubscriptionData P)
      → OutputDriversContext K
      → OutputDriversContext K × Result (Unit {0})
  unfolding need_files_context need_kafka_context Drivers.new_kafka_context
  initialize_missing subscriptions c =
      let with_files : OutputDriversContext K =
        if need_files_context subscriptions && is_none c.files
        then record c { files = some Drivers.new_files_context }
        else c in
      if need_kafka_context subscriptions && is_none c.kafka
      then elim (Drivers.new_kafka_context clients c.settings.kafka_options) [
        | ok kafka ↦ (record with_files { kafka = some kafka }, ok tt)
        | Result.err e ↦ (with_files, Result.err e)
      ]
      else (with_files, ok tt)

unfoldable pub clear : {K : Type 0} → OutputDriversContext K → OutputDriversContext K
unfolding Drivers.send
clear c = elim c.files [
  | none ↦ c
  | some files ↦ record c { files = some (Drivers.send clear_handles files) }
]

unfoldable pub garbage_collect_context :
    {K : Type 0} → Outputs → OutputDriversContext K → OutputDriversContext K
unfolding Drivers.send
garbage_collect_context settings c = elim c.files [
  | none ↦ c
  | some files ↦ record c {
    files = some (Drivers.send (garbage_collect settings.files_descriptor_close_timeout) files);
  }
]

-- `Output`, named for the server's side of a `SubscriptionOutput`.
pub record DriverOutput (Producer RedisClient : Type 0) : Type 0 where
  pub format : SubscriptionOutputFormat
  pub driver : OutputDriver Producer RedisClient
  pub subscription_output_driver : SubscriptionOutputDriver

module _ {K R : Type 0} (clients : Clients K R) where
  unfoldable pub new_driver :
      SubscriptionOutputDriver → OutputDriversContext K → Result (OutputDriver K R)
  unfolding Drivers.new_files Drivers.new_kafka Drivers.new_redis
  new_driver (Output.files config) c = Drivers.new_files config c.files
  new_driver (Output.kafka config) c = Drivers.new_kafka clients config c.kafka
  new_driver (Output.tcp config) c = ok (Drivers.tcp config)
  new_driver (Output.redis config) c = Drivers.new_redis clients config
  new_driver (Output.unix_datagram config) c = ok (Drivers.unix_datagram config)

  unfoldable pub new_output :
      SubscriptionOutputFormat
      → SubscriptionOutputDriver
      → OutputDriversContext K
      → Result (DriverOutput K R)
  unfolding new_driver
  new_output format driver c = do
    output_driver ← new_driver driver c
    ok (record { format = format; driver = output_driver; subscription_output_driver = driver })
