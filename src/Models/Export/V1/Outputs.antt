-- ===== src/Models/Export/V1/Outputs.antt =====
-- Outputs in the first version of the export format (common/src/models/export.rs).
use openwec.Prelude.{ℕ, String, Bool, false, Option, none, some, [], Result}
use openwec.Prelude.Dict.{Dict}
use openwec.Prelude.Run.{Run, done, ◌>>=◌, lift, expect}
use openwec.Subscription.Output
use openwec.Models.FilesPath.{transform_files_config_to_path}

pub record KafkaConfiguration : Type 0 where
  pub topic : String
  pub options : Dict String String

unfoldable pub into_kafka : KafkaConfiguration → Output.KafkaConfiguration
into_kafka value = record { topic = value.topic; options = value.options }

pub record RedisConfiguration : Type 0 where
  pub addr : String
  pub list : String

unfoldable pub into_redis : RedisConfiguration → Output.RedisConfiguration
into_redis value = record { addr = value.addr; list = value.list }

pub record TcpConfiguration : Type 0 where
  pub addr : String
  pub port : ℕ

-- `is_ip_addr` is the success of `IpAddr::from_str`.
unfoldable pub into_tcp : (String → Bool) → TcpConfiguration → Result Output.TcpConfiguration
into_tcp is_ip_addr value =
    Output.tcp_configuration is_ip_addr value.addr value.port false [] none none

pub record FilesConfiguration : Type 0 where
  pub base : String
  pub split_on_addr_index : Option ℕ
  pub append_node_name : Bool
  pub filename : String

-- The settings become one path template.
unfoldable pub into_files : FilesConfiguration → Run Output.FilesConfiguration
into_files value = do
  path ← expect (
      transform_files_config_to_path (some value.base) value.split_on_addr_index
        (some value.append_node_name) (some value.filename))
  done (record { path = path })

pub record UnixDatagramConfiguration : Type 0 where
  pub path : String

unfoldable pub into_unix_datagram : UnixDatagramConfiguration → Output.UnixDatagramConfiguration
into_unix_datagram value = record { path = value.path }

pub data SubscriptionOutputDriver : Type 0 where
  files : FilesConfiguration → SubscriptionOutputDriver
  kafka : KafkaConfiguration → SubscriptionOutputDriver
  tcp : TcpConfiguration → SubscriptionOutputDriver
  redis : RedisConfiguration → SubscriptionOutputDriver
  unix_datagram : UnixDatagramConfiguration → SubscriptionOutputDriver

unfoldable pub into_driver :
    (String → Bool) → SubscriptionOutputDriver → Run Output.SubscriptionOutputDriver
into_driver is_ip_addr (files config) = do config ← into_files config; done (Output.files config)
into_driver is_ip_addr (kafka config) = done (Output.kafka (into_kafka config))
into_driver is_ip_addr (tcp config) = do
  config ← lift (into_tcp is_ip_addr config)
  done (Output.tcp config)
into_driver is_ip_addr (redis config) = done (Output.redis (into_redis config))
into_driver is_ip_addr (unix_datagram config) =
    done (Output.unix_datagram (into_unix_datagram config))

pub data SubscriptionOutputFormat : Type 0 where
  json raw raw_json nxlog : SubscriptionOutputFormat

unfoldable pub into_format : SubscriptionOutputFormat → Output.SubscriptionOutputFormat
into_format json = Output.json
into_format raw = Output.raw
into_format raw_json = Output.raw_json
into_format nxlog = Output.nxlog

pub record SubscriptionOutput : Type 0 where
  pub format : SubscriptionOutputFormat
  pub driver : SubscriptionOutputDriver
  pub enabled : Bool

unfoldable pub into_output : (String → Bool) → SubscriptionOutput → Run Output.SubscriptionOutput
into_output is_ip_addr value = do
  driver ← into_driver is_ip_addr value.driver
  done (record { format = into_format value.format; driver = driver; enabled = value.enabled })
