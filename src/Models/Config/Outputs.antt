-- ===== src/Models/Config/Outputs.antt =====
-- Outputs in the configuration files of subscriptions (common/src/models/config.rs).
use openwec.Prelude.{
  ℕ, String, Bool, true, false, Option, none, some, List, [], ◌∷◌, Result, err, ok, bail,
  with_context, ◌>>=◌,
}
use openwec.Prelude.Dict.{Dict}
use openwec.Subscription.Output
use openwec.Models.FilesPath.{transform_files_config_to_path, unwrap_or}

pub record KafkaConfiguration : Type 0 where
  pub topic : String
  pub options : Dict String String

unfoldable pub into_kafka : KafkaConfiguration → Output.KafkaConfiguration
into_kafka value = record { topic = value.topic; options = value.options }

pub record RedisConfiguration : Type 0 where
  pub addr : String
  pub list : String

unfoldable pub into_redis : RedisConfiguration → Output.RedisConfiguration
into_redis value = record { addr = value.addr; list = value.list }

pub data StringOrVecString : Type 0 where
  string : String → StringOrVecString
  vec : List String → StringOrVecString

pub record TcpConfiguration : Type 0 where
  pub host : String
  pub port : ℕ
  pub tls_enabled : Option Bool
  pub tls_certificate_authorities : Option StringOrVecString
  pub tls_certificate : Option String
  pub tls_key : Option String

abbrev authorities : Option StringOrVecString → List String
authorities (some (string s)) = s ∷ []
authorities (some (vec v)) = v
authorities none = []

-- `is_ip_addr` is the success of `IpAddr::from_str`.
unfoldable pub into_tcp : (String → Bool) → TcpConfiguration → Result Output.TcpConfiguration
into_tcp is_ip_addr value = with_context "Loading {:?}" (
    Output.tcp_configuration is_ip_addr value.host value.port (unwrap_or value.tls_enabled false)
      (authorities value.tls_certificate_authorities) value.tls_certificate value.tls_key)

pub record FilesConfiguration : Type 0 where
  pub path : Option String
  pub base : Option String
  pub split_on_addr_index : Option ℕ
  pub append_node_name : Option Bool
  pub filename : Option String

-- An error of the transformation gets another text.
abbrev import_error : Result String → Result String
import_error (ok path) = ok path
import_error (err e) = bail "Failed to import Files configuration {:?}: {:?}"

unfoldable pub into_files : FilesConfiguration → Result Output.FilesConfiguration
into_files value = do
  path ← (elim value.path [
    | some path ↦ ok path
    | none ↦ import_error (
        transform_files_config_to_path value.base value.split_on_addr_index value.append_node_name
          value.filename)
  ])
  ok (record { path = path })

pub record UnixDatagramConfiguration : Type 0 where
  pub path : String

unfoldable pub into_unix_datagram : UnixDatagramConfiguration → Output.UnixDatagramConfiguration
into_unix_datagram value = record { path = value.path }

pub data SubscriptionOutputDriver : Type 0 where
  files : FilesConfiguration → SubscriptionOutputDriver
  kafka : KafkaConfiguration → SubscriptionOutputDriver
  tcp : TcpConfiguration → SubscriptionOutputDriver
  redis : RedisConfiguration → SubscriptionOutputDriver
  unix_datagram : UnixDatagramConfiguration → SubscriptionOutputDriver

unfoldable pub into_driver :
    (String → Bool) → SubscriptionOutputDriver → Result Output.SubscriptionOutputDriver
into_driver is_ip_addr (files config) = do config ← into_files config; ok (Output.files config)
into_driver is_ip_addr (kafka config) = ok (Output.kafka (into_kafka config))
into_driver is_ip_addr (tcp config) = do config ← into_tcp is_ip_addr config; ok (Output.tcp config)
into_driver is_ip_addr (redis config) = ok (Output.redis (into_redis config))
into_driver is_ip_addr (unix_datagram config) =
    ok (Output.unix_datagram (into_unix_datagram config))

pub data SubscriptionOutputFormat : Type 0 where
  json raw raw_json nxlog : SubscriptionOutputFormat

unfoldable pub into_format : SubscriptionOutputFormat → Output.SubscriptionOutputFormat
into_format json = Output.json
into_format raw = Output.raw
into_format raw_json = Output.raw_json
into_format nxlog = Output.nxlog

pub record SubscriptionOutput : Type 0 where
  pub format : SubscriptionOutputFormat
  pub driver : SubscriptionOutputDriver
  pub enabled : Option Bool

unfoldable pub into_output : (String → Bool) → SubscriptionOutput → Result Output.SubscriptionOutput
into_output is_ip_addr value = do
  driver ← into_driver is_ip_addr value.driver
  ok (record {
    format = into_format value.format;
    driver = driver;
    enabled = unwrap_or value.enabled true;
  })
