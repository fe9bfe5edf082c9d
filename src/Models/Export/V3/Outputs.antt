-- ===== src/Models/Export/V3/Outputs.antt =====
-- Outputs in the third version of the export format (common/src/models/export.rs).
use openwec.Prelude.{ℕ, String, Bool, false, Option, none, some, List, Result, ok, ◌>>=◌}
use openwec.Prelude.Dict.{Dict}
use openwec.Subscription.Output

pub record KafkaConfiguration : Type 0 where
  pub topic : String
  pub options : Dict String String

unfoldable pub into_kafka : KafkaConfiguration → Output.KafkaConfiguration
into_kafka value = record { topic = value.topic; options = value.options }

unfoldable pub from_kafka : Output.KafkaConfiguration → KafkaConfiguration
from_kafka value = record { topic = value.topic; options = value.options }

pub record RedisConfiguration : Type 0 where
  pub addr : String
  pub list : String

unfoldable pub into_redis : RedisConfiguration → Output.RedisConfiguration
into_redis value = record { addr = value.addr; list = value.list }

unfoldable pub from_redis : Output.RedisConfiguration → RedisConfiguration
from_redis value = record { addr = value.addr; list = value.list }

pub record TcpConfiguration : Type 0 where
  pub addr : String
  pub port : ℕ
  pub tls_enabled : Option Bool
  pub tls_certificate_authorities : List String
  pub tls_certificate : Option String
  pub tls_key : Option String

-- `unwrap_or(false)`
abbrev is_enabled : Option Bool → Bool
is_enabled (some enabled) = enabled
is_enabled none = false

-- `is_ip_addr` is the success of `IpAddr::from_str`.
unfoldable pub into_tcp : (String → Bool) → TcpConfiguration → Result Output.TcpConfiguration
unfolding Output.tcp_configuration
into_tcp is_ip_addr value =
    Output.tcp_configuration is_ip_addr value.addr value.port (is_enabled value.tls_enabled)
      value.tls_certificate_authorities value.tls_certificate value.tls_key

unfoldable pub from_tcp : Output.TcpConfiguration → TcpConfiguration
from_tcp value = record {
  addr = value.host;
  port = value.port;
  tls_enabled = some value.tls_enabled;
  tls_certificate_authorities = value.tls_certificate_authorities;
  tls_certificate = value.tls_certificate;
  tls_key = value.tls_key;
}

pub record FilesConfiguration : Type 0 where
  pub path : String

unfoldable pub into_files : FilesConfiguration → Output.FilesConfiguration
into_files value = record { path = value.path }

unfoldable pub from_files : Output.FilesConfiguration → FilesConfiguration
from_files value = record { path = value.path }

pub record UnixDatagramConfiguration : Type 0 where
  pub path : String

unfoldable pub into_unix_datagram : UnixDatagramConfiguration → Output.UnixDatagramConfiguration
into_unix_datagram value = record { path = value.path }

unfoldable pub from_unix_datagram : Output.UnixDatagramConfiguration → UnixDatagramConfiguration
from_unix_datagram value = record { path = value.path }

pub data SubscriptionOutputDriver : Type 0 where
  files : FilesConfiguration → SubscriptionOutputDriver
  kafka : KafkaConfiguration → SubscriptionOutputDriver
  tcp : TcpConfiguration → SubscriptionOutputDriver
  redis : RedisConfiguration → SubscriptionOutputDriver
  unix_datagram : UnixDatagramConfiguration → SubscriptionOutputDriver

unfoldable pub into_driver :
    (String → Bool) → SubscriptionOutputDriver → Result Output.SubscriptionOutputDriver
unfolding into_kafka into_redis into_tcp into_files into_unix_datagram
into_driver is_ip_addr (files config) = ok (Output.files (into_files config))
into_driver is_ip_addr (kafka config) = ok (Output.kafka (into_kafka config))
into_driver is_ip_addr (tcp config) = do config ← into_tcp is_ip_addr config; ok (Output.tcp config)
into_driver is_ip_addr (redis config) = ok (Output.redis (into_redis config))
into_driver is_ip_addr (unix_datagram config) =
    ok (Output.unix_datagram (into_unix_datagram config))

unfoldable pub from_driver : Output.SubscriptionOutputDriver → SubscriptionOutputDriver
unfolding from_kafka from_redis from_tcp from_files from_unix_datagram
from_driver (Output.files config) = files (from_files config)
from_driver (Output.kafka config) = kafka (from_kafka config)
from_driver (Output.tcp config) = tcp (from_tcp config)
from_driver (Output.redis config) = redis (from_redis config)
from_driver (Output.unix_datagram config) = unix_datagram (from_unix_datagram config)

pub data SubscriptionOutputFormat : Type 0 where
  json raw raw_json nxlog : SubscriptionOutputFormat

unfoldable pub into_format : SubscriptionOutputFormat → Output.SubscriptionOutputFormat
into_format json = Output.json
into_format raw = Output.raw
into_format raw_json = Output.raw_json
into_format nxlog = Output.nxlog

unfoldable pub from_format : Output.SubscriptionOutputFormat → SubscriptionOutputFormat
from_format Output.json = json
from_format Output.raw = raw
from_format Output.raw_json = raw_json
from_format Output.nxlog = nxlog

pub record SubscriptionOutput : Type 0 where
  pub format : SubscriptionOutputFormat
  pub driver : SubscriptionOutputDriver
  pub enabled : Bool

unfoldable pub into_output : (String → Bool) → SubscriptionOutput → Result Output.SubscriptionOutput
unfolding into_format into_driver
into_output is_ip_addr value = do
  driver ← into_driver is_ip_addr value.driver
  ok (record { format = into_format value.format; driver = driver; enabled = value.enabled })

unfoldable pub from_output : Output.SubscriptionOutput → SubscriptionOutput
unfolding from_format from_driver
from_output value = record {
  format = from_format value.format;
  driver = from_driver value.driver;
  enabled = value.enabled;
}
