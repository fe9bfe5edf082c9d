-- ===== src/Server/Drivers.antt =====
-- Output drivers and their shared contexts, as far as their construction goes: the constructors of
-- server/src/drivers/{files,kafka,redis,tcp,unix}.rs. The Kafka and Redis clients are parameters.
use openwec.Prelude.{
  String, Option, none, some, List, [], ◌∷◌, ◌++◌, Result, ok, bail, with_context, ◌>>=◌, ℕ,
  is_empty, string_eq, if◌then◌else◌,
}
use openwec.Prelude.Dict
use openwec.Prelude.Dict.{Dict}
use openwec.Subscription.Output.{
  KafkaConfiguration, RedisConfiguration, TcpConfiguration, FilesConfiguration,
  UnixDatagramConfiguration,
}

-- The crates `rdkafka` and `redis`: `ClientConfig::create`, and `Client::open` on an address.
pub record Clients (Producer RedisClient : Type 0) : Type 0 where
  pub create : Dict String String → Result Producer
  pub open_redis : String → Result RedisClient

-- A write to a file, without the channel for its result.
pub record WriteMessage : Type 0 where
  pub path : String
  pub content : String

-- The messages to the thread that owns the open files.
pub data WriteFilesMessage : Type 0 where
  write : WriteMessage → WriteFilesMessage
  garbage_collect : ℕ → WriteFilesMessage
  clear_handles stop : WriteFilesMessage

-- The sending end of the channel: what has been sent.
pub record OutputFilesContext : Type 0 where
  pub sent : List WriteFilesMessage

abbrev pub new_files_context : OutputFilesContext
new_files_context = record { sent = [] }

unfoldable pub send : WriteFilesMessage → OutputFilesContext → OutputFilesContext
send message c = record { sent = c.sent ++ message ∷ [] }

pub record OutputKafkaContext (Producer : Type 0) : Type 0 where
  pub producer : Producer

-- The driver that an output writes to.
pub data OutputDriver (Producer RedisClient : Type 0) : Type 0 where
  files : FilesConfiguration → OutputDriver Producer RedisClient
  kafka : KafkaConfiguration → Producer → OutputDriver Producer RedisClient
  tcp : TcpConfiguration → OutputDriver Producer RedisClient
  redis : RedisConfiguration → RedisClient → OutputDriver Producer RedisClient
  unix_datagram : UnixDatagramConfiguration → OutputDriver Producer RedisClient

abbrev set_options : Dict String String → Dict String String → Dict String String
set_options config [] = config
set_options config ((key, value) ∷ options) = set_options (Dict.insert key value config) options

module _ {K R : Type 0} (clients : Clients K R) where
  -- A producer from options, which must name the servers.
  unfoldable pub create_producer : Dict String String → Result K
  unfolding Dict.insert Dict.lookup
  create_producer options =
      let config = set_options (("delivery.timeout.ms", "30000") ∷ []) options in
      elim (Dict.lookup "bootstrap.servers" config) [
        | none ↦ bail "'bootstrap.servers' option must be configured for Kafka outputs to work"
        | some _ ↦ clients.create config
      ]

  unfoldable pub new_kafka_context : Dict String String → Result (OutputKafkaContext K)
  unfolding create_producer
  new_kafka_context options = do
    producer ← create_producer options
    ok (record { producer = producer })

  unfoldable pub new_kafka :
      KafkaConfiguration → Option (OutputKafkaContext K) → Result (OutputDriver K R)
  unfolding create_producer
  new_kafka config context =
      if is_empty config.options
      then elim context [
        | none ↦ bail "Kafka output options are empty but Kafka context is not initialized"
        | some c ↦ ok (kafka config c.producer)
      ]
      else (do producer ← create_producer config.options; ok (kafka config producer))

  unfoldable pub new_redis : RedisConfiguration → Result (OutputDriver K R)
  new_redis config = do
    client ← with_context "Could not open redis connection" (clients.open_redis config.addr)
    ok (redis config client)

unfoldable pub new_files :
    {K R : Type 0} → FilesConfiguration → Option OutputFilesContext → Result (OutputDriver K R)
new_files config none = bail "Files output context has not been initialized"
new_files config (some c) = ok (files config)
