-- ===== src/Lib.antt =====
-- OpenWEC collects Windows events: clients subscribe by WS-Management messages, the server hands the
-- events they send to outputs, and a database keeps subscriptions, bookmarks and heartbeats.
--
-- The parts and where they are modelled:
--
-- Subscription (common/src/subscription.rs). Subscription/Output.antt has the configurations of the
-- drivers and the formats; Subscription/Filter.antt has `ClientFilter` with its operations, over the
-- crate `glob` and Unicode lower case as parameters; Subscription/Data.antt has `SubscriptionData` and
-- its setters, over the hash of the parameters and the UUIDs that `Uuid::new_v4` draws. UUIDs are the
-- natural numbers of their 128 bits.
--
-- Database (common/src/database). Database/Heartbeats.antt has the rows that the heartbeat statements
-- of sqlite.rs and postgres.rs leave, Database/Stats.antt the statistics over them,
-- Database/Bookmarks.antt the table of bookmarks, and Database/Schema.antt the migrator of
-- schema/mod.rs. A table is a list of its rows under its primary
-- key. Statements are modelled where they succeed; failures are answers of the surroundings of a
-- handler. Versions of migrations are natural numbers, and whether a script succeeds is a parameter.
--
-- Server (server/src). Server/Drivers.antt and Server/Output.antt build outputs from their
-- configurations (drivers/*.rs, output.rs), over the clients of rdkafka and redis.
-- Server/Subscriptions.antt is the map of subscriptions in memory and `reload_subscriptions`
-- (subscription.rs), which uses them and reads the database; its child Task is the task that calls it.
-- Server/Heartbeat.antt is the task of heartbeat.rs, a step function over what `select!` picks. Server/Messages.antt has the types of
-- messages (soap.rs, lib.rs, event.rs); Server/Logic.antt with its children Enumerate, Heartbeats,
-- Events and Dispatch has the handlers of logic.rs, which read the map in memory, write bookmarks, send
-- messages to the heartbeat task, and spawn the tasks that write to the outputs. What the clock, the
-- channel, the database and the output drivers answer is a record, `Surroundings`. The formatters and
-- the event parser are called through an interface, `Formatters`.
--
-- Server/Files.antt is the thread of the files driver (drivers/files.rs): the map of opened files, what
-- `handle_message`, `garbage_collect` and `run` make of it, over a file system as a parameter. Its child
-- Names has the values of path templates (`PathValues`, `sanitize_name`), `build_path` and `write`, over
-- the templates of the crate `leon`. Server/Sldc.antt is `decompress` of sldc.rs. The crate `bitreader` is
-- the interface of Server/BitReader.antt, with the laws of a reader over a list of bits.
-- Server/Multipart.antt reads and makes the bodies of encrypted messages (multipart.rs), over the crates
-- that cut streams and parse headers; its child Laws says what it relies on in them.
--
-- Models (common/src/models, common/src/transformers). Models/Export.antt is the export and the import of
-- subscriptions, with a child for each version of the file; serde_json is a parameter. Models/Config.antt
-- is the configuration file of a subscription, over toml. Models/FilesPath.antt makes the path of a files
-- output from its old parameters. All of them build the types of Subscription. Where the code may also
-- panic (`unwrap`, `expect`, an index out of range), results are values of `Run` (Prelude/Run.antt).
--
-- Maps and sets are lists in one iteration order, which is arbitrary. Where the order of a set reaches
-- a list or a text, as when the targets of a filter are joined or exported, it is a parameter `order`,
-- any permutation, and results are stated up to permutations. Loops are over lists, but for
-- the loop of `decompress`, which has fuel for as many rounds as there are bits: each round reads one
-- bit at least, so that the fuel is enough. Errors are values of `Result`, with the chain of contexts of
-- `anyhow` but without the values interpolated into the texts.
--
-- Not modelled: XML, HTTP, TLS, Kerberos and the other I/O, logging and metrics; the locks, since a
-- reload and a handler's look at the map each hold the lock while they run; proxy_protocol.rs, which is
-- a copy of hyper-server's code; the formatters, the settings and the command line; the
-- export in version 2, which nothing calls, and the types between which output_files_use_path.rs
-- converts. Tests.antt and its children run the definitions and the theorems on concrete data.
pub mod Prelude
pub mod Subscription
pub mod Database
pub mod Models
pub mod Server
pub mod Tests
