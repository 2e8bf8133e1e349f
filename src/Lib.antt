-- ===== src/Lib.antt =====
-- A model of LDK Server, a daemon that serves an ldk-node Lightning node over HTTPS, of its start,
-- configuration and certificates, of the client library, and of the two clients that use it: the
-- command line client and the graphical one.
--
-- Parts and files. A client method (Client, for ldk-server-client/src/client.rs and error.rs) encodes
-- a request, signs it with the shared key (`compute_auth_header`, in Auth), and posts it to the path
-- of its endpoint (`posts_to`; Proto, for ldk-server-protos/src/endpoints.rs and error.rs). The
-- service (Service, for ldk-server/src/service.rs) answers preflights, reads the header
-- (`extract_auth_params`), routes on the path, limits the body, checks the HMAC
-- (`validate_hmac_auth`), decodes, runs the handler that the path's arm names (`handler_of`), and
-- turns its result or its error (Api/Error, for ldk-server/src/api/error.rs and `to_error_response`)
-- into a response, from which the client reads the same result or error (`read_response`). Auth has
-- both ends of the authentication.
--
-- The handlers are in Api and Query, for ldk-server/src/api: Channels, Payments with what it reads
-- from a request in PaymentArgs, ListPayments, and ChannelConfig for
-- `build_channel_config_from_proto`; Query has those that only look at the node, with the conversions
-- of channels and balances (Query/Channels and Query/Balance, for
-- ldk-server/src/util/proto_adapter.rs). A handler of Api is a function on the node's state that
-- returns a response or an error and the node as it leaves it (Api/Act); what the node itself does,
-- and the parsers of its types, are the fields of the record `Ldk` (Api/Node), and what it shows those
-- of `View` in Query. The service is stated for any handlers (`Route`), with the state that they
-- share.
--
-- The store of payments (Storage, for ldk-server/src/io) is the list of the rows of the SQLite table.
-- Namespace has the checks on namespaces and keys, Sqlite the three operations, each statement being a
-- function on the rows. That SQLite fails to prepare or to run a statement is an argument (`Engine`).
-- Sqlite/Open is `SqliteStore::new`, on the database that it finds.
--
-- The command line client (Cli, for ldk-server-cli/src) finds its configuration, key, URL and
-- certificate (Settings, for `main` and config.rs), makes the call of the client from a command
-- (Command), prints its outcome (Printed), and, for the lists, prints and parses page tokens and
-- collects the pages (Paging, with types.rs).
--
-- The daemon's events (Events, for the match on the events in ldk-server/src/main.rs with
-- `publish_event_and_upsert_payment` and `upsert_payment_details`) are steps on the node, the
-- publisher and the table: an event's payment, made a message by `payment_to_proto` (Payment, for
-- ldk-server-protos/src/types.rs and ldk-server/src/util/proto_adapter.rs), is published, then stored,
-- and then the node is told. The publisher is any implementation of the trait `EventPublisher`; the
-- node, the encoders and the printers of ids are the fields of the records `Daemon` and `Printers`.
-- ListPayments reads what Events stores. The Rust code's panics at `expect` are `none`; one of
-- them is that of a clock before 1970.
--
-- The publisher of RabbitMQ (Events/RabbitMq, for ldk-server/src/io/events) is one such
-- implementation: a session keeps a connection and a channel, `ensure_connected` replaces them when
-- the connection is not alive, and `publish` waits for the broker's confirmation.
--
-- The start of the daemon (Start, for `main` and `load_or_generate_api_key` in ldk-server/src/main.rs
-- and `init` in util/logger.rs) reads the configuration (Config, for ldk-server/src/util/config.rs,
-- with the parsed TOML in Config/Toml), makes the directories and the log file, and loads or generates
-- the key that the clients read. The certificate and its key (Tls, for ldk-server/src/util/tls.rs) are
-- generated on the first start and loaded after that; Tls/Pem parses and prints them.
--
-- The graphical client (Gui, for ldk-server-gui/src) is its state (Gui/State, Form and Initial, for
-- state.rs), its configuration (Gui/Config, for config.rs), the requests that its forms make
-- (Gui/Requests), sending, connecting and disconnecting (Gui/Launch), and the answers that it polls
-- for (Gui, all for app.rs). A task that waits is a function's value at its operation; a log of what
-- was sent and answered is kept beside the state, for the theorems only.
--
-- Conventions. A `Text` is a list of bytes. The files are a function from paths to contents (`Files`),
-- and a record of faults says which access to a path fails (`Disk`); a failed write may leave anything
-- there. Integers are natural numbers with the bound that the source's type has where the code checks
-- or parses it (u8, u16, u64, u128), and `ℤ` for i64; the digits of a number are printed and parsed
-- with an overflow check (Text/Decimal). A loop that could run for ever, that of `fetch_paginated`,
-- has fuel: more than the number of rows is enough, since every page but the last one is not empty.
-- Printing a number has fuel for each digit. That `Vec::with_capacity` panics or aborts for a count
-- that is too large is a result of `fetch_paginated` (`Memory`), and `read_to_string` refuses what is
-- not UTF-8 (Text/Utf8).
--
-- Taken as parameters, with what their documentation says as hypotheses (`AuthLaws`, `HttpLaws`,
-- `Base64Laws`, `TomlLaws`): the HMAC as it is printed, hyper's header and body, prost's message
-- codecs, base64, the toml crate, rcgen, rustls, lapin, ldk-node, the clock and the network. That an
-- HMAC cannot be forged is not stated anywhere: an accepted header is shown to hold the HMAC for this
-- key, this timestamp and this body.
--
-- Not modelled: the loop of the daemon over connections and signals, building the node, the modes of
-- files and the records of the log file, the parsing of arguments by clap and the JSON of printed
-- responses, what egui draws, the task runtime, the graphical client's build for browsers and the time
-- of its status messages, and the fields of generated messages that no modelled code uses. The pages
-- of `fetch_paginated` are those of a store that does not change between two pages. An empty path, on
-- which the service panics, has no answer here.
mod Prelude
pub mod Text
pub mod Files
pub mod Tls
pub mod Config
pub mod Start
pub mod Proto
pub mod Api
pub mod Auth
pub mod Service
pub mod Client
pub mod Storage
pub mod Payment
pub mod Query
pub mod Events
pub mod Cli
pub mod Gui
pub mod Tests
