-- ===== src/Lib.antt =====
-- ChainLens, an indexer of an Ethereum chain (src/) written in Rust: it fetches blocks and
-- receipts from a node over JSON-RPC, decodes them with their token transfers, puts them in order
-- and commits each to PostgreSQL; when a block does not extend the chain it has stored, it
-- searches a common ancestor and rolls the database back.
--
-- The parts, in the order in which data flows through them:
-- - Base: the numbers, lists and options of all parts; `Outcome` is the `Result` of Rust with a
--   third case for a panic, whose absence or presence the theorems then state.
-- - Domain: src/domain/, the types of what is stored. A hash, an address and other bytes are
--   lists of numbers; an integer is a natural number, and a conversion, a cast or a saturation
--   that the code makes is written out.
-- - Rpc: src/rpc/mod.rs and types.rs, the answers of a node. `EthClient` is a record of
--   functions, so a theorem holds for any node; what it relies on stands among its hypotheses.
--   Rpc.Retry is retry.rs and the loop of `call` in http.rs, with the sleeps and requests as a
--   trace; Rpc.Http is the client of http.rs itself, over a transport and what serde makes of its
--   answers; Rpc.Quantity is the parser of hexadecimal quantities in types.rs.
-- - Decode: src/decode/. `decode_token_transfers` of erc20.rs is Decode.Erc20, `decode_block` of
--   block.rs is Decode.Blocks. The methods of alloy's `U256` are the parameter `Host`, with its
--   documented laws in `HostLaws`; indices are 64-bit, and an addition or a multiplication wraps,
--   as in the release profile. Decode.Erc20.Events is the specification of the standards' events,
--   as the logs that they make.
-- - Store: src/store/postgres.rs over the tables of migrations/. `Db` holds a list of rows for
--   each table; `insert_all` is an INSERT with ON CONFLICT DO NOTHING and foreign keys; a
--   transaction that fails leaves the old database.
-- - Reorg: src/reorg/. `detect` and `find_ancestor` are Reorg.Detect, the statements of
--   `rollback`, with the deletions that ON DELETE CASCADE brings, are Reorg.Rollback.
-- - Pipeline: src/pipeline/ and the main loop of src/main.rs. The workers are a step relation
--   given by choices (Worker): which worker goes next is any sequence. The sequencer is a state
--   with a buffer (Sequencer), the committer a function of a client and a database (Committer).
--   Channel is the bounded channel from the sequencer to the loop, whose moves interleave in any
--   way; Rounds composes them as one pass of the main loop, which can hang. HeadWatcher is the
--   polling for the head, by what each of its rounds finds.
-- - Cache: src/intelligence/cache.rs and, in Cache.Api, src/api/cache.rs. The hash map is a list
--   of entries in the order of its iteration, which is any; the clock's reading is an argument.
-- - Sql: what sqlx and the server do with the values and columns of a statement. `Server` says which
--   value is taken for a column of which type and which type of Rust reads it; a refused value is an
--   error, a refused column a panic, as `Row::get` documents.
-- - Config: src/config.rs, the validation of the settings.
-- - Intelligence: src/intelligence/. Mev is mev.rs: its detectors, and Mev.Analysis its
--   `analyze_block`. Graph is `build_graph` of graph.rs, a search with a queue, and Graph.Walks
--   the walks that it is measured by. Actions is `explain_transaction` of actions.rs: the arms
--   of its match are lists in Actions.Selectors, a slice out of range is a panic. Tables,
--   Interfaces and Events are the tables of interfaces.rs and events.rs; Labels is labels.rs,
--   over the tables of Store. Anomalies is anomaly.rs, with the floating-point numbers as a
--   parameter, and Background the task of background.rs, to which a panic is the end. What the
--   queries return, and the notations of the crates hex and alloy, are parameters. Persist is
--   persist.rs: its seven functions as inserts into the tables of Sql, and `perform`, which
--   carries out what the task writes. Clusters is clustering.rs, Trends is trends.rs and Export
--   is export.rs.
-- - Api: src/api/handlers.rs. Api itself has the pages, over the tables of Store; the sorting of
--   ORDER BY is the parameter `OrderBy` with what SQL says of it. Api.Reads is `get_block`,
--   `get_transaction`, `health` and `status` over the same tables; Api.Analyses the handlers that
--   call src/intelligence and persist what they answer; Api.Lookups those that only answer.
--   Api.Access is the middleware of auth.rs and ratelimit.rs.
-- - Tests: concrete inputs at which the theorems' hypotheses hold.
--
-- Bounds: `drain_buffer` runs on fuel, the size of the buffer, and each of its rounds takes one
-- entry away; `format_quantity` has 16 digits of fuel, which 64 bits need; `find_ancestor` runs
-- `max_depth + 1` rounds and `call` `max_retries + 1`, as their ranges say; the search of the
-- graph has `limit + 1` rounds, since each takes an address from the queue and at most `limit`
-- come in after the center. `find_clusters` runs on the fuel `weight depth`, the number of
-- addresses that rounds of at most 20 new neighbours can bring: 1 + 20 + ... + 20 ^ depth. Block
-- numbers are below 2 ^ 64 - 1, so that the sequencer's `expected` does not wrap.
--
-- Not modelled: the HTTP transport, the wire format of JSON but for `null`, and the rate limit;
-- log lines and metrics; cancellation and shutdown but for that of HeadWatcher, and the length
-- of pauses; the routing, CORS, logging and WebSocket of the API; address.rs, contract.rs and
-- alerting.rs, which are aggregates in SQL; how settings are read; and the other binaries. The
-- content of an error message is kept only where it names a block or a transaction.
pub mod Base
pub mod Domain
pub mod Rpc
pub mod Decode
pub mod Sql
pub mod Store
pub mod Reorg
pub mod Pipeline
pub mod Cache
pub mod Config
pub mod Intelligence
pub mod Api
pub mod Tests
