-- ===== src/Lib.antt =====
-- Verification of girasolbot, a trading bot that copies and sells positions on Solana: its core
-- logic as functions and step relations.
--
-- The parts and how they interact:
--   Settings (src/settings.rs) are validated once and read by all others. A buy task (src/main.rs)
--   screens a token (src/rug_guard.rs), reserves its mint with the position monitor
--   (src/position_monitor.rs), has its instructions built for the pool (src/raydium_v4.rs,
--   src/raydium_cpmm.rs; src/pumpfun_parser.rs reads the pump.fun accounts,
--   src/tx_builder.rs and src/tx_template.rs build its instructions) and registers the
--   position. The copy engine (src/copy_engine.rs) turns notifications about the target wallet
--   into trades of it; src/pumpswap.rs reads and mirrors those on PumpSwap. The monitor looks at
--   every position in a tick, and queues sell orders; a completed sale updates the position: the
--   executor of src/main.rs takes the orders, and those that mirror a sell of the target, in
--   turn. API keys are kept in src/api_key_vault.rs. Transactions go to providers behind circuit
--   breakers (src/swqos_sender.rs), to all at a time. src/shreds_listener.rs and
--   src/geyser_listener.rs find trades of the target in the shreds and in the updates of a Geyser
--   stream, before the copy engine sees them.
--
-- The files:
--   Prelude (Tests, Lists, Words, Dict, Texts, Options): tests on numbers, lists measured by native
--     numbers, bytes and little-endian integers, the `HashMap`s as association lists, texts by their
--     characters, and the `?` operator on options.
--   Float, Float/Fixed: the `f64` as an interface with the order that IEEE 754 gives it, and an
--     instance in fixed point for the tests. Theorems on floats hold of every instance.
--   Settings, Settings/Validated: `Settings::validate`.
--   Position/State, Position/Ops: `Holding` and `PositionMonitor` with its methods, one function each.
--     Position/Ops/Selling is about `update_after_sell`.
--   Position/Orders, Position/Tick: `monitor_loop`. `check_position` is the body of its loop over the
--     snapshot, cut where the source continues to the next position: `on_price`, `check_price`,
--     `check_stop` (trailing stop), `check_rug` and `check_levels` (take-profit and stop-loss).
--     `Quote` is what the RPC says of a mint, `World` the shared positions and the channel of orders.
--   Position/Revalidate: the checks against the chain.
--   Position/Buying: the buy tasks as a step relation over the monitor and one state per task; each
--     lock section of the source is one step.
--   Chain, Raydium: addresses, instructions and the calls to the Solana crates and the RPC (a record
--     `Chain`, a parameter of the builders), and the two pools. `Result` has the errors without their
--     texts. The derived borsh decoders are parameters.
--   RugGuard/Parsers, RugGuard/Screen: the account parsers and the screens of a token.
--   Swqos: the circuit breaker; an instant is a number of nanoseconds. Swqos/Providers has the providers
--     and what an answer of each is taken for, Swqos/Send the tasks and the caller of `send_concurrent`
--     as events.
--   Shreds: `resolve_keys` over the cache of lookup tables, with what the background tasks do between
--     two locks as a parameter; Shreds/Prefetch has those tasks as events, Shreds/Parse the search of a
--     transaction for a trade. The crate `lru` is a record of operations.
--   Geyser: the messages of the stream and the scan for the first trades; Geyser/Pump and Geyser/Swap
--     have the parsers of the exchanges, Geyser/Stream one update in the loop of `connect_and_stream`.
--   PumpfunParser: the readers of the pump.fun accounts.
--   Json, Json/Tree: what the code reads of a JSON value as an interface, and trees as an instance.
--   CopyEngine: Notification is the loop of `run_copy_engine` up to the fetch, Fetch the retries and
--     the signals that are sent, Transaction the search for trades in `fetch_and_parse_transaction`,
--     Pump, Balances and Swap the functions that it calls. `handle_message` composes them.
--   PumpSwap, PumpSwap/Parser: `build_buy_instructions`, `build_sell_instructions` and
--     `parse_pumpswap_instruction`.
--   Detections: the loop of the buy executor in src/main.rs up to the task of a buy, which drops
--     repeated detections. Replay: src/replay.rs, and the size of a buy in src/main.rs.
--   BuyExecutor: the task of a buy in src/main.rs, with one outcome for each way in which it ends.
--   SellExecutor, SellExecutor/MirrorSell: `run_sell_executor`, with one outcome for each way in which
--     its body ends, and the order for a detected sell.
--   Caches: the refresh loop of src/blockhash_cache.rs and src/leader_cache.rs with the callers of
--     `wait_ready`, as events; Caches/Late is about a call that misses the notification.
--   ApiKeyVault: Slots is the catalog, Cipher the derived keys and the encryption of an entry, File the
--     layouts, the parser and the migration, Store the operations on a `Disk`.
--   TxBuilder, TxBuilder/Template: the instructions of pump.fun of src/tx_builder.rs, and those that
--     src/tx_template.rs prepares before a mint is known. IDLs are a parameter.
--   Tests: runs, and instances of the theorems.
--
-- Numbers are natural numbers; where a u64 can leave its range the wrap-around of a release build is
-- written out, and `as u16` is `% 65536`. The loop over the extensions of a mint runs on fuel, one
-- step per byte, which is enough since every pass advances by four bytes or more.
--
-- Not modelled: the network (RPC, web sockets, QUIC, gRPC), the price feed, logging, the decoding
-- of shreds, `rpc.rs`, `buyer.rs` (its result is data of a buy), the IDL files, the Helius and
-- QUIC senders, and the files and permissions of the key vault beyond what `Disk` has. The
-- cryptography, serde_json, base58 and the random bytes are parameters, with what the theorems
-- rely on as records of laws. A nonce of a key entry that has not 12 bytes, at which the source
-- panics, is outside of the model. Saving the positions is taken to succeed, and texts of errors
-- and of decisions are constructors, except in the copy engine, whose retries read them.
pub mod Prelude
pub mod Detections
pub mod Float
pub mod Geyser
pub mod Settings
pub mod Position
pub mod Chain
pub mod Raydium
pub mod Replay
pub mod RugGuard
pub mod Swqos
pub mod PumpfunParser
pub mod Json
pub mod ApiKeyVault
pub mod PumpSwap
pub mod CopyEngine
pub mod SellExecutor
pub mod BuyExecutor
pub mod Caches
pub mod Shreds
pub mod TxBuilder
pub mod Tests
