-- ===== src/Lib.antt =====
-- The core of a low-latency crypto trading engine: the parts that decide what happens to an order.
-- A strategy's order passes the pre-trade checks, is entered in the order table, is checked against
-- the account's own resting orders, and is followed to its end by the events of the exchange; the
-- rate limiter guards the calls to a venue, rings carry messages between two threads, and the
-- settlement tracker follows the transfers on chain.
--
-- Oms.Order: src/oms/order_state_machine.rs, `Order`. Its atomic fields are the fields of a record,
--   and each method a function to the new order. Oms.Order.Race takes the load and the
--   compare-and-exchange of `transition_to` apart and interleaves those of any number of threads.
-- Oms.Machine: the same file, `OrderStateMachine`: the table, the ids, the events, the timeouts.
-- Oms.Stp: src/oms/self_trade_prevention.rs: the books of the subaccounts, the check of an
--   aggressive order, and the check of four accounts with and without AVX2.
-- Oms.Idempotency: src/oms/idempotency_key.rs: the keys of client orders, and the table that detects
--   a key that is used twice; History follows a key through later checks, Clearing through a clearing.
-- Risk.PreTradeBus: src/risk/pre_trade_bus.rs: the kill switches, the exposure limits, the rate
--   window and the queue of approved requests. Its two statics are fields of the bus. Race takes the
--   check of an order and its addition to the exposure apart, and interleaves those of many threads.
-- Compliance.RateLimiter: src/compliance/rate_limiter.rs: the token buckets and the circuit breaker.
-- Transport.RingBuffer: src/transport/ring_buffer.rs; Spsc runs one producer and one consumer on it,
--   access by access.
-- Recon.Settlement: src/recon/settlement_tracker.rs: transactions, confirmations and
--   batches; Confirmations has the check of four transactions at once.
-- Gateways.Manager: src/gateways/gateway_manager.rs: the gateways of the venues, whose type and methods
--   are parameters, and the circuit breaker.
-- Gateways.FixParse, Gateways.FixEngine: src/gateways/fix_protocol_engine.rs: the fields and numbers of FIX
--   messages, the check of their sum, the incremental refresh and the session. The ring is a parameter;
--   FixEngine.Ring puts the ring of Transport.RingBuffer and the session of FixEngine together, and makes
--   them a gateway of Gateways.Manager.
-- Transport.SharedMemory: src/transport/shared_memory.rs: the circular writes and reads of a mapped file;
--   Circular goes byte by byte, and Log keeps the log of all that was written.
-- Transport.IpcChannel: src/transport/ipc_channel.rs: messages, their checksum, and the channel.
-- Stablecoins.BridgeFinality, Stablecoins.DepegSafeguard: src/stablecoins/bridge_finality.rs and
--   depeg_safeguard.rs: pending transfers and the risk score; prices, haircuts and the halt.
-- Portfolio.Rebalancing: src/portfolio/rebalancing_engine.rs: weights, drift, the orders that rebalance,
--   the shadow mode and the breaker.
-- Normalization.L2: src/normalization/l2_normalizer.rs: the books that are built from the updates of all
--   venues; Quantities has a side of a book as a map from prices to quantities, and Books the books of all
--   symbols while events come in and books get stale.
-- MarketData.OrderBook: src/market_data/order_book.rs: the levels of a side, the best price, the book.
--   `update` is `none` while another thread holds the lock, where the source spins.
-- Execution.Iceberg: src/execution/iceberg_handler.rs: iceberg orders and their places in the queue.
--   Whether the processor has AVX2 is an argument; a shift takes its distance modulo 64.
-- Execution.Schedule: src/execution/twap_vwap.rs: the slices of TWAP and VWAP, the timer wheel, fills.
-- Execution.Router: src/execution/smart_router.rs: the venues and the choice among them.
-- Execution.QueuePosition: src/execution/queue/queue_position.rs: the place of an order in its queue.
-- MarketData.SbeCodec: src/market_data/sbe_codec.rs: trades and quotes as bytes. What the build
--   generates, the header and the message types, are parameters.
-- Recovery.SequenceTracker, Recovery.BookResync: src/recovery/: the gaps in the numbers of a feed, and
--   the states of a resynchronisation.
-- Recon.RealTime: src/recon/real_time_recon.rs: balances, the circuit breaker and pending trades.
-- Compliance.Jurisdiction: src/compliance/jurisdiction_filter.rs: blocked tokens and features.
-- Risk.PositionSizer: src/risk/position_sizer.rs: positions, Kelly sizes and exposure.
-- Security.NetworkAcl: src/security/network_acl.rs: the addresses that connections may go to.
-- Base has the names that all of them share, lists over the native numbers, signed integers, the
-- bits of a word, byte buffers, and the 256-bit registers of the AVX2 intrinsics.
-- The Examples modules apply the theorems to concrete inputs.
--
-- Conventions. Unsigned machine integers are natural numbers, signed ones those of Base.Int; the
-- wrap-around of the release build is written out, as is the saturating subtraction. A reading of the
-- cycle counter is an argument. A panic on an index out of range is `none`. An assignment to an element
-- through a shared reference is taken as the assignment that it means. Except in the Race modules and
-- Spsc, the accesses of one call are not interleaved with those of another. A relaxed load followed by a
-- store is one update. Fuel is that of `process_pending`, where more than the number of waiting requests
-- is enough, and of the loops over a FIX message, where more than the number of its bytes is enough, but
-- for the check of its sum, which may have no end.
--
-- Not modelled: memory orderings weaker than the interleaving of accesses; processors other than
-- x86-64; the prefetch hints and the padding; the ledger of src/compliance/audit_ledger.rs, which does not
-- compile as it stands; the adapters and clients of src/gateways/binance_ws_adapter.rs and src/rpc_client/,
-- which are network input and output; src/core, src/hardware and src/network, which place threads and memory;
-- the indicators, statistics and scores of the other directories, whose correctness is numerical; the
-- strategies, and the binary, which starts the threads.
pub mod Base
pub mod Compliance
pub mod Execution
pub mod Gateways
pub mod MarketData
pub mod Normalization
pub mod Oms
pub mod Portfolio
pub mod Recon
pub mod Recovery
pub mod Risk
pub mod Security
pub mod Stablecoins
pub mod Transport
