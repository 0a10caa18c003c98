-- ===== src/Lib.antt =====
-- Verification of the core of Flowlab, a market-data engine: its order books, the recovery of its
-- feed, its replay, what it keeps on disk and in shared memory, and its detectors of market abuse.
--
-- How the parts work together. A feed arrives in MoldUDP64 datagrams (replay/src/moldudp.rs), whose
-- messages a gap tracker puts into order, or in a byte ring that two processes share
-- (replay/src/ring_reader.rs). ITCH messages (replay/src/itch.rs) become events (core/src/event.rs).
-- They can be kept in a write-ahead log (replay/src/wal.rs), and the state of a replay in a snapshot
-- (replay/src/snapshot.rs). A replay
-- (core/src/state.rs, replay/src/engine.rs) checks that the events are in sequence, applies them to
-- the reference book (core/src/orderbook.rs) and chains a hash over them. The hot book
-- (core/src/hot_book.rs) does the same work as the reference book on arrays; the repository compares
-- the two by a canonical hash of their levels (bench/src/lib.rs). Detectors (chaos/src) watch the
-- sequenced events for patterns of abuse, each with a book or a window of its own, and raise flags
-- that a clusterer merges into episodes.
--
-- Where what is modelled:
--   Event          core/src/event.rs: `Event`, `EventType`, `Side`, `SequencedEvent`
--   Ladder         the level that both books keep, the order of a side, `partition_point`
--   Hash           what the canonical hashes share; xxh3 is a parameter
--   Map            `BTreeMap` and `HashMap` with unsigned keys, as sorted association lists
--   Hot.Grid       core/src/hot_book.rs: one side's array of levels and its count, with `add_order`,
--                  `cancel_order`, `trade`, `trade_full_fill` and `trade_anon` on the array
--   Hot.Slab       core/src/hot_book.rs: `OrderSlab`
--   Hot.Book       core/src/hot_book.rs: `HotOrderBook::apply` and its handlers; Hot.Book.Reads has
--                  the accessors, `depth_sum` and `canonical_l2_hash`, Hot.Book.Lanes the
--                  batches of `apply_lanes`
--   Hot.Snapshot   core/src/hot_book.rs: `to_snapshot_bytes`, `from_snapshot_bytes`
--   Reference      core/src/orderbook.rs: `OrderBook`
--   Agreement      the hot book against the reference book, also on the events of an ITCH feed
--   Mold.Frame     replay/src/moldudp.rs: `MoldFrame`, `MoldMessageIter`, the loop of `ingest`
--   Mold.Gap       replay/src/moldudp.rs: `GapTracker`
--   Itch           replay/src/itch.rs: the parser, `parse_buffer`, the emitters and the synthetic stream
--   Ring           replay/src/ring_reader.rs: `RingReader`, `RingWriter`; Ring.Steps has both sides as
--                  steps over one mapping
--   Wal            replay/src/wal.rs: `Wal`, `WalReader`, the recovery and the checksum, over the
--                  bytes of the segment files
--   Snapshot       replay/src/snapshot.rs: `Snapshot::to_bytes`, `Snapshot::from_bytes`
--   Replay         core/src/state.rs: `ReplayState`; replay/src/engine.rs: `ReplayEngine::replay`
--   Breaker        flow/src/circuit_breaker.rs: `CircuitBreaker`
--   Tracker        chaos/src/order_tracker.rs: `OrderTracker`
--   Window         chaos/src/window.rs: `WindowExtractor`
--   Chaos          chaos/src/lib.rs: `ChaosKind`, `ChaosEvent`, `ChaosFeatures`, and its children:
--   Chaos.Clustering   chaos/src/clustering.rs: `ChaosClusterer`, `ChaosCluster`
--   Chaos.Detection    chaos/src/detection.rs: `QuoteStuffDetector`, `SpoofDetector`
--   Chaos.Phantom      chaos/src/phantom_liquidity.rs: `PhantomLiquidityDetector`
--   Chaos.CancelStorm  chaos/src/cancellation_storm.rs: `CancellationStormDetector`
--   Chaos.MiniBook     the price maps that the next two detectors keep in the same words
--   Chaos.Momentum     chaos/src/momentum_ignition.rs: `MomentumIgnitionDetector`
--   Chaos.FlashCrash   chaos/src/flash_crash.rs: `FlashCrashDetector`; Chaos.FlashCrash.Book has its
--                      cached best prices and depth
--   Chaos.Refractory   the distance that a refractory period keeps between flags
--   Hasher         verify/src: `StateHasher`, `CrossLanguageVerifier`
--   Prelude        numbers, lists, arrays, words and bytes that the others share
--
-- State and operations. A struct is a record, a method takes it and returns it, with the method's
-- result before it where there is one. Words are natural numbers; `+` and `+=` wrap, since the
-- release profile has no overflow checks, and `saturating_sub` is the subtraction that stops at 0.
-- The const parameter `MAX_LEVELS` is the argument `max_levels`. Unchecked reads of the slab are
-- `none` out of range, and validity rules them out. Prefetch hints have no effect and are left out.
--
-- Bounds and fuel. The slab numbers its slots with 32 bits, so the theorems on streams allow 2 ^ 32
-- events; the counts of levels need `max_levels` below 2 ^ 32. The loop of `ingest` runs on fuel, and
-- one step more than there are messages is enough for a frame of whole messages. Sequence numbers
-- stay below 2 ^ 64. The loop of `parse_buffer` takes one round more than there are bytes, the recovery
-- of a segment too, and `next_record` one more than there are segments; all three are shown to end.
--
-- Floating point is a parameter of the circuit breaker and of the detectors, and nothing is assumed of
-- it. A detector's `process` returns the flag, if there is one, and the new state. Where the phantom
-- detector evicts the oldest of its levels and two have the same number, the order of a list stands
-- for that of the hash map. A loop of `prune_levels` runs on the length of the map, each round takes a
-- level away. Trace lines of the detectors are left out.
--
-- Not modelled: xxh3 (a library), clocks, files, sockets and memory maps, threads and the server
-- (engine), the C++ book and its bindings (core/src/ffi.rs), the flow signals (flow/src), and of
-- chaos/src the latency-arbitrage detector, the chain of the detectors, the storm orchestrator and the
-- generators. Of the ITCH parser `parse_stock_directory`, which decodes UTF-8, is left
-- out. Of the log and the snapshots the file names, the buffering and the errors of the file system
-- are left out, and of the ring the mapping of the file and the ordering of memory: a step of one side
-- sees all the steps before it.
pub mod Prelude
pub mod Map
pub mod Event
pub mod Ladder
pub mod Hash
pub mod Hot
pub mod Reference
pub mod Agreement
pub mod Mold
pub mod Replay
pub mod Breaker
pub mod Chaos
pub mod Tracker
pub mod Window
pub mod Hasher
pub mod Itch
pub mod Snapshot
pub mod Wal
pub mod Ring
