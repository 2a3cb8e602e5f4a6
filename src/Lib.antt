-- ===== src/Lib.antt =====
-- Verification of the CosmWasm contract cw-streamswap (src/*.rs). A creator offers out tokens for
-- sale in a stream between two times. Subscribers pay in tokens and get shares. As time passes the
-- stream spends the in tokens and releases the out tokens, the same part of each, and its index
-- records what one share has earned. Afterwards the treasury finalizes the stream, and every
-- position exits with its purchase. An administrator or governance can pause, resume and cancel; a
-- stream that ends below its threshold is refunded.
--
-- The parts, from the bottom:
--   Base, Error, Dict      numbers and Boolean tests; src/error.rs and the result monad of `?`; the
--                          maps of cw-storage-plus as association lists
--   Cosmwasm               the operations of cosmwasm-std, cw-utils and cw2 that the contract calls,
--                          as a record `c`, and what their documentation promises (`Documented`)
--   State                  src/state.rs: Config, Stream, Position, the shares, and the storage
--   Threshold, Helpers     src/threshold.rs and src/helpers.rs
--   Handler                what the handlers share: messages, loading and saving, check_access
--   Contract               src/contract.rs: Stream (update_stream), Position (update_position),
--                          Subscribe, Withdraw, Create, Finish (finalize and exit) and Admin
--                          (instantiate and the configuration)
--   Killswitch             src/killswitch.rs: Pause (pause, resume, cancel) and Refund
--   Entry                  `execute` and `sudo` of src/contract.rs on the messages of src/msg.rs, and
--                          a call of the contract by the host
--   Ledger                 the invariant that ties all streams to all positions, its preservation by
--                          every handler, and what follows for a history of calls
--   Stopped                what a cancelled stream refuses
--   Settlement             a finalized stream through every handler, and what finalizing and
--                          refunding rule out
--   Migrate                src/migrate_v0_2_1.rs and `migrate` of src/contract.rs
--   Examples               a host that keeps the documented behaviour, and a sale on it
-- A function of the source keeps its name. It takes the host's operations `c`, the block's time
-- `now` and the storage where it uses them, and returns the messages and the new storage, or the
-- source's error. What a function does to `&mut` arguments is in its result. A long function has
-- its steps as functions of their own (`distribute` and `release_out` of `update_stream`, `settle`
-- of `update_position`, `take_out` of the withdrawals).
--
-- Numbers: Uint64, Uint128, Uint256, Timestamp and Decimal are natural numbers. Their bounds are in
-- the operations: by `Documented` a checked operation fails, and an operator panics, exactly when
-- the result leaves the 64, 128 or 256 bits or a divisor is zero. A panic is the error `panic`,
-- since the host drops what a failed call has written either way. A Decimal is its number of
-- atomics, 10^18 of them to one. No definition uses fuel: the loops are over lists.
-- Addresses and denominations are only compared, so they are numbers; names and URLs are lists of
-- code points. That two addresses of different spelling differ is the host's affair.
--
-- Not modelled: the queries (they write nothing); attributes of responses; the schema generator in
-- bin/schema.rs; the transfer of the coins itself, which the bank module does.
pub mod Base
pub mod Error
pub mod Cosmwasm
pub mod Dict
pub mod State
pub mod Threshold
pub mod Helpers
pub mod Handler
pub mod Contract
pub mod Killswitch
pub mod Entry
pub mod Ledger
pub mod Stopped
pub mod Settlement
pub mod Migrate
pub mod Examples
