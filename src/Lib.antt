-- ===== src/Lib.antt =====
-- The Aurora forwarder contracts: the forwarder, which holds tokens for a user and sends them on to
-- Aurora, the fees contract, which tells it the fee, and the factory, which creates forwarders.
--
-- How the parts interact. `forward` of the forwarder schedules promises on the host: for a token the
-- query of its balance with `calculate_fees_callback` after it, for native NEAR the wrap of the
-- balance and the fee query with `finish_forward_callback` after both. `calculate_fees_callback` asks
-- the fees contract and schedules `finish_forward_callback`, which sends the amount less the fee to
-- the target network and the fee to the fees contract. A call runs on the state of the host; the
-- promises that it leaves behind are the calls that the host makes later, each a step of its own.
--
-- Files and code:
-- - Base and below: shared names, lists over the native numbers, Rust's `Result`, the test of UTF-8.
-- - Crates: the crates arrayvec, borsh and hex-conservative, a parameter with its documented
--   behaviour as `IsDocumented`; Crates/Reference is an instance for tests.
-- - BTreeSet: Rust's ordered set, over an order on the elements that is a parameter.
-- - Forwarder/Error, AccountId, Address, Promise, Borsh: forwarder/src/error.rs and
--   forwarder/src/types.
-- - Forwarder/Params, Json, Decimal: forwarder/src/params.rs; `State::save` and `State::load` are
--   `save` and `load` of Forwarder/Runtime/Io. Forwarder/Params/Valid is about what the readers give.
-- - Forwarder/Host: the functions that forwarder/src/runtime/sys.rs declares, a parameter.
--   Forwarder/Host/Machine is the state that a host shows and a host that is nothing but it;
--   Forwarder/Host/Lawful says of any host that it shows this behaviour.
-- - Forwarder/Runtime: forwarder/src/runtime, with Exec for code that calls the host and may panic,
--   Env for env.rs, Io for io.rs and the registers of mod.rs, Handler for handler.rs and the batch
--   actions of mod.rs. Run, Steps and Sim are rules for proofs. Storage has the storage operations of
--   io.rs as a client uses them, against a map.
-- - Forwarder/Contract: forwarder/src/lib.rs, one function for each exported one and `enter` for the
--   host's choice among them. The files below it are about one entry point each;
--   Errors lists the cases that end in a panic, and Ends all ways in which a call ends.
-- - Forwarder/Invariant: what holds all along a call, for any invariant of the host that allowed
--   promises keep. Forwarder/Safety has the promises that are allowed and `calls`, the calls that an
--   account gets while it exists; Forwarder/Lifecycle the account before and after `new`.
-- - Forwarder/Chain: the history of an account as a sequence of events, calls and the host's carrying
--   out of a deletion that `destroy` has scheduled. Until then, further calls may come; behind it the
--   account is empty, and a call is one on an account made again with the same contract.
-- - Forwarder/Flow: how the calls of one forward follow one another, through the promises that each
--   has left behind. Other calls may come between.
-- - Fees and below: fees/src/lib.rs; Fees/Percent is `parse_percent`, Fees/Policy what can be
--   seen of the contract, and Fees/Interface what a forwarder sends to `calculate_fees` and gets back.
-- - Utils: utils/src/lib.rs, with the hashes as a parameter.
-- - Factory and below: factory/src/lib.rs, with near-sdk's parser of names and the decoder of
--   addresses as parameters. The private methods compare the caller with the factory's own account;
--   the stored owner is never read, although the doc of `create` names it.
--   Factory/Names is about the accounts of the forwarders.
-- - Protocol: the contracts together, a forward over forwarder and fees contract, and the way from
--   the factory's `create` to a forwarder in place, and on to its deletion.
-- - The files named Fixtures and Tests: concrete calls. Fees/UnitTests and Forwarder/UnitTests are the
--   unit tests of their sources, translated.
--
-- Conventions. A pointer and a length are the bytes they span. Amounts and gas are natural numbers;
-- where the code relies on their width, a bound such as 2 ^ 128 is a hypothesis, and the code's
-- saturating and checked operations are written out. A text is its bytes. A panic is the outcome
-- `err`: with the message that the contract hands to the host, or `trap` for a panic of the core
-- library. Where `promise_result` is asked for a result that is not there, the host stops the call
-- itself, with `stopped`; the arm of handler.rs for other answers is never reached then. The state
-- after a panic is the one at that point; the host drops it. Loops are structural recursion. The one
-- bound is that of `amount_to_str`, whose buffer has 39 places: enough for every u128.
--
-- Not modelled: the allocator and the panic handler of the forwarder; gas; near-sdk's dispatch,
-- storage with its key prefix, and JSON around the fees contract and the factory;
-- the error texts of borsh; floats, which are the parameter `Float`, documented on whole numbers by
-- `IsExact`; the carrying out of promises but for deletion; what the holder of the full access key
-- that `new` adds does to the account, such as another deployment; the sandbox tests in tests/src.
pub mod Base
pub mod Crates
pub mod BTreeSet
pub mod Forwarder
pub mod Fees
pub mod Utils
pub mod Factory
pub mod Protocol
