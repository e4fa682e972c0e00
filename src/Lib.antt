-- ===== src/Lib.antt =====
-- Verification of elfo, a distributed actor system: actors exchange messages and requests, on one
-- node through mailboxes and between nodes over a network with flow control.
--
-- Parts and files (paths from the root of the repository):
--
-- - Core/Addr.antt: elfo-core/src/addr.rs, the layout of an address in 64 bits. An address, a node
--   number and a group number are numbers; `slot_bits` is `slot_key` before it becomes a key.
-- - Core/RequestTable.antt: elfo-core/src/request_table.rs. `push` is `RequestData::push`;
--   `new_request`, `cancel_request`, `wait` and `resolve` are the methods of `RequestTable`;
--   `duplicate` and `drop_token` are those of `ResponseToken`. Push.antt has a request under a
--   sequence of responses, Steps.antt a table with its tokens and its sleeping waiters in any
--   interleaving of the calls; Counts.antt and Waiters.antt are lemmas for Tokens.antt, what holds then.
-- - Core/Mailbox.antt: elfo-core/src/mailbox.rs; functions have the names of the methods of `Mailbox`,
--   `attach` and `detach` are the creation and the drop of `MailboxConsumer`. Steps.antt has the atomic
--   operations of senders, closers and the consumer in any interleaving, Wakeups.antt its wake-ups,
--   Delivery.antt the order of messages and the permits.
-- - Core/Restarting.antt: elfo-core/src/restarting, with functions named as the methods (`new_params`
--   and `with_x` build a `RestartParams`); `restart_after` is the decision of
--   elfo-core/src/supervisor.rs when an actor has ended. Retries.antt has an actor that ends again and
--   again.
-- - Core/Tracing.antt: elfo-core/src/tracing, the trace ids. Functions have the names of those there
--   (`get_time` is `CachedTruncatedTime::get`, `truncated` is `TruncatedTime::now`, `make_bottom` is
--   `Bottom::from`). Layouts.antt has the fields of an id, Validity.antt the generator under the
--   validator, Accepted.antt all branches of the validator.
-- - Core/Routing.antt: elfo-core/src/routers/mod.rs, the outcomes of routers.
-- - Core/Supervisor.antt: elfo-core/src/supervisor.rs, the actors of a group. `handle` is the method,
--   in two halves `prepare` and `deliver`; `get_or_spawn` is the macro; `ended` and `replace` are what
--   the task of an actor does after its end, with `restart_after` of Core/Restarting.antt. Steps.antt
--   has the interleavings, Stopping.antt what follows a termination, Addresses.antt the address book.
-- - Core/Actor.antt: elfo-core/src/actor.rs. The sends of an actor are `actor_try_send` and
--   `actor_unbounded_send`.
-- - Core/Object.antt: elfo-core/src/object.rs, `try_send` to a group. Offers.antt describes it as offers
--   to actors, Visits.antt has the visitor, Groups.antt the visits that the supervisor makes.
-- - Core/Interval.antt: elfo-core/src/time/interval.rs with what it uses of elfo-core/src/source.rs.
--   Methods keep their names; Plan.antt has the plan of ticks.
-- - Core/DumpingControl.antt: elfo-core/src/dumping/control.rs, with the limiters of
--   Utils/RateLimiter.antt. Limiters.antt has the description, Lazy.antt what callers see.
-- - Network/FlowControl.antt: elfo-network/src/worker/flow_control.rs. `tx_*` and the acquiring
--   functions are the methods of `TxFlowControl`, `rx_*` those of `RxFlowControl`. Rx.antt has the
--   receiver's window, Tx.antt threads that share the sender's window, Protocol.antt the two windows
--   of a link with the messages and updates between them.
-- - Network/TxFlows.antt: elfo-network/src/worker/flows_tx.rs, the senders' windows by remote actor
--   with those who wait for one (`SendNotify` of elfo-core/src/remote.rs is a counter); an operation
--   `x_flow` is `x` there, and `begin_acquire`, `settle_acquire` and `register` are the atomic operations
--   of `acquire` and `try_acquire`. Steps.antt has them in any interleaving with those who sleep,
--   Awake.antt, Acquired.antt, Updated.antt and Wakeups.antt when a sleeper is woken.
-- - Network/RxFlows.antt: elfo-network/src/worker/flows_rx.rs, the receivers' windows and queues by
--   local actor. Queue.antt has the queue of one actor. Both use the windows of FlowControl.
-- - Network/Worker.antt: elfo-network/src/worker/mod.rs, the handlers of `SocketReader` for direct and
--   routed messages and the rounds of `Pusher`, over RxFlows.antt and the mailboxes of
--   Core/Mailbox.antt. `finish_delivery`, `wait_in_queue` and `deliver` are parts of
--   `do_handle_message`. Order.antt, Delivery.antt and Pushing.antt have the order of messages in each
--   step, InOrder.antt in any interleaving of the steps for one actor.
-- - Network/ConnMan.antt: elfo-network/src/connman.rs, the connections to other nodes; functions have
--   the names of the methods of `ConnMan`. Reconnect.antt has what follows a failure, Opening.antt all
--   interleavings of the operations.
-- - Network/ReadBuffer.antt: elfo-network/src/frame/buffers.rs, with the methods of `ReadBuffer`.
-- - Network/Frame.antt: elfo-network/src/frame, with Frame/Lz4.antt for lz4.rs, Frame/Write.antt for
--   write.rs, and Frame/Read.antt and Frame/FramedRead.antt for read.rs; `x_none` and `x_lz4` are the
--   method `x` of a strategy. They stand on the codec and the read buffer. Progress.antt has the loop
--   of a reader, Lz4RoundTrip.antt the compressed frames, Fifo.antt, Writing.antt, Holding.antt and
--   Delivery.antt the way of envelopes from a writer to a reader.
-- - Network/OutgoingRequests.antt: elfo-network/src/worker/requests.rs, the tokens of the requests
--   that came from other nodes. MapLike.antt describes them as a map.
-- - Network/Codec.antt: elfo-network/src/codec/format.rs, the envelopes; Codec/Encode.antt and
--   Codec/Decode.antt: encode.rs and decode.rs beside it. The envelope holds addresses of
--   Core/Addr.antt and responses of Core/RequestTable.antt. Fields.antt and Frame.antt have the lemmas
--   on the fields of a frame.
-- - Utils/RateLimiter.antt: elfo-utils/src/rate_limiter.rs.
-- - Logger/LineBuffer.antt: elfo-logger/src/line_buffer.rs, and `format_event` of
--   elfo-logger/src/actor.rs.
-- - Dumper/DumpStorage.antt: elfo-dumper/src/dump_storage.rs. Fund.antt, Registry.antt, Drain.antt and
--   Storage.antt have the structures named so there, with `Part` in Fund.antt. Steps.antt has the
--   critical sections in any interleaving, Limits.antt the number of parts, Delivery.antt the order of
--   dumps, Emptied.antt the end of a drain; Parts.antt, Kept.antt, Changes.antt, Accounts.antt and
--   Order.antt are lemmas about the operations.
-- - Dumper/RuleSet.antt: elfo-dumper/src/rule_set.rs, and the rules of elfo-dumper/src/config.rs.
-- - Base.antt: what all of them share: tests on numbers, lists, integers of 32 bits, bits, bytes, and
--   `Run`, the result of code that may panic.
-- - Files whose names end in Examples apply the theorems at concrete inputs.
--
-- How the code is modelled. A method that changes its object takes the state and returns the state
-- after. A failed `assert!`, `expect` or checked operation is `panic`; a debug assertion is left
-- out, unless the comment of a file says that it is a panic too. An i32 is an integer with its
-- wrap-around, saturation and check written out; a u64 is a number below 2^64. Atomic operations
-- are single steps, and what the code does between two of them is split there. Code under a lock is
-- one step, but where calls share it (the windows of senders) each atomic operation is one. Two
-- methods of more than one critical section are taken as one step: `replace` in
-- Core/Supervisor/Steps.antt and `next_shard` in Dumper/DumpStorage/Steps.antt. Loops are
-- structural, but for those of the frame readers, which run on fuel (Base/Loop.antt): more fuel
-- than there are bytes is enough for a reader without compression when no frame has a size of zero,
-- and two rounds are enough for an envelope that is complete.
--
-- Parameters. The semaphore of mailboxes has a parameter for its largest number of permits. The
-- slot map of requests and of connections (`SlotMap`) and the libraries of the codec (`Libraries`:
-- MessagePack, UTF-8 validity, the numbers of slot keys) stand outside the repository and are
-- records of operations and of the laws that the code relies on, as are the sockets and times of
-- connections (`Environment`), the block compression of lz4_flex (`Lz4`) and the arithmetic of f64
-- (`Floats`), and the vacant entry of the address book (`AddressBook`). The clock is an argument,
-- the latest instant a parameter, and whether a timer has elapsed is a parameter (`elapsed`).
-- Core/Slots.antt shows that the laws of `SlotMap` can hold.
--
-- Not modelled: asynchronous I/O and tasks (sockets, timers, wakers), logging and metrics, memory
-- layout of messages, random numbers, reference counts, floating-point durations, and the parts of
-- elfo that are mostly these (the tasks of the supervisor, discovery, the output of dumps,
-- telemeter, configurer, macros).
pub mod Base
pub mod Core
pub mod Utils
pub mod Logger
pub mod Network
pub mod Dumper
