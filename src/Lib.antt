-- ===== src/Lib.antt =====
-- Lockless channels between threads and tasks: a model of crossfire, and what is proved of it.
--
-- A channel is a queue of items (a flavor) between two registries of waiters, one for each
-- side. A sender that finds room pushes its item and fires the registry of the receivers, which
-- wakes one of them; a sender that finds none registers its waker, checks again, and waits; the
-- receivers mirror this. Each waiter is a small state machine that those who wake, abandon and
-- close it compete for. The oneshot channel and the wait group stand alone, each with its own
-- atomic word. A backoff says how long a waiter spins and yields before it parks. Paths are
-- from the root of the repository.
--
-- * src/waker.rs is in Waker: the enums `WakerState` and `WakeResult`, `WakerInner` as a record
--   with the calls of its waker counted, and each method as a function from a waiter to a
--   result and a waiter. Waker/Laws has what the loops return, Waker/Race how the calls
--   compete.
--
-- * src/oneshot.rs is in Oneshot: the word as four flags, the cell and the waker in the record
--   `Inner`, and the sender and the receiver as positions between two accesses (`Tx`, `Rx`)
--   that `tx_step` and `rx_step` move on. A run in which a blocking receive follows a `poll`
--   that left its waker registered, which a comment in the code rules out and the interface
--   does not, is a run of the model as any other, and the field `misused` of the system says
--   that it is one. Whether debug assertions are compiled in is a parameter. Oneshot/System
--   interleaves the two ends, Oneshot/Inv has the invariant of every reachable state,
--   Oneshot/Safety the theorems.
--
-- * src/crossbeam/array_queue.rs is in ArrayQueue: the stamped slots and each operation, with
--   the positions that were loaded as arguments. ArrayQueue/Positions counts positions around
--   the laps, Rep says when a queue holds a list, Push, Pop, Fresh and Count prove each
--   operation against it, and Refine compares whole runs with a bounded list.
--
-- * src/crossbeam/array_queue_spsc.rs is in ArrayQueueSpsc: the two packed words and the slots,
--   and the sender and the receiver as positions between two accesses. ArrayQueueSpsc/System
--   interleaves them and keeps a history, Inv, Keep and Values have the invariant, Sound that
--   it holds, Safety and Observe the theorems. Laps counts positions past the wraps of a word.
--
-- * src/crossbeam/array_queue_mpsc.rs is in ArrayQueueMpsc, one call after another:
--   ArrayQueueMpsc/Rep says when a queue holds a list, Push and Pop prove the calls against it,
--   and Refine compares whole runs with the bounded list of the array queue.
--
-- * src/flavor/one.rs is in One: the packed word, the two stamped slots, a round of each loop
--   on the word and an access of a slot once its stamp is seen. One/System has any number of
--   senders and receivers at work, in the order of their claims of a slot, and keeps a history;
--   Inv says what the stamps tell, Keep, Rounds and Sound that every step keeps it, Safety and
--   Progress have the theorems.
-- * src/flavor/one_mpsc.rs is in OneMpsc, on the word and the slots of One: a round of the
--   push, the three accesses of the receiver, and the write and the read of a slot.
--   OneMpsc/System has any number of senders and the receiver at work; Inv has what the stamps
--   tell, Send and Receive that every step keeps it, and Safety the theorems, without a bound
--   on the senders, as none of them waits for a stamp; Rest is about the observers and `drop`.
--
-- * src/flavor/mod.rs is in Flavor, the trait of a queue as a record of operations and the laws
--   that a channel needs of them; src/flavor/array.rs is in Flavor/Array, where the array queue
--   fulfils them.
--
-- * src/shared.rs, src/blocking_tx.rs, src/blocking_rx.rs, src/async_tx.rs, src/async_rx.rs,
--   `WeakCell` of src/collections.rs and `RegistrySingle` of src/waker_registry.rs are in Ends,
--   the positions of the two sides between two accesses, and in Channel: a bounded channel of
--   one sender and one receiver over any flavor, each of which blocks or polls from call to
--   call. Channel/TxSteps and RxSteps have the steps of the two sides, System interleaves them;
--   Channel/Inv has what the two ends know of the state, Sender and Receiver that each step
--   keeps it, Sound that it holds; Wake and Deliver follow a waker from the cell to the thread
--   or task; History and Order compare what was sent with what was received; Safety has the
--   theorems on waiting.
--
-- * src/waitgroup.rs is in WaitGroup: the word and its operations, one access at a time.
--   WaitGroup/System interleaves the guards, the guard that holds the lock and the owner, who
--   waits as `wait_blocking` does or polls futures as `poll_async` does, each time with another
--   waker or the same, and drops the group as `destroy` does; State, Inv and Keep have the
--   invariant and that every step keeps it, Safety the theorems.
--
-- * src/waker_registry.rs is in Registry: `RegistryMulti`, its queue of weak wakers and its
--   selectors. A weak waker is a name that is looked up in a store, where a waiter that was
--   dropped is missing. Registry/Flag is about the state that is read before the lock, Fire and
--   Early about who is woken, Popped and Ends about the pops and wakes of a fire, Busy has a
--   fire whose waiters register again after each wake, and Busy/Stop and Busy/Fire that it
--   ends, Clear about who is taken out when a waiter gives up, Close about closing, and Async
--   models and proves how a polled waiter registers.
--
-- * src/select/multiplex.rs is in Multiplex: the channels with their weights and the searches
--   over them, which Multiplex/Turns and Served follow, and Measure and Fair bound;
--   Multiplex/System has a blocking receive, one access at a time, with senders at work on
--   every channel and the `SelectWaker` of src/waker_registry.rs, Inv what every step keeps,
--   and Park what holds while it waits. src/select/select.rs is in Select, with its searches in
--   Select/Chosen and their order in Select/Order.
--
-- * The counts of handles in src/shared.rs and src/weak.rs are in Handles, with every
--   interleaving of clones, drops and upgrades, and Handles/Safety.
--
-- * utils/src/backoff.rs is in Backoff, and its bounds in Backoff/Bounds.
--
-- * Prelude passes the library's names on, with Boolean tests and machine words in
--   Prelude/Words and lists indexed by numbers in Prelude/Lists. Tests applies the theorems to
--   concrete runs.
--
-- A queue of one value compares stamps of 16 bits: its theorems hold while fewer than 2¹⁵
-- threads are between the claim of a slot and the end of their call, a bound that no program is
-- near. Words have 64 bits where the source says `usize`, and their wrap is written out. The
-- accesses to atomics are interleaved in one order, as for sequentially consistent accesses:
-- what weaker orderings allow beyond that is not modelled. A weak exchange may fail although
-- the values agree; a flag says so. A loop that retries takes the flags of its rounds as a list
-- and answers `none` if the list ends first; the theorems append to any list of failures one or
-- two exchanges that do not fail, so that every such call is shown to end. The loop of a fire
-- has as fuel one more than the length of the queue, and takes a waker from the queue in each
-- round; the search for the power of two of the array queue has as fuel the number it looks
-- for, and doubles.
--
-- In the channel a call of the queue is one step, and the environment decides of each step
-- whether the call fails for no reason, whether the backoff goes on, whether the deadline has
-- passed or the future is dropped, whether `park` returns or a future is polled with no token,
-- and whether a waker that its owner has replaced or dropped can still be upgraded. A law of
-- the flavor says when a try may not fail. A weak waker is the number of its registration; each
-- waker is popped once, so that its state machine only ever goes from `Init` to `Woken`, and to
-- wake it is to set the token of the thread, or of the one task that polls the futures of that
-- side. A deadline that overflows the clock, where a call answers at once, is left out.
--
-- Not modelled: the variant of the queue of one value for one sender, the segmented queue of
-- src/crossbeam, whose linked blocks are a port of the one of crossbeam; ends of a channel that
-- are cloned, and so the multi registries in a channel; the timers, sinks and streams of the
-- asynchronous ends, the blocking select, the inline group of src/waitgroup.rs, and what the
-- box of a group holds, and `ArcCell` of src/collections.rs. The constructors, aliases and
-- error conversions only pass values on. Pushes and pops of the array queue and of the array
-- queue of many senders, and the calls of a registry are made one after another; their
-- interleavings are not modelled. Between two pops of a `fire` the code releases the lock of
-- the registry; `fire` in Registry has no other call there, and `fire_busy` in Registry/Busy
-- has registrations, after each wake; other calls there are not modelled.
pub mod Prelude
pub mod Waker
pub mod Oneshot
pub mod ArrayQueue
pub mod WaitGroup
pub mod Registry
pub mod Backoff
pub mod Laps
pub mod ArrayQueueSpsc
pub mod ArrayQueueMpsc
pub mod One
pub mod OneMpsc
pub mod Flavor
pub mod Ends
pub mod Channel
pub mod Multiplex
pub mod Select
pub mod Handles
pub mod Tests
