-- ===== src/Lib.antt =====
-- Verification of nanosig, a C library of signals and slots with event loops, timers and a broker.
--
-- The program's parts. A signal is emitted as a record into the record ring of each connected
-- loop (src/ds/ns_mpsc_record_ring.c), and the loop's thread takes the records out and calls the
-- slots (src/nanosig.c). Timers stand in a red-black tree by their due time (src/ns_timer.c,
-- src/ds/ns_rbtree.c) and fire as signals too. The broker (src/ns_broker.c) waits in its own
-- thread for the watchers' events and the timers. There is a hash table (src/ds/ns_hashtbl.c), and
-- a byte ring (src/ds/ns_ringbuf.c) that serves byte streams. src/ns_debug.c and
-- src/ns_formatio.c print; platform/ has the ports.
--
-- Base and its children are shared: Boolean tests, lists over the native numbers, memory as bytes
-- with memcpy (Memory), words stored in bytes (Object), 32-bit and 64-bit words with their
-- wrap-around (Words), bit masks as arithmetic (Bits, Modulo), and the status codes of
-- include/nanosig/nanosig_status.h (Codes).
--
-- Ringbuf models src/ds/ns_ringbuf.c: `Ringbuf` is ns_ringbuf_t with the bytes that its buffer
-- points to, and each function ns_ringbuf_X is the definition X (ns_ringbuf_size is `readable`). A
-- pointer argument is an Option, `none` for NULL. `Ringbuf.Inv` has the invariant and the bytes
-- that a ring holds, `Write`, `Read` and `Peek` what each function does, `Client` sequences of
-- calls against a bounded queue.
--
-- Mpsc models src/ds/ns_mpsc_record_ring.c where size_t has 64 bits. `Mpsc.Meta` is the header
-- word, `Mpsc.Ring` the ring with its storage as bytes, ns_mpsc_record_ring_init and the queries,
-- `Mpsc.Push` ns_mpsc_record_ring_try_push and _try_pushv, `Mpsc.Take` _try_acquire and _release,
-- `Mpsc.Client` sequences of calls against a queue of records. A call is one step: what other
-- threads do meanwhile is not modelled. The reserving loop runs on a list that says which of its
-- weak swaps fail without a reason; that it ends asks for one that does not. The loop of
-- _try_acquire runs on used + 1 rounds, which suffice, since each round but the last takes at least
-- a word away. The loop of _init runs on `capacity` rounds, of eight bytes each.
--
-- Timer models src/ns_timer.c: `Manager` is g_timer_mgr with the timers by their addresses, and
-- ns_timer_start, _cancel, _restart, ns_timer_mgr_next_timeout and _fire_expired are the
-- definitions start, cancel, restart, next_timeout and fire_expired. `Env` is what a call meets
-- outside: the lock, the clock, ns_is_initialized, and what ns_signal_emit_raw returns. The ordered
-- tree is an interface, `Timer.Order.Tree`, with what src/ns_timer.c takes of it; `Rbtree.Remove`
-- fills it with the red-black tree. Clocks stay below 2 ^ 63 microseconds. The loop of
-- ns_timer_mgr_fire_expired runs on fuel, and one round more than there are timers is enough.
-- `Timer.Lifetime` has ns_timer_init and _deinit, and ns_timer_mgr_global_init and _global_shutdown,
-- whose loop runs on fuel in the same way.
--
-- Rbtree models src/ds/ns_rbtree.c. A node with its address, colour and children is a `RbTree`, and a
-- place in a tree is a subtree with its parents, in the order in which the code climbs them (`Parents`),
-- so that a change of a child and the parent's pointers to it are one rebuilding of the node.
-- `insert_fix` is __ns_rb_insert, `erase_fix` ____ns_rb_erase_color, `del_at` __ns_rb_del, and
-- ns_rbtree_X is the definition X, also in `Rbtree.Search`. ns_rbtree_del looks its node up by the
-- address, `locate`. Every loop is a recursion on the tree or on the parents. `Rbtree.Shape` has the
-- nodes in order and the invariant, `Insert`, `Erase` and `Rebalance` the rebalancing, `Ordered`,
-- `Delete` and `Remove` the calls, `Walk` the neighbours of a node, `Depth` the length of a search.
--
-- Links models the doubly linked lists of include/nanosig/nanosig_list.h, which are inline in the
-- objects that they link: `Heap` has the next and prev fields of the node at each address, and each
-- function ns_list_X is the definition X (ns_list_remove is list_remove). `Links.Ring` says which
-- nodes a list has, `Links.Apart` that an operation on one list leaves others alone. `Links.Single`
-- models include/nanosig/nanosig_slist.h in the same way, where ns_slist_X is slist_X or X.
--
-- Loop and Signal model src/nanosig.c. A `Loop` has the record ring of Mpsc as its queue, and
-- `Loop.Record` says which bytes a slot's call is in it. ns_loop_dispatch_pending is
-- dispatch_pending; what a slot does to the loop while it runs is its argument `react`. It runs on
-- fuel, and where the slots append no calls one round more than there are calls is enough.
-- `Loop.Pushes` has slots and other threads that push a call onto the loop's queue.
-- A `World` has the signals, the connections and the loops by address over one heap of list nodes;
-- ns_signal_X is the definition X. Each emission and each ns_signal_disconnect_all runs on fuel, and
-- one round more than the signal has connections is enough. What the platform's mutex returns, and
-- which weak swaps of a push fail, are in `Platform`.
--
-- `Loop.Run` has ns_loop_run_impl, on a list of what each wait returns and what other threads do to
-- the loop meanwhile, and ns_loop_run, _quit, _start and _stop. `Loop.Create` has ns_loop_create and
-- ns_loop_destroy over what the allocator and the wake-up object return (`Host`).
--
-- Runtime models ns_init and ns_shutdown of src/nanosig.c over an interface, `Parts`, that
-- `Runtime.Library` fills with ns_debug_init and _shutdown of src/ns_debug.c, the broker's start and
-- end, and a platform that is a parameter. src/nanosig.c is modelled as it is built for a host with threads.
--
-- Hash models src/ds/ns_hashtbl.c: a `Table` has for each bucket the list of its nodes, or `none`
-- where the bucket is still to be filled from an older one. `Hash.Home` says in which bucket a hash
-- value is looked for; ns_hashtbl_try_remake, _resize, _insert, _remove and _find are the
-- definitions try_remake, resize, insert_node, remove_node and find. The search for the older bucket
-- halves a mask, so that as many rounds as its value are enough. `Hash.Lifetime` has the making,
-- renewing, re-keying and deleting of nodes, ns_hashtbl_create and _destroy (table_create,
-- table_destroy), and the string keys.
--
-- Broker models src/ns_broker.c. A `Broker` has the watchers by address, the queue of operations and
-- the platform's waitset as an argument (`Waitset`). `Broker.Lifetime` is about ns_watcher_init and
-- _deinit, `Broker.Submit` about ns_broker_add and _remove in the caller's thread, where the
-- argument `serve` is what the broker's thread does until it answers. `Broker.Round` has
-- ns_broker_drain_op_queue, on a list of turns that say what other threads queue meanwhile (more
-- turns than requests are enough), ns_broker_dispatch_pending_events, and a round of ns_broker_run
-- up to the timers. `Broker.Start` has ns_broker_global_init and _global_shutdown, with what the
-- platform's calls return as arguments (`StartHost`, `EndHost`).
--
-- Format models the printing of whole numbers in src/ns_formatio.c: `vprintf_number` gives the bytes
-- that go out, `Format.Digits` reads the digits back, `Format.Width` counts the bytes. A number has
-- 64 bits, so that the 64 rounds of num_bit_count are enough.
--
-- Not modelled: the 32-bit layout of the header word; what threads do to each other inside a call;
-- ns_loop_poll and ns_loop_next_timeout of the bare-metal build; the timers' part of the broker's
-- loop; the streams, the format strings, floating point numbers and the input of src/ns_formatio.c;
-- what src/ns_debug.c prints; the ports in platform/, which call operating systems.
pub mod Base
pub mod Broker
pub mod Format
pub mod Ringbuf
pub mod Mpsc
pub mod Timer
pub mod Links
pub mod Loop
pub mod Signal
pub mod Runtime
pub mod Hash
pub mod Rbtree
