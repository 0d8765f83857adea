-- ===== src/Lib.antt =====
-- Verification of libep, a header-only event library in C. Its parts, and the files that model them:
--
--  * ListHead, src/list.h: the intrusive circular list. A link is an address (`Ptr`, 0 is null), and
--    the memory `Links` maps addresses to the fields next and prev; an address without an object has
--    none. Each function is a definition of the same name (`__list_add`, `__list_del` and
--    `__list_splice` are add_between, del_between and splice_nonempty). Linked and Ring say what list
--    a memory holds.
--  * TaskQueue, src/ep_task_queue.h with src/ep_callback.h: a queue of callbacks on ListHead. `Store`
--    is the memory of the links and of the callbacks, what malloc has left, and the calls made so
--    far. What a callback does is a parameter (`client`); the theorems take clients that push further
--    callbacks (Client). `drain` is the abstract run of a queue.
--  * Poll, src/ep_pollapi.h: Flags has the event bits and timeouts that the engines share, and Drain
--    the client's loop of fetches over any engine. The engines are Poll.Select (src/ep_select.h, with
--    what select returns as a function parameter; Reach and Report have what a client's calls lead
--    to), Poll.Epoll (src/ep_epoll.h) and Poll.Kqueue (src/ep_kqueue.h), the latter two over a record
--    `Kernel` of system calls, whose documented behaviour is a record `KernelLaws`. `init`, `add`, `mod_events`, `del`, `wait` and `fetch` are
--    the functions ep_<engine>_init to ep_<engine>_fetch.
--  * Skiplist, src/skiplist.h: the skip list for any number of levels. `Nodes` maps addresses to
--    scores and, for each level, to forward pointers. IsSkiplist says that each level leads through
--    the entries that are tall enough, in the order of their scores.
--  * Timer, src/ep_timer.h: timers on Skiplist with 8 levels. The clock, random and malloc are lists
--    of what they return; run_after and run_every are both `start`.
--  * SinglyList, src/singly_list.h: the singly linked list, whose `end` is a pointer to a pointer.
--  * Fcntl, src/ep_fcntl.h: setting and clearing O_NONBLOCK, over a kernel of descriptor flags.
--  * Sock, src/ep_sock.h: sockets. `System` is a record of the system calls. A `World` has the
--    kernel's state, errno, the descriptors that are open, the number of address lists that are held,
--    and the `deeds`, the calls that succeeded. A function ep_<name> is `name`; ep__tcpserver and
--    ep__udpserver are generictcpserver and genericudpserver. A result of -1 is `none` or false, a
--    null pointer `none`. Connect has the clients, Server the servers, Accept and Address the accepting
--    side and the text of addresses, Options the socket options. Transfer has ep_read and ep_write
--    over a memory of bytes. Freeing a pointer that was not set is a fault.
--  * Loop, src/ep.h: the event loop. Defs has `waittime`, which decides how long it waits. Iterate has
--    the functions over a State of three parts: the engine's state, the memory of the two task queues,
--    and the timers. The engine is the interface Poll.Engine; its laws say that fetches hand out the
--    pending events in turn, and Poll.Epoll.Engine fulfils them. `turn` is what ep_iterate and
--    ep__for_each_start share, up to the wait. IsIdle says when a turn can be described, and Turned
--    and Iterated what it does.
--
-- Commands (Base.Command) are functions from a state to a run: a result with a state, a fault (a read
-- or write where there is no object), or out_of_fuel. Loops take fuel. `Returns` is total: a theorem
-- that a run returns says that it neither faults nor runs out of fuel. The fuel that a theorem asks
-- for is one more than the number of nodes of the list that is walked, for each level of a skip list
-- anew; a run of a task queue needs one for each callback that it makes, and this is bounded by the
-- queued tasks and the memory that malloc has left. The loops of ep_read and ep_write need more fuel
-- than bytes are asked for, and that of ep_genericaccept more than there are interrupted calls.
--
-- Descriptors, events and data are natural numbers; an int that can be negative is a ℤ of pos and
-- negsuc (Base.Int). The event bits are tested with the bit operations on natural numbers. Times of
-- timers wrap modulo 2^64, and the int that ep_timer_nearest_diff returns is taken modulo 2^32.
--
-- Not modelled: src/platform.h and the tests. In the event loop, a callback of a task works on the
-- task queues only, and one of a timer on the timers only; the sockets of Sock are apart from the
-- loop. The entry macros, which turn a pointer to a member into one to its object, are the identity
-- here, since both are the same address.
pub mod Base
pub mod ListHead
pub mod TaskQueue
pub mod Poll
pub mod Skiplist
pub mod SinglyList
pub mod Timer
pub mod Fcntl
pub mod Sock
pub mod Loop
