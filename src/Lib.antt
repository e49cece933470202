-- ===== src/Lib.antt =====
-- dpapp: a library of coroutines, asynchronous input and output and cross-thread calls in C.
-- This development models its core and proves what makes it correct.
--
-- Common: the shared names; `Common.Int` has C integers with the bounds of `int`, `Common.Outcome`
-- has computations that may have undefined behaviour (`fault`), with `Returns P m`: `m` has none
-- and its result satisfies `P`.
-- Mem: memory blocks as lists of bytes. Each access is checked against the bounds of its block;
-- `malloc` and `realloc` are parameters (`Alloc`), which may fail.
--
-- Buf: lib/dpapp/dpbuf.c and dpbuf.h, the growable byte buffer. `Buf` is dpbuf_t with its storage
-- `Data` (struct dpbuf_data) inside; an operation dpbuf_f is the function `f` of the child that
-- holds its kind: Buf.Capacity (making room, recycling), Buf.Create (construction, copies),
-- Buf.Seek, Buf.Write, Buf.Read, Buf.Scan (comparison and search). A function returns the result of
-- the C function and the new buffer, or `fault`. NULL is `none` where the code tests for it.
-- `Buf.Valid.IsValid` is the invariant; `readable` and `pending` are the bytes in the windows
-- [rbeg, rend) and [rend, wbeg). Bounds: sizes below 2^30, where `int` cannot overflow and
-- DPBUF_MAX_SIZE does not apply. A cursor is a natural number: where the code would store a
-- negative cursor the model has a `fault`. Formatted output (`vsnprintf`) enters as the text made.
-- Not modelled: buffers that share one storage, with the reference counts.
--
-- Ret: lib/dpapp/dpret.c, the texts of error codes; `strerror` is a parameter.
--
-- Aco: lib/dpaco/dpaco.c, stackful coroutines. `World` is the environment of a thread with the live
-- blocks; Aco.Pool has dpaco_thinit, dpaco_thfree, dpaco_create and dpaco_delater, Aco.Switch has
-- dpaco_resume, dpaco_yield, dpaco_wrap and the end of a function. A switch of stacks is modelled
-- by the place where each coroutine waits. The loop of dpaco_thfree runs on fuel; the length of
-- the list is enough.
--
-- App: the layout of the event loops from lib/dpapp/dpapp.c, and lib/dpapp/os/dpevp_pri.c, where a
-- cross-thread call finds its target by number or by type.
--
-- Evp: lib/dpapp/os/linux/dpevp_epoll.c. Evp.Handover has the queues of cross-thread calls between
-- a worker and the master: `handle` is what an `Event` of either thread does to them. Each operation
-- is one step, in any order. `Channel` is one direction by itself, and `commit_side`, `accept_side`
-- show a state as the two of them. Evp.Call has the life of one call: the rounds of the two reap
-- loops, cancellation, submission and end, with the status that a loop has read apart from the one
-- that its compare-and-exchange finds. The `post` of an operation is a parameter. Evp.Call.Reto has
-- the choice of another target. Evp.Deque has the queues _dpele_deque_* as they are linked through
-- their elements, on a heap of links. Evp.Ready has _dpefd_wake and _dpefd_feed, which call the `post`
-- of an operation while an event that it waits for is there; the loop runs on fuel, two rounds more
-- than the operation can go on. Evp.Timer has dptmrset_t; the tree macros of dprbt.h, a copy of a BSD
-- header, are a parameter (`Tree`), and times are in milliseconds. Evp.Element has the life of the
-- elements that are no cross-thread calls: references, dpevp_addv, dpevp_end, and what dpevp_pop does
-- with one element of the queue, the timers or the events of epoll. An element is freed or live at its
-- address, and an access to a freed one is a `fault`; the timer set appears as the list of its
-- elements; `ops` is the table of operations, whose `prep` and `post` are parameters, and a command of
-- Evp.Element.Run is a call of the user or a round of the loop. Not modelled: the order in which
-- dpevp_pop looks at its sources, its waiting time, dpele_dup and the data blocks of operations.
--
-- Cwc: lib/dpcwc. Cwc.Await has dpcwc_await, dpcwc_cease and the step of the main loop from dpcwc.c for
-- elements other than cross-thread calls: a `Thread` is an event loop of Evp.Element with the
-- coroutines of Aco, and a call either returns or gives the control to another coroutine. Cwc.Sleep
-- has dpcwc_sleep, cut where the coroutine waits (`sleep`, `awake`), with dptmr_timeout of dpasc.c. Cwc.Id has
-- the identifiers of dpcwc_aux.c; what the clock shows is a list of readings. Not modelled: dpcwc_timer, the start
-- of a module from a shared library, and the connections and servers of dpcwc_aux.c, which are chains
-- of operations of descriptors.
--
-- Paths: lib/dpapp/which.c, the normal form of paths; a string is the list of its characters. Not
-- modelled: the functions that ask the file system.
--
-- Aio: lib/dpapp/os/linux/dpasc_epoll.c and lib/dpapp/dpasc.c. Aio.Post has the loops that repeat a
-- system call until all bytes are moved or it answers an errno (_dpaio_buf_post, and Aio.Post.Iov on
-- segments, Aio.Post.Pipe for splice and tee); the call is a parameter, `Device` says what it
-- promises. They run on fuel, and a round for each byte is enough. Aio.Prep has the checks before.
-- Aio.Stream has the streams dpaio_f as `f_prep` and `f_post` over any `Reader` or `Writer`, which
-- stand for the operation of the descriptor: Read and Write on a dpbuf_t, Data on a bare block. A
-- round of a stream is one call of `f_post`. Not modelled: the other operations of dpasc_epoll.c,
-- each of which passes its arguments to one system call.
pub mod Common
pub mod Mem
pub mod Ret
pub mod Aco
pub mod Aio
pub mod App
pub mod Buf
pub mod Cwc
pub mod Evp
pub mod Paths
