-- ===== src/Lib.antt =====
-- High_Performance_Server: an HTTP server on epoll with a thread pool.
--
-- The event loop of main.cpp waits for sockets that are ready. For a client's socket it takes the
-- request's timer away and hands the request to the thread pool, whose worker calls
-- `requestData::handleRequest`: it reads with `readn`, parses the request line and the headers,
-- answers with `writen`, and either destroys the request or arms its socket again with a new timer.
--
-- Files:
--   Prelude (Tests, Lists, Text, Range, Int): names of the libraries passed on, the Boolean tests on
--     numbers, lemmas on lists and byte strings, `find` and `substr`, and an `int` with its sign.
--   Request: `requestData`, its tables and small methods (src/requestData.h, src/requestData.cpp).
--   Request/Line: `parse_request_line`; Line/Outcome and Line/Target are about its results.
--   Request/Head: `parse_request_head`, one round of its loop as `step_in`, the loop as `scan`.
--     Head/Fields and Head/RoundTrip are about whole header blocks, Head/Resume about blocks that
--     come in two parts, Head/Safe about the positions that the scan makes strings from.
--   Request/Response: `analysisRequest` and `handleError`; Response/Sent is about what they send,
--     Response/Bounds about the size of the headers.
--   Request/Handle: `handleRequest`; Handle/Progress is about the requests that it keeps,
--     Handle/Whole, Handle/Finish, Handle/Get and Handle/Post about whole requests, Handle/Session
--     about many on one connection, Handle/Total about the return of every call.
--   Util: `readn` and `writen` (src/this_util.cpp); Util/Read and Util/Write are about them.
--     Util/Line: `get_line` of the same file.
--   TaskQueue: the circular task array that both pools share; TaskQueue/Laws refines it to the list
--     of pending tasks.
--   Pool: `threadpool_t` and its functions (src/threadpool.cpp, src/threadpool.h); Pool/Create,
--     Pool/Fifo and Pool/Shut are about its start, its runs and its end.
--   ThreadPool: the class `ThreadPool` of the same files; ThreadPool/Create, ThreadPool/Steps and
--     ThreadPool/Overrun are about its start, its runs with one adding thread, and a full queue that
--     is added to.
--     ThreadPool/Shut: its destructor with the workers; Shut/Lost is about its joins.
--   Timers: `timer_stamp`, the destructors, and `acceptConnection`, `handle_events` and
--     `handle_expired_event` of main.cpp, on objects kept by address; Timers/Owner, Timers/Sweep,
--     Timers/Loop, Timers/Runs and Timers/Round are about who names whom, the sweep of expired
--     timers, new and kept requests, sequences of events, sweeps and ends of the workers' calls, and
--     the loop of `main`.
--   Server: rounds of the loop of main.cpp interleaved with calls of `myHandler` by the workers, with
--     the timers of Timers and the code of `handleRequest`; Server/Ready and Server/Serving are about
--     the states that it reaches, Server/Overtaken about a sweep inside a call. Server/Start: the
--     start of `main` and the wrappers of src/this_epoll.cpp; Server/Starting is about what `main`
--     has set up in front of its loop.
--   Locks: `MutexLock` and `Condition` of src/threadpool.cpp, and Locks/Holder about `holder_`.
--   Net: `socket_bind_listen` of main.cpp and `setSocketNonBlocking` of src/this_util.cpp;
--     Net/Listen is about the results of the first.
--   EchoLoop: the table of events, the handlers, the dispatch and the timeout scan of
--     history_version/epoll_loop (server.cpp, include/epoll_tool.cpp); EchoLoop/Safe, EchoLoop/Echo
--     and EchoLoop/Scan are about what a ready entry may do, new clients, and the scan. EchoLoop/Loop:
--     the start of `main` and the rounds of its loop; EchoLoop/Ready and EchoLoop/Running are about
--     the tables that they reach.
--   Concurrence: the loops that serve clients in history_version/concurrence_server (epoll,
--     multi_progress_server and multi_thread_server) and epoll_unblock/server.cpp;
--     Concurrence/Network is what they rely on in the kernel. Concurrence/Streams and
--     Concurrence/Capitals are about the epoll server, Child, Reaped and Worker about the loops for
--     one client, the handler of SIGCHLD and the threads.
--   Wrap: the wrappers of history_version/epoll_unblock/wrap.cpp; Wrap/Readline is about
--     `Readline`.
--   Failed: the request of history_version/failed/include/request_data.cpp, with the members and
--     helpers of Request where the code is the same; Failed/Uri and Failed/Spin are about
--     `parse_uri` and `handle_request`. Failed/Util: `readn` and `Writen` of include/util.cpp.
--     Failed/Cgi: `accept_request` and its pages; Failed/Cgi/Refused is about its refusals.
--   Each Tests module runs the definitions on concrete inputs and applies the theorems there.
--
-- What stands for the environment: the answers of `read`, `write`, `epoll_ctl`, `stat`, `mmap`, the
-- pthread calls, the allocator and the clock are parameters. The order in which a priority queue
-- holds timers that expire at the same time is that of their arrival.
--
-- Strings are lists of bytes, positions are natural numbers, and `npos` is `none`. A position that
-- was never set is `none` as well. Undefined behaviour and a thrown exception are results of their
-- own, with one exception: `sprintf` that prints a buffer in front of a text into the same buffer is
-- undefined in C, and is assumed to append the text, which the code relies on.
-- The text that `%s` reads through the dangling `filetype` of `analysisRequest` is a parameter, which
-- may be none, and a header that overruns its array is undefined. Output on the terminal is left out.
--
-- Concurrency: a stretch between locking and unlocking a mutex is one step, and a wait on a
-- condition variable ends one step and begins another. Runs are sequences of such steps. In Server
-- a call of the handler is two steps: up to its new timer, and its `epoll_mod`, where anything may
-- come between. A wait of ThreadPool/Steps may end at any time, also with no notification.
--
-- Fuel: a loop that the kernel may interrupt any number of times has fuel: those of `readn`,
-- `writen`, `get_line`, `Readline`, of the other wrappers and of the loops of Concurrence. A bound on the interruptions and the
-- bytes asked for are enough where a theorem says so. The loop of the old `handle_request` has fuel
-- because its end depends on the socket. All other loops are structural.
--
-- Not modelled: the empty classes of src/base and src/net; the test client; `handle_for_sigpipe`,
-- which the server does not call; the message of `my_epoll_wait`. Of history_version: the calls of
-- the servers under concurrence_server and of epoll_unblock/server.cpp that set up sockets, processes
-- and threads; failed/src/server_simple.cpp, whose `main` returns at once, and `startup` of
-- failed/include/socket_tool.cpp; the reading of the command line, whose port is used nowhere; and
-- the copies of the wrappers, of the epoll loop and of the epoll server.
pub mod Prelude
pub mod Request
pub mod Util
pub mod TaskQueue
pub mod Pool
pub mod ThreadPool
pub mod Timers
pub mod Server
pub mod Locks
pub mod Net
pub mod EchoLoop
pub mod Concurrence
pub mod Failed
pub mod Wrap
