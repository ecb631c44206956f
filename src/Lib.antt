-- ===== src/Lib.antt =====
-- NPP, a process framework in C++: coroutines, channels and executors, and messages over TCP between
-- ranked processes. This library models its parts and proves what makes them correct.
--
-- The parts, and how they interact (paths from the repository's root):
--
-- * Basic.Bytes is src/basic/Bytes: owned byte buffers over an explicit heap, with `size_t` of 64 bits.
--   `set` serves the receiver of messages. Basic.Exception has the exceptions of all parts.
-- * Task.Result is src/task/Result.h, and Task.Awaiter src/task/CommonAwaiter.h: the result that an
--   awaiter carries, and how it is resumed through an executor or at once.
-- * Task.Channel is src/task/Channel.h. Each operation takes `channel_lock` and ends with the calls of
--   `resume`, so it is one step, which returns these resumptions in order beside the new state. Its
--   children hold the invariant (Invariant), the order of values and awaiters (Fifo) and histories that
--   are closed at any time (Closing). Task.ChannelAwaiter is src/task/ChannelAwaiter.h: what a resumed
--   reader or writer gets (Lifecycle), and an executor that runs at once (Reentry).
-- * Task.Promise is src/task/TaskPromise.h with the methods of src/task/Task.h and
--   src/task/TaskAwaiter.h: results and callbacks. What the client's functions do is a parameter.
-- * Task.Waiting is src/task/TaskAwaiter.h and src/task/FutureAwaiter.h: a coroutine that waits for a task
--   joins a promise with an awaiter.
-- * Task.Looper is the `LooperExecutor` of src/task/Executor.h, as a relation between states: the steps
--   of its thread, of callers, and of the condition variable, spurious wake-ups included.
-- * Task.Scheduler is src/task/Scheduler.h, a relation between states like the looper. What
--   `std::priority_queue` does is an interface of laws, `PriorityQueue`. Task.Scheduler.Sleep is
--   src/task/SleepAwaiter.h, and Task.Scheduler.Ending the destructor.
-- * Basic.Command is `exec` of src/basic/Utils.cpp over an interface to pipes, Basic.Backtrace the
--   printing of a backtrace in src/basic/Exception.cpp, which runs a command for each frame,
--   Basic.Terminate its handler of termination, Basic.Signal that of signals with
--   `initExceptionHandler`, and Basic.Logger the loggers of src/basic/Logger.h and the lock that they
--   share.
-- * Basic.Thread is the flags of src/basic/Thread.cpp, and Basic.Thread.Life the threads of an object
--   and its destruction. Basic.StackFrame is `parseStrings` of src/basic/Exception.cpp and
--   Basic.FileName `file_name` of src/basic/Logger.cpp.
-- * Task.Keeper is the `TaskKeeper` of src/task/Task.h and src/task/Task.cpp, over the promises that its
--   tasks have at the time. Task.Handle is the objects of class `Task`: who owns the frame of a coroutine.
-- * Task.Elastic is a worker of src/task/ElasticExecutor.cpp, with the steps of other workers and of the
--   thread of the executor that it can see; Task.Elastic.Crew is all workers with the queue that they
--   share, Task.Elastic.Meter the measuring of the time of one, Task.Elastic.Pool the rounds of the
--   executor over an interface to `float`, and Task.Elastic.Ending its thread from the constructor to the
--   destructor.
-- * Task.Executors has the executors of all kinds side by side, with src/task/DispatchAwaiter.h, which
--   hands a coroutine to one of them.
-- * Network.Head is the message head and the frames of src/network/NetworkManager.h and .cpp, for
--   a little-endian machine; Network.Receive reads messages from a Network.Connection, an interface
--   to `read` whose law is that bytes arrive in order and at most as many as asked for;
--   Network.Dispatch is what `run` does with an event of a connection, and Network.Server the start,
--   the loop and the end of `run` with the stopping of the server; Network.Inbox hands its messages
--   to `getMessage` through a channel, and Network.Node joins both, with the connections that are
--   accepted, the calls of `sendMessage` and `registerTarget`, and the steps of `stopServer`: what
--   an event does (Events), what every step keeps (Kept), what `getMessage` returns of what peers
--   send (Carries), and `sendMessage` at the other end (EndToEnd). Network.Registry is the table of
--   targets, and Network.Send the sending side over an interface to the system calls; its children
--   have the attempts of a call (Attempts), what calls put on the sockets (Stream), a write that is
--   cut short (Short), what calls change of the manager (Table), and calls in many threads at the
--   same time (Threads), with a single call as steps of its thread (Threads.Alone).
--
-- Calls have an outcome: a value, an exception, a failed assertion or a termination of the program
-- (`abort`), or undefined behaviour (`fault`).
--
-- Fuel: the loop of `readNormalMessage` takes as many passes as the message has bytes, since a pass reads
-- a byte at least; that these are enough is proved. The loop of `sendMessage` recurs on the rounds that
-- `retry` leaves. The loop of `exec` takes as many passes as the command prints bytes, and one more.
--
-- Parameters are what the repository does not contain: the system calls, the client's functions,
-- `float`. What a connection does that TCP does not promise is a hypothesis of its own, `IsReliable`: no
-- errors, and heads and verify codes that have arrived whole when they are read. `IsHealthy` is a pipe with
-- no read error.
--
-- Not modelled: memory orders weaker than sequential consistency, and the programs and tests. In
-- Network.Node a call of `sendMessage` of the server's process is one step for the loop. What the system
-- does with sockets for sending, in the server's epoll set too, is in the state of the system calls.
pub mod Common
pub mod Basic
pub mod Task
pub mod Network
pub mod Tests
