-- ===== src/Lib.antt =====
-- ks_core: signals and slots across threads, event loops on top of asio, timers, tasks and objects.
-- All paths are below the repository's root; the code is in ks/.
--
-- How the parts work together. A `Signal` (ks/KsSignal.hpp) holds connections to functions and to
-- slots of objects. `Emit` calls a slot itself, or posts it to the event loop of the slot's object,
-- as the connection's type says; for a blocking connection it then waits until the slot was called.
-- An `EventLoop` (ks/KsEventLoop.cpp) hands what is posted to an asio service, and runs it on the
-- one thread that has started the loop. A `Timer` (ks/KsTimer.cpp) asks its loop for timeouts, which
-- emit the timer's signal; a `Task` (ks/KsTask.cpp) is a call that other threads wait for. Ids come
-- from counters under a mutex.
--
-- The files, and the code they are about:
--   Base, Base.*        shared names and lemmas: Boolean tests, lists, stores, entries with keys
--   Ids, Ids.*          the three `genId` (KsSignal.cpp, KsObject.cpp, KsEventLoop.cpp), as one call
--                       (`gen_id`) and step by step for any number of threads (Ids.Threads)
--   Event               KsEvent.hpp: the event classes are the constructors of one type
--   Host                what a signal uses of the rest of the program, as an interface: objects'
--                       lifetimes and loops, GetState, PostEvent, flags, user code
--   Signal, Signal.*    KsSignal.hpp: Connect (three overloads), Disconnect, ConnectionValid,
--                       GetConnectionCount, and Emit (Signal.Emit) with all its branches
--   Signal.Plan, .*     Emit against a plan of what it is to do
--   Signal.Mutex, .*    the connection mutex: the methods as steps of any number of threads
--   Signal.Registry, .* what a signal promises about its connections, as a bag of ids
--   Asio                the calls of asio::io_service and asio::steady_timer, as an interface
--   World               the state of all loops, objects, timers and tasks
--   EventLoop           KsEventLoop.cpp: getters, Start, Stop, the parts of Run, the destructor
--   EventLoop.Post      PostEvent, PostTask, PostCallback, PostStopEvent, startTimer, stopTimer
--   EventLoop.Handlers  EventHandler, TaskHandler, TimeoutHandler, ProcessEvents, Run
--   EventLoop.Casts     the tests of an event's type, and the static_casts behind them
--   EventLoop.Spawning  slots that post to their own loop
--   EventLoop.Posting   what is posted and then run, with a stop event among it (EventLoop.Stopping)
--                       with a slot that throws (EventLoop.Failing), and with Emit in front
--                       (EventLoop.Delivered)
--   EventLoop.Handshake a thread that emits a signal with blocking connections, and the thread of the
--                       receivers' loop, together
--   EventLoop.Mailbox   what a loop promises, as a queue with an owner; EventLoop.Refinement relates
--                       the two
--   EventLoop.Lifecycle the calls of any threads as a state machine
--   EventLoop.Ownership the thread that may run a loop
--   EventLoop.Launch    LaunchInThread and the wait functions, step by step
--   EventLoop.Removal   RemoveFromThread, step by step
--   EventLoop.Interface the loops implement Host
--   Timer, Timer.*      KsTimer.cpp, and what holds of the loop's list of timers
--   Timer.Session, .*   a timer's life on its loop, from Start over its timeouts to Stop
--   Timer.Parts         TimeoutHandler in parts, with calls of other threads in between; a call that
--                       starts the timer anew is the matter of Timer.Concurrent
--   Task, Task.*        KsTask.cpp
--   Task.Failing        a task whose function throws, and calls of loops in any order around it
--   Format, Format.*    the format blocks of KsLog.cpp, with FBRunTimeMs::Get on its clock, and
--                       CalcDuration (KsGlobal.hpp)
--   Log, Log.*          the Logger of KsLog.cpp and its lines, with the mutex that they hold, and LOG
--   Log.Console, .*     SinkToStdOut (KsLog.hpp) step by step, for any number of threads
--   Exception           KsException.cpp
--   MakeObject          MakeObject and init_object (KsObject.hpp), the constructor (KsObject.cpp)
--   MiscUtils           KsMiscUtils.hpp, ToString and ToStringFormat (KsGlobal.hpp)
--   Fixture, *.Tests    concrete values
--
-- How state and code correspond. A member `m_x` is a field `x`. A pointer is a number, and what it
-- points to is under that number in `World`; a `weak_ptr` gives its object while the object's
-- `alive` is true. A method that holds its mutex from its first line to its last is one step, a
-- function from state to state; a method that waits, or that lets go of the mutex, is split where it
-- does so. TimeoutHandler, which holds no mutex, is one step too, but for Timer.Parts. An
-- exception is a value (`Host.Result`); what was done before it stays done. User code, which a
-- `std::function` may be, is a parameter `run` with any effect and any exception; theorems that need
-- it not to reach back say so by `Host.Quiet` or by an equation on `run`.
--
-- Numbers and bounds. Ids are 64-bit and wrap (`Ids.id_mod`). asio's `poll` and `run` may go on as
-- long as handlers post more: `poll` has fuel, and `out_of_fuel` is a result of its own; one round more
-- than there are handlers to run is enough. `ipow` has 65 rounds, one more than an exponent has bits.
-- Times are in nanoseconds, the ticks of system_clock in glibc.
--
-- Not modelled: asio itself (thirdparty/asio, only the calls of it: Asio.IoService); the shared
-- mutexes and condition variables of C++, beyond the steps they make atomic and the mutex of a signal
-- (Signal.Mutex); the file system, which is a parameter; numbers in texts other than unsigned ones;
-- typedefs and macros of KsGlobal.hpp; what SinkToLogCat does with a line, and LOG as built for
-- Android; the test programs.

pub mod Base
pub mod Ids
pub mod Event
pub mod Host
pub mod Signal
pub mod Asio
pub mod World
pub mod Task
pub mod EventLoop
pub mod Timer
pub mod Format
pub mod Log
pub mod Exception
pub mod MiscUtils
pub mod MakeObject
mod Fixture
