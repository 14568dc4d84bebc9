-- ===== src/Lib.antt =====
-- A model of async-winit, the crate that runs winit's event loop under futures.
--
-- The program. winit calls `Filter::handle_event` (src/filter.rs) for each of its events. The filter
-- collects the wakers of the timers that are due from the reactor (src/reactor.rs), lets the reactor
-- post the event to the event handlers (src/handler.rs), blocks while a listener holds the event up,
-- polls the user's future while it is notified, and says how winit is to wait. Tasks register
-- timers (src/timer.rs) and listeners, which wake the filter through its notifier. A method of a
-- window (src/window.rs) pushes an operation with the sending end of a one-off channel
-- (src/oneoff.rs); the filter has the reactor drain these operations, each of which calls winit and
-- sends what it returns back to the method's task.
--
-- The files.
--   Prelude: the names that all share; Prelude/Tests and Prelude/Lists are the development's own.
--   Task, Time: what is used of std::task and std::time. A waker is the identity of its task, so
--     that `will_wake` is equality; an instant is a number of nanoseconds, and `max_instant` the
--     last one that the platform can represent.
--   Slab: the slab crate as an interface; Slab/Entries shows that it can be met.
--   Sync: the queue of src/sync.rs that the reactor is generic over, as an interface, and in
--     Sync/ThreadUnsafe the one of the thread-unsafe build. `fetch_add` wraps at 2 ^ 64.
--     Sync/Locks has the locks and once-cells of both builds, Sync/Threads `thread_id`.
--     Sync/Channels is the bounded channel as an interface, with the two forms of `try_send`, and
--     Sync/Channels/Slots shows that it can be met.
--   Oneoff: src/oneoff.rs over such channels; Oneoff/Answers has what is sent and received.
--   Handler: `State` and `Listener` of src/handler.rs, one function for each of its methods, `none`
--     for a panic. Handler/Waiter has the waiters, the hold guards and `run_with` behind the
--     direct listeners; each takes the lock once, and so is one step, which returns the wakers it
--     wakes. Handler/Links is the list that the links of the slab form, Handler/Invariant says
--     that a state is such a list, Handler/Insert and Handler/Remove keep it. Handler/Turns is the
--     abstract machine, in which an event is a turn that passes along the listeners, and its
--     children relate each step of the code to it. Handler/Turns/Reachable has all the steps as a
--     relation. Handler/Directs has the direct listeners, whose calls are a parameter, Handler/Run
--     the handler, whose state is made on first use, and `run_with` as a whole.
--   Wheel: the `BTreeMap` of timers, a list in the order of its keys, with the operations used.
--   Reactor: src/reactor.rs: the exit code, the proxy, the queue of timer operations, the wheel.
--     Reactor/Timers has the invariant `IsSound` and the effect of the operations, Reactor/Rounds
--     a round of timers, Reactor/Exit the packing of the exit code. Reactor/Loop is the queue of
--     event loop operations, with the world of reactor, window system and channels, and
--     Reactor/Loop/Drain what a drain does. Reactor/Windows is the map of windows and
--     `post_event`, Reactor/Windows/Routes where events go as windows come and go. Reactor/Global
--     is `Reactor::new` and the `get_reactor` of both builds, with Reactor/Global/Once and
--     Reactor/Global/Starts.
--   Ops: Ops/Winit is what is called of winit, as an interface; Ops/Request has the variants of
--     `EventLoopOp`, in four groups, and the kind of answer of each; Ops/Run is
--     `EventLoopOp::run`.
--   Timer: src/timer.rs, all operations, over the reactor; Timer/Wakes for a timer that waits,
--     Timer/Fires for one that fires, Timer/Unwraps for its form as a future.
--   Notifier, Filter: src/filter.rs; the user's future, the future that `post_event` returns, the
--     wakers, the parker, the clock and the window target are parameters, which act on the world.
--     Filter/Sleep is about the wakers, Filter/Steps about where the loop that polls the future
--     stops. The notifier of the filter is the reactor's, as it is for the first filter of a
--     program.
--   Window/Registration: src/window/registration.rs, which handler an event runs.
--   Window/Builder: the attributes and the builder of src/window.rs; winit's builder and the
--     settings of the platform are an interface. Window/Builder/Settings is about a new builder,
--     Window/Builder/Given about one that was given.
--   Window/Methods: the 43 asynchronous methods, in the groups of the operations, up to the await
--     of the answer; Window/Methods/Calls has them as data, beside the methods of winit,
--     Window/Methods/Answers what an operation comes to, and Window/Methods/Answers/Every each
--     method; Window/Methods/Cancelled is about a task that is dropped.
--   Window/Handlers: the handlers that a window gives out; Window/Handlers/Reached which of them an
--     event of winit reaches.
--   Window/Direct: the methods that call winit at once; Window/Direct/Agrees about those that there
--     are twice.
--   Window/Lifetime: `build`, the clones and the drop of a window; Window/Lifetime/Opens has the
--     new window, Window/Lifetime/Owners the count of its owners.
--   EventLoop: src/event_loop.rs, the target of the event loop, and `block_on` for the events that
--     winit hands out; EventLoop/Builder has the builder of event loops and what the platforms ask
--     of it, EventLoop/Exits what the calls of the target come to, EventLoop/Unsent what a
--     notification of a sleeping loop sends, EventLoop/Repolls a future that asks for the exit, EventLoop/Asleep a loop
--     whose future is not notified.
--   Platform: src/platform, the settings of a window builder on Windows, macOS, iOS, X11, Wayland
--     and on both of these (FreeUnix); the modules Applies are about what winit's builder is
--     given, Platform/FreeUnix/Names about the name of a window, and the modules Forwards the methods that
--     forward to winit. Platform/RunReturn is
--     `block_on_demand`.
--   Tasks: a future that awaits methods of windows one behind the other, as the state machine that
--     its polls drive. Tasks/Host puts the filter, the reactor with its queue, the one-off
--     channels and the map of windows together to run it; Tasks/Live, Tasks/Steps, Tasks/Once,
--     Tasks/Polls and Tasks/Events follow it through an event, and Tasks/Returns through a run of
--     `block_on_demand`.
--   Examples: the theorems at concrete values.
--
-- Fuel and bounds. The push loop of the timer operations runs on fuel; two rounds are enough where
-- the queue has room for one operation. `IsSound n` says that the queue never overfills, or that `n`
-- pushes fit. The two loops of the filter run on fuel; they end only if the futures do. The
-- theorems of Tasks, EventLoop/Asleep and EventLoop/Unsent say which fuel is enough; EventLoop/Repolls
-- is about one round of a loop, which has no fuel.
-- An overflow of `now + 1` is the panic of the source; a timer with no next deadline has none.
--
-- Not modelled. A drop of the task that runs the direct listeners in the middle of a call. A task that
-- waits for room in the queue of operations is a push that gives `none`. An operation that is
-- dropped unsent, when the loop ends. The atomics, the reference counts and the channels of both
-- builds forward to std and other crates. A second filter, whose notifier is not the reactor's.
-- In Tasks a handler that was used before, and what other threads do meanwhile. The query
-- of the device's idiom on iOS, display handles, Debug output, the crate root, the build script
-- and the examples.
pub mod Prelude
pub mod Slab
pub mod Task
pub mod Time
pub mod Wheel
pub mod Notifier
pub mod Sync
pub mod Reactor
pub mod Timer
pub mod EventLoop
pub mod Filter
pub mod Handler
pub mod Oneoff
pub mod Ops
pub mod Platform
pub mod Window
pub mod Tasks
pub mod Examples
