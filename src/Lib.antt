-- ===== src/Lib.antt =====
-- chrono-daemon: long-running daemons on a clock that can be simulated.
--
-- A program puts daemons under a supervisor (src/chrono_daemon/supervisor.py), which hosts each in
-- a task, restarts it after a failure and stops it. Daemons sleep on a clock
-- (src/chrono_daemon/clock.py); the simulated clock moves only when a test advances it. Daemons
-- talk over channels (src/chrono_daemon/channel.py), in one process or over ZeroMQ
-- (src/chrono_daemon/transports/zmq.py), and the recipes (src/chrono_daemon/recipes) build on
-- these.
--
-- Clock: SimClock of src/chrono_daemon/clock.py. Waiter and Sim are its entries, its state and
--   registration (wait_until, sleep, call_at, cancel, abandon). Due is _heap_due and _pop_due with
--   the open instant. Advance is _settle, _advance_to, advance_to and advance. Every is every, and
--   Wall is WallClock. The heap is a list in the order of heapq's comparison. The tasks, callbacks
--   and settle() that run between two steps of the driver are a parameter, Host: what they do is a
--   list of registrations and cancellations and an outcome, and they carry a state of their own.
-- Supervisor: src/chrono_daemon/supervisor.py. Record is a daemon's record and the restart policy,
--   Host the loop _host with _run_on_stop_shielded, Registry the supervisor's state with add, spawn,
--   __aenter__, __aexit__, signal_stop, stop, _on_daemon_exit, wait_all_started and snapshot. What a
--   daemon's methods do in each attempt is a parameter, World. Consistency has the step relation of
--   the supervisor's methods and the ends of its tasks. Task is _host again, as a task that waits at
--   each await; Joint is the supervisor together with its tasks, where calls of methods and turns of
--   tasks come in any order; StopWakes is about the wait of stop. Decorated is the decorator of
--   src/chrono_daemon/daemon.py, Logging the adapter of src/chrono_daemon/_logging.py.
-- Channel: src/chrono_daemon/channel.py. Endpoint is _Send and _Recv, Stream open_channel, closing
--   and iteration, Stats the statistics, Traffic the calls that tasks make on both endpoints in any
--   order. The anyio memory stream is a parameter, MemoryStream and AnyioStream; a call that waits
--   is split into its start and its end.
-- State: lossy.py and latest.py (Latest) of src/chrono_daemon/recipes/state. Buffer states the
--   documented behaviour of a bounded memory stream as named hypotheses.
-- Zmq: src/chrono_daemon/transports/zmq.py. Frame is the frames and the configuration, Open the
--   opening of endpoints, Sender and Receiver the endpoints, Transcript the calls of a sender in a
--   row, Link the calls of both sides in any order, Stats the statistics. What the socket answers
--   and the serializer are parameters.
-- Routing: load_balance.py, worker_pool.py, merge.py and fanout.py (Tee) of
--   src/chrono_daemon/recipes/routing, with src/chrono_daemon/recipes/_flow.py. What the sources
--   give, what the destinations take, and the memory streams below a pool are parameters. The tasks
--   of a pool and of a merge take turns in any order, as steps of a relation; Closing is what they
--   close at the end.
-- Coordination: batcher.py, select.py and cooperative_every.py of
--   src/chrono_daemon/recipes/coordination. What the streams give and when, the clock and its ticks,
--   and the function that answers a batch, are parameters.
-- Hosting: src/chrono_daemon/recipes/hosting. SupervisorHost is supervisor_host.py, SyncBridge is
--   sync_bridge.py; what the supervisor and the setup do is a parameter.
-- Floats: the operations of Python's floats, as a parameter that is ordered by rank. NaN is left
--   out.
-- Common: the lists, tests and integers that all parts use. Tests: runs and concrete cases.
--
-- Loops without a bound in the code run on fuel. _pop_due needs two rounds; advance_to needs two
-- for each entry that is there or can still be registered, and two more; _host needs max_retries +
-- 1 attempts; every needs as many tests as there are grid points up to the time of the consumer,
-- and one more on the wall clock; send_when_ready runs for at most so many tries; batcher_loop
-- needs a round for each request, and one more. Without max_retries, or with callbacks that
-- register for ever, the code does not end either, and the result is then marked as not over.
--
-- Not modelled: the base class Daemon and Context, which hold values only, the arguments of a
-- decorated function, MsgpackSerde, which only calls a library, and how anyio schedules tasks. How
-- the channels of merge and worker_pool are closed is not part of the relations of their tasks,
-- but a function of its own.
pub mod Common
pub mod Floats
pub mod Clock
pub mod Supervisor
pub mod Channel
pub mod State
pub mod Zmq
pub mod Routing
pub mod Coordination
pub mod Hosting
pub mod Tests
