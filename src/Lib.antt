-- ===== src/Lib.antt =====
-- AI_M_OS: the Python programs of the system, the kernel module that they write to, and the daemon
-- of the command `aifs`.
--
-- The parts, as the repository has them. The AI daemon (ai-daemon/daemon.py) collects a snapshot of
-- the machine once a second (collectors/metrics.py, which asks the Go daemons by proto/client.py),
-- writes it to PostgreSQL (db/logger.py), and lets four rules change the nice values of processes
-- (scheduler/heuristics.py). A nice value is changed by a line to `/proc/aimos_scheduler`, or by
-- `setpriority` where that fails (scheduler/kernel_iface.py). The same function stands behind the
-- D-Bus object (dbus/scheduler_service.py), which the process window calls
-- (dbus/aimos_scheduler_app.py). The line is read by the kernel module
-- (kernel-modules/aimos_scheduler/aimos_scheduler.c). The command `aifs` (aifs/cli/aifs.py) talks to
-- a daemon of its own over a socket (aifs/daemon/main.go), which runs the program `btrfs`
-- (aifs/daemon/btrfs.go).
--
-- The files:
--   Common            numbers over ℕ, lists, texts as lists of code points, `int` and `str`, the
--                     exceptions, and `M W A`: code over a world that returns or raises, and
--                     leaves a world in both cases; stable sorting. Keeps, Yields, Raises and
--                     Lifts have rules for such code: what it keeps of the world, what its value
--                     satisfies, what it raises, and that further state stands beside it
--   Machine           the system calls as an interface; Machine.Laws has what the code relies on
--   Float, Json       Python's floats as an interface, and the values of `json.loads`
--   Database          psycopg2's connection as an interface; its Laws for priorities
--   KernelIface       ai-daemon/scheduler/kernel_iface.py, function by function
--   SchedulerService  ai-daemon/dbus/scheduler_service.py; the signals sent are part of the state
--   Snapshot, Metrics ai-daemon/collectors/metrics.py; `_prev_cpu` is the second part of the state
--   Client            ai-daemon/proto/client.py: Receive the loop, Balance the open sockets
--   Logger            ai-daemon/db/logger.py; Logger.Atomic has the laws of a transaction
--   Heuristics        ai-daemon/scheduler/heuristics.py: Listing and Parse read `/proc` (ReadBack is
--                     about a line of `stat`), Rules has the four rules of `run_heuristics` in the
--                     order of the source, Plan their decisions without effects, Decides
--                     the code beside them, Effects, Decisions and Success what the calls do, Order
--                     which process is first and which rules exclude each other; Changes, Permitted
--                     and Enacts the calls of a caller who may set every priority, Audit and
--                     Recorded the rows that a call leaves in the database
--   Daemon            ai-daemon/daemon.py: `round` is the body of the `try`, `tick` adds the
--                     `except` clauses, `loop` the `while True`, `main` the connection; Spared follows
--                     one process over all rounds
--   Aifs              aifs/cli/aifs.py: Request has `send`, Commands the commands and dispatch,
--                     Consent what the program does without the daemon, Balance the open
--                     sockets
--   AifsDaemon        aifs/daemon: Volumes has the operations of btrfs.go, Handle the requests and the
--                     dispatch of main.go; Go is a call that returns, fails or panics, Calls the
--                     interface to the system, Paths what the code uses of `strings` and
--                     `filepath`. Parts and Folders are about paths, Subvolumes has the laws of
--                     rename(2) and btrfs, Disk an instance of them, Restore what a restore
--                     leaves, and Wire the command line with this daemon behind its socket
--   Window            ai-daemon/dbus/aimos_scheduler_app.py, the handlers and the list; Start has
--                     the proxy, the opening and the events, Session runs of events, Bus the
--                     window on the D-Bus object
--   KernelModule      the write and the read handler of the kernel module, with `sscanf`
--   Host              a machine with files, tasks and the kernel module: an instance of Machine
--   System            the kernel's steps, whoever causes them, and the daemon as a run of steps:
--                     Keeps in the modules above says of a function that it keeps what its
--                     calls keep, by the rules of Common.Keeps and Common.Yields
--   Deployed          iso-profile/airootfs/opt/aimos/ai-daemon: its heuristics, an older text, and
--                     the loop around them; the rest there has the text of ai-daemon, but for a
--                     version and two missing functions, and is taken from the files above
--   Examples          a concrete machine, database, socket, float and encoding, on which the code
--                     runs
--
-- Exceptions are values: `raised e` with the classes that the program tells apart. A 'world' is
-- a parameter wherever code outside of the repository acts on it; its behaviour is stated as
-- named hypotheses (IsLawful for getpriority and setpriority, IsReading, IsWriting and IsApart for
-- the calls of the system, IsRounding for floats, IsTransactional, IsQuiet and IsStoring for the
-- connection, IsCounted for sockets, IsBtrfs for subvolumes, Speaks for the two encodings of JSON),
-- each of them met by an example.
--
-- Bounds. The receive loop runs on fuel, one unit for each `recv`; more fuel than the peer has
-- chunks is enough. The daemon's loop is followed for a number of rounds. Python's integers have no
-- bound; those of the kernel module wrap at 32 bits, and process numbers that reach it are taken to
-- fit a `pid_t`.
--
-- The AIFS daemon handles one request at a time, on a file system without symbolic links; texts are
-- Unicode, and its clock gives formatted texts.
--
-- Not modelled: log lines, the layout of the window, the main loop of D-Bus, registration of the
-- kernel module, the network, power and sensor daemons (the Python client takes their answers as a
-- parameter), the C# and JavaScript programs, the build of the ISO image, and packaging.

pub mod Common
pub mod Machine
pub mod KernelIface
pub mod SchedulerService
pub mod Float
pub mod Json
pub mod Snapshot
pub mod Database
pub mod Logger
pub mod Heuristics
pub mod Client
pub mod Metrics
pub mod Daemon
pub mod Aifs
pub mod Window
pub mod KernelModule
pub mod Host
pub mod System
pub mod Deployed
pub mod AifsDaemon
pub mod Examples
