-- ===== src/Lib.antt =====
-- Enjambre: a network that shares GPUs to run language models. A master keeps a registry of the
-- workers that connect to it over TCP, gives each a role (super node, GPU provider, consumer) and a
-- tunnel port, hears their heartbeats, and splits the layers of a model over those with a GPU. Its
-- HTTP interface relays chat requests to the super node through a relay, takes credits of a pool and
-- of the user's key for each success, and lets an administrator change both. A worker registers,
-- is told what to run, and reports its free memory; it counts the bytes that it relays.
--
-- The parts and their files:
--   Prelude   the names that all files share: Boolean tests on numbers, lists, texts as lists of code
--             points with the operations of `str`, decimal numbers, hash maps as association lists.
--   Storage   what `serde_json` and the file system do for a value kept in one file: an argument of
--             every definition that saves or loads. IsDurable states their documented behaviour where
--             no write fails.
--   Json      `serde_json::Value`, as far as src/master.rs and src/api.rs read and build it. The
--             parser `from_slice` is an argument.
--   Keys      src/keys.rs: the API keys and their credits. KeyManager holds the map, the path and the
--             content of the file; each operation of the source is a function of its name that gives
--             the next KeyManager. Children: Spending, Naming, Listing, Invariant.
--             Keys.Refinement holds it against accounts as a plain function from the keys.
--   Registry  WorkerRegistry, WorkerNode, Role and the configuration of src/master.rs, with one
--             function for each method. Registry.Files has the credits file, Registry.Ports the tunnel
--             ports, Registry.Slaves the report of the providers, Registry.Credits and
--             Registry.Earnings the credits, Registry.Invariant what the operations keep.
--   Protocol  `MasterCommand` and `parse_line` of src/master.rs.
--   Split     `calculate_tensor_split` of src/master.rs; `u32` for the number of workers.
--   Heartbeat one round of `spawn_heartbeat_checker` of src/master.rs.
--   Connection `handle_connection` of src/master.rs: `turn` is one turn of its `select!` loop, from an
--             Event to the registry, the connection, the lines written, the answer on the command
--             channel and whether the loop goes on. Children: Roles, Replies, Invariant, Succession
--             (the place of a super node that is gone), Race (a registration as its single calls of the
--             registry, and two of them at once; Race.Turns has those in which one comes first).
--             Connection.Stream is the task over the bytes of its stream, with the reads that
--             `select!` drops and the command that waits for its answer, and the accept loop; its
--             children are Taking, Framing, Interrupts and Invariant.
--   Reader    what the program uses of tokio's `BufReader` and `read_line`.
--   Client    `start_master_connection` of src/client.rs: the lines that it writes, what it reads from
--             the greeting and from the answers to its heartbeats, and its reconnections. RoundTrip,
--             Greeting and Pong compose it with Connection and Protocol. Client.Identity is the id,
--             Client.Registration a registration from end to end, Client.Memory the readings of the
--             free memory. Client.Heartbeats is the loop of the heartbeats over the text that comes,
--             and the connections one after the other; Heartbeats.Laws composes it with the master's
--             answers, and Heartbeats.Late has an answer that comes in two parts.
--   Http      the relay's raw response as `chat_completions` of src/api.rs reads it; Http.Utf8 is
--             `String::from_utf8_lossy`, and the look at a line's bytes that `read_line` takes.
--   Api       src/api.rs: ApiState, the guard, the handlers without a guard; Api.Admin the
--             administrator's handlers, Api.Router their routes, Api.Chat `chat_completions` in two
--             steps, `admit` and `answer`, since other requests run between them. Api.Chat.Saved is what
--             the credits file knows of a charge.
--   Stats     src/stats.rs.
--   Tunnel    `run_reverse_tunnel` of src/tunnel.rs, as rounds with what came of each.
--   Hardware  src/hardware.rs, over the output of nvidia-smi and the registry of Windows.
--   Worker    src/main.rs: what a worker starts by its role, `monitor_children` and
--             `handle_slave_updates`, which src-tauri/src/main.rs has too, with other arguments of the
--             relaunch. A child process is what it was started with, and those that a drop does not end
--             are kept, as Process.Jobs has it. Worker.Run is `run` from the
--             single-instance mutex to the programs, and its end; Run.Ending is the tray at the end.
--   Process   src/process.rs: `spawn`, `try_wait` and `drop` of a child with its job, over an interface
--             of the calls of Windows. Process.System states what they do to handles and jobs;
--             Process.Kernel is a Windows in small. Children: Handles, Drop, Jobs,
--             CommandLine. Process.Console is the thread that hides console windows, over an interface
--             of the calls on windows; what it relies on of them is in Console.Hiding.
--   Files     what `std::fs` and `std::path` do, for a file system as a table of files.
--   Download  `download_model` of src/client.rs and `ensure_model` of src/download.rs.
--   Workspace src/workspace.rs: the paths, and the extraction of the archive entry by entry.
--   Desktop   src-tauri/src/main.rs: the numbers and the window of its panel; Desktop.Background is
--             its `run_worker` with the wait for the shutdown flag, the thread of it, and `main`.
--   Utf16     the texts that are handed to Windows and come back.
--   Tray      src/tray.rs and src/panel.rs: the message loop of the tray and that of the panel in it.
--   Master    src/bin/master.rs, and `load_config` of src/master.rs: the state that the two listeners
--             start with. Master.Boot composes it with Server.
--   Server    the steps of the whole server in any order. Server.Restart is what they leave of a file.
--   Tests     a small network at which the theorems are applied.
--
-- Numbers are natural numbers, and where the source adds or subtracts on `u16`, `u32` or `u64`, the
-- result is written modulo 2^w: release builds do not check overflow. An Instant is a number of
-- nanoseconds, and a clock or the network enters as an argument: what it gives. Loops are recursion
-- on the list that they go over; the reconnections and the reads of a stream are lists of what came
-- of each, so no fuel is needed. A panic is a result of its own (none of `init_line`, panicked). A
-- header's text (`to_str`) and a header's value (`header_value`) are arguments too.
--
-- A turn of a connection runs at once in Server: the locks of the registry are taken call by call in
-- the source, and Connection.Race is the one place that interleaves the calls of two turns. The reads
-- that `select!` cancels half way are those of Connection.Stream. Chat requests interleave between admission and answer.
--
-- The children of src/process.rs stand on what Windows documents of handles and jobs: a call opens a
-- handle that was closed, or fails; closing the last handle of a job that is limited by
-- KILL_ON_JOB_CLOSE ends its processes.
--
-- Not modelled: the sockets and the timers; the logs and the progress of a download; the window classes, icons and drawing of
-- src/tray.rs and src/panel.rs and the set-up of Tauri, which only call the system; src/state.rs,
-- src/error.rs and src/lib.rs, which declare types and modules; the dashboard and the scripts.
pub mod Prelude
pub mod Storage
pub mod Keys
pub mod Json
pub mod Reader
pub mod Utf16
pub mod Registry
pub mod Process
pub mod Files
pub mod Download
pub mod Workspace
pub mod Protocol
pub mod Split
pub mod Heartbeat
pub mod Connection
pub mod Client
pub mod Http
pub mod Api
pub mod Server
pub mod Master
pub mod Stats
pub mod Hardware
pub mod Tunnel
pub mod Worker
pub mod Desktop
pub mod Tray
pub mod Tests
