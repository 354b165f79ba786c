-- ===== src/Connection/Stream.antt =====
-- `handle_connection` of src/master.rs over the bytes of its stream: the reads that its `select!`
-- polls and drops, the command that waits for its answer, and the accept loop that starts the
-- connections.
pub mod Taking
pub mod Framing
pub mod Interrupts
pub mod Invariant
use enjambre_worker.Prelude.{
  ℕ, suc, Bool, true, false, List, [], ◌∷◌, ◌++◌, Option, none, some, is_empty, if◌then◌else◌,
}
use enjambre_worker.Prelude.Text.{Text}
use enjambre_worker.Registry.{MasterConfig, WorkerRegistry, Reply}
use enjambre_worker.Connection.{
  Connection, Event, line, eof, read_error, command, Status, Turn, turn,
}
use enjambre_worker.Http.Utf8.{from_utf8}
use enjambre_worker.Reader.{Reader, new_reader, arrive, poll, cancel}

-- What the task of a connection wakes up for. `polled` is a poll of the read at which it stands;
-- `closed` and `failed` are polls that find the end of the stream or an error; `commanded` is a
-- command that `select!` takes from the channel, with the error if it cannot be written.
pub data Input : Type 0 where
  arrives : Text → Input
  polled closed failed : (now : ℕ) → Input
  commanded : (cmd : Text) (write_error : Option Text) → Input

-- The task: the command that waits for its answer, if there is one, what has been written to the
-- worker, and what has been answered on the channel.
pub record Stream (File : Type 0) : Type 0 where
  pub registry : WorkerRegistry File
  pub connection : Connection
  pub reader : Reader
  pub waits_for : Option Text
  pub output : List Text
  pub responses : List Reply
  pub status : Status

abbrev pub is_running : Status → Bool
is_running Status.running = true
is_running _ = false

abbrev pub option_list {ℓ} : {A : Type ℓ} → Option A → List A
option_list none = []
option_list (some a) = a ∷ []

-- What `read_line` gives for the bytes of a line.
abbrev pub read_event : Text → Event
read_event bytes = elim (from_utf8 bytes) [ none ↦ read_error | some text ↦ line text ]

module _ {File : Type 0} (config : MasterConfig) where
  -- The end of a turn, with what it has written.
  abbrev pub absorb : Turn File → List Text → Reader → Stream File → Stream File
  absorb t written reader s = record {
    registry = t.registry;
    connection = t.connection;
    reader = reader;
    waits_for = none;
    output = s.output ++ written;
    responses = s.responses ++ option_list t.response;
    status = t.status;
  }

  -- A read is done: its bytes are a command line, or the answer to the command that waits for one,
  -- which has been written already. Bytes that are not UTF-8 are an error of the read.
  abbrev pub read_done : Option Text → ℕ → Text → Reader → Stream File → Stream File
  read_done none now bytes reader s =
      let t = turn config s.connection now (read_event bytes) s.registry in
      absorb t t.output reader s
  read_done (some cmd) now bytes reader s =
      let t = turn config s.connection now (command cmd none (from_utf8 bytes)) s.registry in
      absorb t [] reader s

  abbrev pub took : ℕ → Text → Reader → Stream File → Stream File
  took now bytes reader s = read_done s.waits_for now bytes reader s

  -- The end of the stream, or an error, in place of a line.
  abbrev pub read_lost : Option Text → ℕ → Event → Stream File → Stream File
  read_lost none now e s = absorb (turn config s.connection now e s.registry) [] s.reader s
  read_lost (some cmd) now e s =
      absorb (turn config s.connection now (command cmd none none) s.registry) [] s.reader s

  abbrev pub lost : ℕ → Event → Stream File → Stream File
  lost now e s = read_lost s.waits_for now e s

  -- The read gives what it has before it gives the end of the stream.
  abbrev pub at_end : ℕ → Stream File → Stream File
  at_end now s =
      let bytes = s.reader.partial ++ s.reader.unread in
      if is_empty bytes then lost now eof s else took now bytes new_reader s

  abbrev pub polls : ℕ → Option Text × Reader → Stream File → Stream File
  polls now (none, reader) s = record s { reader = reader }
  polls now (some bytes, reader) s = took now bytes reader s

  -- While a command waits for its answer, `select!` is not polled, and no other command is taken.
  abbrev pub takes : Option Text → Text → Option Text → Stream File → Stream File
  takes (some other) cmd write_error s = s
  takes none cmd (some e) s =
      let t = turn config s.connection 0 (command cmd (some e) none) s.registry in
      absorb t [] (cancel s.reader) s
  takes none cmd none s = record s {
    reader = cancel s.reader;
    waits_for = some cmd;
    output = s.output ++ cmd ∷ [];
  }

  unfoldable pub wake : Input → Stream File → Stream File
  wake (arrives bytes) s = record s { reader = arrive bytes s.reader }
  wake (polled now) s = polls now (poll s.reader) s
  wake (closed now) s = at_end now s
  wake (failed now) s = lost now read_error s
  wake (commanded cmd write_error) s = takes s.waits_for cmd write_error s

  unfoldable pub handle_connection : List Input → Stream File → Stream File
  unfolding wake
  handle_connection [] s = s
  handle_connection (i ∷ is) s = handle_connection is (if is_running s.status then wake i s else s)

-- A task as it starts; `cmd_tx` stands for the channel that it makes.
abbrev pub new_stream : {File : Type 0} → ℕ → Text → WorkerRegistry File → Stream File
new_stream cmd_tx peer r = record {
  registry = r;
  connection = record { cmd_tx = cmd_tx; peer = peer; this_worker_id = none };
  reader = new_reader;
  waits_for = none;
  output = [];
  responses = [];
  status = Status.running;
}

-- What `accept` gives.
pub data Accepted : Type 0 where
  stream : (addr : Text) → Accepted
  accept_error : Accepted

-- The connections that are spawned, each with its peer and a channel of its own.
unfoldable pub run_server_on_listener : ℕ → List Accepted → List Connection
run_server_on_listener next [] = []
run_server_on_listener next (accept_error ∷ as') = run_server_on_listener next as'
run_server_on_listener next (stream addr ∷ as') =
    record { cmd_tx = next; peer = addr; this_worker_id = none }
    ∷ run_server_on_listener (suc next) as'
