-- ===== src/Connection/Stream/Invariant.antt =====
-- A connection keeps the registry valid, whatever bytes and commands come.
use enjambre_worker.Prelude.{
  ℕ, List, [], ◌∷◌, ◌++◌, Option, none, some, is_empty, if◌then◌else◌, Bool-cases, inl, inr,
}
use enjambre_worker.Prelude.Text.{Text}
use enjambre_worker.Registry.{MasterConfig}
use enjambre_worker.Registry.Invariant.{IsValid}
use enjambre_worker.Connection.{Event, eof, read_error, command}
use enjambre_worker.Connection.Invariant.{turn-IsValid}
use enjambre_worker.Http.Utf8.{from_utf8}
use enjambre_worker.Connection.Stream.{
  read_event, Input, arrives, polled, closed, failed, commanded, Stream, wake, read_done, read_lost,
  at_end, polls, takes, handle_connection, is_running,
}
use enjambre_worker.Reader.{Reader, new_reader, poll}

module _ {File : Type 0} (config : MasterConfig) where
  read_done-IsValid :
      (w : Option Text) (now : ℕ) (text : Text) (r : Reader) (s : Stream File)
      → IsValid s.registry
      → IsValid (read_done config w now text r s).registry
  read_done-IsValid none now text r s v =
      turn-IsValid config s.connection now (read_event text) s.registry v
  read_done-IsValid (some cmd) now text r s v =
      turn-IsValid config s.connection now (command cmd none (from_utf8 text)) s.registry v

  read_lost-IsValid :
      (w : Option Text) (now : ℕ) (e : Event) (s : Stream File)
      → IsValid s.registry
      → IsValid (read_lost config w now e s).registry
  read_lost-IsValid none now e s v = turn-IsValid config s.connection now e s.registry v
  read_lost-IsValid (some cmd) now e s v =
      turn-IsValid config s.connection now (command cmd none none) s.registry v

  at_end-IsValid :
      (now : ℕ) (s : Stream File) → IsValid s.registry → IsValid (at_end config now s).registry
  at_end-IsValid now s v = elim (Bool-cases (is_empty (s.reader.partial ++ s.reader.unread))) [
    | inl y ↦ rw y (read_lost-IsValid s.waits_for now eof s v)
    | inr n ↦
        rw n
          (read_done-IsValid s.waits_for now (s.reader.partial ++ s.reader.unread) new_reader s v)
  ]

  polls-IsValid :
      (now : ℕ) (p : Option Text × Reader) (s : Stream File)
      → IsValid s.registry
      → IsValid (polls config now p s).registry
  polls-IsValid now (none, r) s v = v
  polls-IsValid now (some text, r) s v = read_done-IsValid s.waits_for now text r s v

  takes-IsValid :
      (w : Option Text) (cmd : Text) (e : Option Text) (s : Stream File)
      → IsValid s.registry
      → IsValid (takes config w cmd e s).registry
  takes-IsValid (some other) cmd e s v = v
  takes-IsValid none cmd (some e) s v =
      turn-IsValid config s.connection 0 (command cmd (some e) none) s.registry v
  takes-IsValid none cmd none s v = v

  wake-IsValid :
      (i : Input) (s : Stream File) → IsValid s.registry → IsValid (wake config i s).registry
  unfolding wake
  wake-IsValid (arrives bytes) s v = v
  wake-IsValid (polled now) s v = polls-IsValid now (poll s.reader) s v
  wake-IsValid (closed now) s v = at_end-IsValid now s v
  wake-IsValid (failed now) s v = read_lost-IsValid s.waits_for now read_error s v
  wake-IsValid (commanded cmd e) s v = takes-IsValid s.waits_for cmd e s v

  -- Whatever bytes come, however they are cut, and whatever commands, errors and ends of the stream
  -- come between them, a connection keeps the registry valid.
  pub handle_connection-IsValid :
      (is : List Input) (s : Stream File)
      → IsValid s.registry
      → IsValid (handle_connection config is s).registry
  unfolding handle_connection
  handle_connection-IsValid [] s v = v
  handle_connection-IsValid (i ∷ is) s v = elim (Bool-cases (is_running s.status)) [
    | inl y ↦
        handle_connection-IsValid is (if is_running s.status then wake config i s else s)
          (rw y (wake-IsValid i s v))
    | inr n ↦
        handle_connection-IsValid is (if is_running s.status then wake config i s else s) (rw n v)
  ]
