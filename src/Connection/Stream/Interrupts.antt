-- ===== src/Connection/Stream/Interrupts.antt =====
-- What a command on the channel does to the line that is being read.
use enjambre_worker.Prelude.{
  Option, ℕ, ◌≡◌, refl, true, false, [], ◌∷◌, ◌++◌, append-nil, none, some, arith,
}
use enjambre_worker.Prelude.Text.{Text, codes, trim}
use enjambre_worker.Http.Utf8.{from_utf8}
use enjambre_worker.Registry.{MasterConfig, ok, err}
use enjambre_worker.Connection.{command, Status, turn, relay_command, leave}
use enjambre_worker.Connection.Stream.{
  arrives, polled, commanded, Stream, absorb, wake, handle_connection,
}
use enjambre_worker.Reader.{read_line, has_line, new_reader, poll}

poll_pending :
    (head : Text)
    → has_line head ≡ false
    → poll (record { partial = []; unread = head }) ≡ (none, record { partial = head; unread = [] })
unfolding poll
poll_pending head h = rw h refl

has_line_end : (tail : Text) → has_line (tail ++ b'\n' ∷ []) ≡ true
has_line_end [] = refl
has_line_end (c ∷ tail) = ground (arith, has_line_end tail)

read_line_end :
    (tail : Text)
    → has_line tail ≡ false
    → read_line (tail ++ b'\n' ∷ []) ≡ (tail ++ b'\n' ∷ [], [])
unfolding read_line
read_line_end [] h = refl
read_line_end (c ∷ tail) h = ground (arith, h, read_line_end tail)

poll_line :
    (tail : Text)
    → has_line tail ≡ false
    → poll (record { partial = []; unread = tail ++ b'\n' ∷ [] })
      ≡ (some (tail ++ b'\n' ∷ []), new_reader)
unfolding poll
poll_line tail h = rw (has_line_end tail, read_line_end tail h) refl

-- A connection that reads, with nothing read yet.
abbrev pub reading : {File : Type 0} → Stream File → Stream File
reading s = record s { status = Status.running; waits_for = none; reader = new_reader }

module _ {File : Type 0} (config : MasterConfig) where
  -- What the bytes of an answer make of a connection that has sent a command, as text or as none.
  abbrev pub answered : Text → Option Text → Stream File → Stream File
  answered cmd (some text) s = record (reading s) {
    output = s.output ++ cmd ∷ [];
    responses = s.responses ++ ok (trim text) ∷ [];
  }
  answered cmd none s = record (reading s) {
    registry = leave s.connection s.registry;
    output = s.output ++ cmd ∷ [];
    responses = s.responses ++ err (codes "Conexión perdida durante cambio de modelo") ∷ [];
    status = Status.finished;
  }

  answered_lem :
      (cmd : Text) (later : ℕ) (answer : Option Text) (s : Stream File)
      → absorb config
          (turn config s.connection later (command cmd none answer) s.registry)
          []
          new_reader
          (record (reading s) { waits_for = some cmd; output = s.output ++ cmd ∷ [] })
        ≡ answered cmd answer s
  unfolding turn relay_command
  answered_lem cmd later (some text) s = rw append-nil refl
  answered_lem cmd later none s = rw append-nil refl

  -- A command that comes while a line is being read, and that can be written: the part of the line
  -- that has been read is lost, and the line is not handled, whatever it is. The rest of it, or
  -- the whole line where nothing of it has been read, is given to the sender of the command as the
  -- worker's answer, and the registry and the connection stay as they were; but where it is not
  -- UTF-8, as where the line is cut inside of a character, the sender is told that the connection
  -- is lost, the worker is unregistered and the connection ends.
  pub commanded_in_line :
      (now later : ℕ) (cmd head tail : Text) (s : Stream File)
      → has_line head ≡ false
      → has_line tail ≡ false
      → handle_connection config
          (arrives head
            ∷ polled now
            ∷ commanded cmd none
            ∷ arrives (tail ++ b'\n' ∷ [])
            ∷ polled later
            ∷ [])
          (reading s)
        ≡ answered cmd (from_utf8 (tail ++ b'\n' ∷ [])) s
  unfolding handle_connection wake
  commanded_in_line now later cmd head tail s h t =
      let first = poll_pending head h in
      let second = poll_line tail t in
      rw first (rw second (answered_lem cmd later (from_utf8 (tail ++ b'\n' ∷ [])) s))
