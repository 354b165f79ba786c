-- ===== src/Tests/Stream.antt =====
-- The theorems on the bytes of a connection, at the small network.
use enjambre_worker.Prelude.{◌≡◌, refl, true, false, List, [], ◌∷◌, ◌++◌, none, All}
use enjambre_worker.Prelude.Text.{codes}
use enjambre_worker.Json.{Value}
use enjambre_worker.Registry.Invariant.{IsValid}
use enjambre_worker.Http.Utf8.{from_utf8, decode_all, next_byte, first_byte}
use enjambre_worker.Reader.{has_line, new_reader}
use enjambre_worker.Reader.Laws.{is_line}
use enjambre_worker.Connection.Stream.{
  Input, arrives, polled, closed, commanded, Stream, new_stream, handle_connection,
}
use enjambre_worker.Connection.Stream.Taking.{arrived, taken, text_of}
use enjambre_worker.Connection.Stream.Framing.{turns, apart, handle_connection-turns}
use enjambre_worker.Connection.Stream.Interrupts.{reading, answered, commanded_in_line}
use enjambre_worker.Connection.Stream.Invariant.{handle_connection-IsValid}
use enjambre_worker.Tests.{two_workers, one_config}
use enjambre_worker.Tests.Registry.{two_workers-IsValid}

abbrev fresh_stream : Stream Value
fresh_stream = new_stream 5 (codes "10.0.0.9:5555") two_workers

-- A heartbeat in two parts, and the start of a line.
abbrev parts : List Input
parts =
    arrives (codes "PING:small:4")
    ∷ polled 9
    ∷ arrives (codes "096:8192\nDISC")
    ∷ polled 10
    ∷ polled 11
    ∷ []

handle_connection-turns_example :
    let (ls, end) = taken parts new_reader in
    (apart one_config (handle_connection one_config parts fresh_stream)
      ≡ apart one_config (turns one_config ls fresh_stream))
    × All (λ x. is_line x.1 ≡ true) ls
    × (has_line end.partial ≡ false)
    × (text_of ls ++ (end.partial ++ end.unread) ≡ arrived parts)
handle_connection-turns_example =
    handle_connection-turns one_config parts fresh_stream (tt, (tt, (tt, (tt, (tt, tt))))) refl refl

-- The command to switch the model comes between the two parts of a heartbeat.
commanded_in_line_example :
    handle_connection one_config
      (arrives (codes "PING:small:4")
        ∷ polled 9
        ∷ commanded (codes "SWITCH_MODEL:m:u:28\n") none
        ∷ arrives (codes "096:8192" ++ b'\n' ∷ [])
        ∷ polled 10
        ∷ [])
      (reading fresh_stream)
    ≡ answered one_config
        (codes "SWITCH_MODEL:m:u:28\n")
        (from_utf8 (codes "096:8192" ++ b'\n' ∷ []))
        fresh_stream
commanded_in_line_example =
    commanded_in_line one_config 9 10 (codes "SWITCH_MODEL:m:u:28\n") (codes "PING:small:4")
      (codes "096:8192") fresh_stream refl refl

handle_connection-IsValid_example :
    IsValid
      (handle_connection one_config
        (arrives (codes "DISCONNECT:small\nPING") ∷ polled 9 ∷ closed 10 ∷ [])
        fresh_stream).registry
handle_connection-IsValid_example =
    handle_connection-IsValid one_config
      (arrives (codes "DISCONNECT:small\nPING") ∷ polled 9 ∷ closed 10 ∷ []) fresh_stream
      two_workers-IsValid

-- The line is cut inside of a letter of two bytes.
cut_letter : from_utf8 (0xb1 ∷ (codes "o:4096:8192" ++ b'\n' ∷ [])) ≡ none
unfolding from_utf8 decode_all next_byte first_byte
cut_letter = refl
