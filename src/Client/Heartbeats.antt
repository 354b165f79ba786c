-- ===== src/Client/Heartbeats.antt =====
-- The heartbeats of `start_master_connection` of src/client.rs over what comes on the connection, and
-- its connections one after the other.
pub mod Laws
pub mod Late
use enjambre_worker.Prelude.{
  ℕ, Bool, true, false, List, [], ◌∷◌, ◌++◌, Option, none, some, ◌||◌, ◌&&◌, not, unwrap_or,
  is_empty, if◌then◌else◌,
}
use enjambre_worker.Prelude.Text.{Text, codes, trim, join, starts_with, strip_prefix}
use enjambre_worker.Reader.{read_line, has_line}
use enjambre_worker.Client.{
  ModelConfig, Attempt, handshake, Signal, signal, attempts, News, read_news,
}

-- What comes of a heartbeat: the `PING` cannot be written, the read of the answer fails, as where its
-- bytes are not UTF-8, or text comes, up to the end of the 100 ms behind the first line (`heard`) or
-- of the stream (`ended`). A second line that is not UTF-8 is dropped as one that is no report.
pub data Beat : Type 0 where
  unsent silent : Beat
  heard ended : (arrived : Text) → Beat

-- What a connection has read too much, the credits that are kept and the slaves that have been passed
-- on, and whether the heartbeats go on.
pub record Session : Type 0 where
  pub unread : Text
  pub credits : ℕ
  pub slaves : List Text
  pub heartbeat_ok : Bool

-- The second line, if it is there in time; a part of it is lost with the read that is given up, and
-- is the line where the stream ends behind it.
unfoldable pub read_extra : Bool → Text → Option Text × Text
read_extra ends rest =
    let (extra, more) = read_line rest in
    if has_line rest || (ends && not (is_empty rest)) then (some extra, more) else (none, [])

-- Only behind a `PONG` is there a second read.
abbrev pub extra_of : Bool → Text → Text → Option Text × Text
extra_of ends response rest =
    if starts_with (codes "PONG") (trim response) then read_extra ends rest else (none, rest)

abbrev pub sent_of : Option Text → List Text
sent_of none = []
sent_of (some slaves) = slaves ∷ []

abbrev pub settle : News → Text → Session → Session
settle news more s = record {
  unread = more;
  credits = unwrap_or news.credits s.credits;
  slaves = s.slaves ++ sent_of news.slaves;
  heartbeat_ok = true;
}

abbrev pub digest : Text → Option Text × Text → Session → Session
digest response (extra, more) s = settle (read_news response extra) more s

abbrev pub hear : Bool → Text × Text → Session → Session
hear ends (response, rest) s = digest response (extra_of ends response rest) s

unfoldable pub heartbeat : Beat → Session → Session
heartbeat unsent s = record s { heartbeat_ok = false }
heartbeat silent s = record s { heartbeat_ok = false }
heartbeat (heard arrived) s = hear false (read_line (s.unread ++ arrived)) s
heartbeat (ended arrived) s =
    let written = s.unread ++ arrived in
    if is_empty written then record s { heartbeat_ok = false } else hear true (read_line written) s

-- `while heartbeat_ok`
unfoldable pub heartbeats : List Beat → Session → Session
unfolding heartbeat
heartbeats [] s = s
heartbeats (b ∷ bs) s = heartbeats bs (if s.heartbeat_ok then heartbeat b s else s)

-- The worker's state over its connections.
pub record Worker : Type 0 where
  pub signalled : Signal
  pub credits_tracker : ℕ
  pub slaves_sent : List Text

-- The heartbeats of a new connection.
unfoldable pub connected : List Beat → Worker → Worker
unfolding heartbeats
connected bs w =
    let s = heartbeats bs (record {
      unread = [];
      credits = w.credits_tracker;
      slaves = w.slaves_sent;
      heartbeat_ok = true;
    }) in
    record w { credits_tracker = s.credits; slaves_sent = s.slaves }

abbrev pub greeted : Option ModelConfig → List Beat → Worker → Worker
greeted none bs w = w
greeted (some config) bs w = connected bs (record w { signalled = signal config w.signalled })

-- The rounds of the outer loop, each with what comes of its heartbeats.
unfoldable pub start_master_connection : Text → List (Attempt × List Beat) → Worker → Worker
unfolding connected
start_master_connection worker_id [] w = w
start_master_connection worker_id ((a, bs) ∷ rounds) w =
    start_master_connection worker_id rounds (greeted (handshake worker_id a) bs w)
