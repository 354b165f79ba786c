-- ===== src/Reader.antt =====
-- What the program uses of tokio's `BufReader` and `read_line`: the bytes that have come, and what a
-- read that has not come to a line end yet has taken of them. It gives the bytes of a line; what makes
-- of them a text, or an error, is `read_event` of Connection.Stream.
pub mod Laws
use enjambre_worker.Prelude.{
  Bool, List, [], ◌∷◌, ◌++◌, Option, none, some, any, ◌==◌, if◌then◌else◌,
}
use enjambre_worker.Prelude.Text.{Text}

-- The text up to the line end and with it, and what follows.
unfoldable pub read_line : Text → Text × Text
read_line [] = ([], [])
read_line (c ∷ s) = let (l, rest) = read_line s in if c == b'\n' then (c ∷ [], s) else (c ∷ l, rest)

abbrev pub has_line : Text → Bool
has_line s = any (λ c. c == b'\n') s

pub record Reader : Type 0 where
  pub partial : Text
  pub unread : Text

abbrev pub new_reader : Reader
new_reader = record { partial = []; unread = [] }

abbrev pub arrive : Text → Reader → Reader
arrive bytes r = record r { unread = r.unread ++ bytes }

-- A read that is polled takes what has come, up to a line end, with which it is done.
unfoldable pub poll : Reader → Option Text × Reader
poll r =
    let (l, rest) = read_line r.unread in
    if has_line r.unread
    then (some (r.partial ++ l), record { partial = []; unread = rest })
    else (none, record { partial = r.partial ++ r.unread; unread = [] })

-- A read that is dropped loses what it has taken.
abbrev pub cancel : Reader → Reader
cancel r = record r { partial = [] }
