-- ===== src/Http.antt =====
-- The relay's raw HTTP response as `chat_completions` of src/api.rs takes it apart: reading up to
-- the end of the headers, the status code and the content type.
pub mod Utf8
pub mod Chunks
use enjambre_worker.Prelude.{
  ℕ, ◌+◌, ◌-◌, Bool, true, false, ◌&&◌, List, [], ◌∷◌, ◌++◌, Option, none, some, ltb, leb, ◌==◌,
  is_empty, is_some, if◌then◌else◌, ◌>>=◌, map_option, map, unwrap_or, u16_mod,
}
use enjambre_worker.Prelude.Text.{Text, codes, same_text, is_whitespace, trim}
use enjambre_worker.Prelude.Decimal.{parse_uint}
use Utf8.{from_utf8_lossy}

-- One read of the stream: some bytes, none at its end, or an error.
pub data Read : Type 0 where
  chunk : Text → Read
  read_failed : Text → Read

-- Whether a text starts with the end of the headers.
abbrev pub at_end : Text → Bool
at_end (b1 ∷ b2 ∷ b3 ∷ b4 ∷ s) = (b1 == b'\r') && (b2 == b'\n') && (b3 == b'\r') && (b4 == b'\n')
at_end _ = false

abbrev pub drop4 : Text → Text
drop4 (b1 ∷ b2 ∷ b3 ∷ b4 ∷ s) = s
drop4 _ = []

-- What stands before the first end of the headers (`windows(4).position`) and behind it.
unfoldable pub cut_headers : Text → Option (Text × Text)
cut_headers [] = none
cut_headers (c ∷ s) =
    let later = cut_headers s in
    if at_end (c ∷ s) then some ([], drop4 (c ∷ s)) else map_option (λ p. (c ∷ p.0, p.1)) later

-- `relay_buf.windows(4).any(|w| w == b"\r\n\r\n")`
abbrev pub has_headers : Text → Bool
has_headers buf = is_some (cut_headers buf)

-- What the loop ends with, and the reads that are left.
pub data Buffer : Type 0 where
  filled : Text → List Read → Buffer
  failed : Text → Buffer

-- The reading loop; the list ends where the stream does.
unfoldable pub read_headers : List Read → Text → Buffer
read_headers [] buf = filled buf []
read_headers (read_failed e ∷ reads) buf = failed e
read_headers (chunk bytes ∷ reads) buf =
    let rest = read_headers reads (buf ++ bytes) in
    if is_empty bytes
    then filled buf reads
    else if has_headers (buf ++ bytes)
    then filled (buf ++ bytes) reads
    else rest

-- `text.split("\r\n")`
unfoldable pub split_crlf : Text → List Text
split_crlf [] = [] ∷ []
split_crlf (c ∷ []) = (c ∷ []) ∷ []
split_crlf (c ∷ d ∷ s) =
    let rest = split_crlf s in
    let on = split_crlf (d ∷ s) in
    if (c == b'\r') && (d == b'\n')
    then [] ∷ rest
    else elim on [ [] ↦ (c ∷ []) ∷ [] | p ∷ ps ↦ (c ∷ p) ∷ ps ]

-- A word in front of the words behind it, if there is one.
abbrev pub add_word : Text → List Text → List Text
add_word [] ws = ws
add_word (c ∷ w) ws = (c ∷ w) ∷ ws

-- `text.split_whitespace()`, with the word that has been begun.
unfoldable pub words_from : Text → Text → List Text
unfolding is_whitespace
words_from word [] = add_word word []
words_from word (c ∷ s) =
    let cut = add_word word (words_from [] s) in
    let on = words_from (word ++ c ∷ []) s in if is_whitespace c then cut else on

abbrev pub second : List Text → Option Text
second (a ∷ b ∷ ps) = some b
second _ = none

-- The status code of a status line; 502 where there is none.
unfoldable pub status_of : Text → ℕ
unfolding words_from
status_of status_line =
    unwrap_or (second (words_from [] status_line) >>= parse_uint (u16_mod - 1)) 502

-- `line.split_once(':')`
unfoldable pub split_once : ℕ → Text → Option (Text × Text)
split_once sep [] = none
split_once sep (c ∷ s) =
    let later = split_once sep s in
    if c == sep then some ([], s) else map_option (λ p. (c ∷ p.0, p.1)) later

-- Lower case; no character outside ASCII has one of the letters of `content-type` for lower case.
unfoldable pub to_lowercase : Text → Text
to_lowercase = map λ c. if leb b'A' c && leb c b'Z' then c + 32 else c

-- The value of the last `content-type` among the header lines, or the one so far.
unfoldable pub content_type_of : List Text → Text → Text
unfolding split_once to_lowercase
content_type_of [] found = found
content_type_of (line ∷ lines) found = content_type_of lines (elim (split_once b':' line) [
  | none ↦ found
  | some (k, v) ↦ if same_text (to_lowercase (trim k)) (codes "content-type") then trim v else found
])

pub record Head : Type 0 where
  pub status_code : ℕ
  pub content_type : Text

abbrev head_of_lines : List Text → Head
head_of_lines [] = record {
  status_code = status_of (codes "HTTP/1.1 502 Bad Gateway");
  content_type = codes "text/event-stream";
}
head_of_lines (status_line ∷ lines) = record {
  status_code = status_of status_line;
  content_type = content_type_of lines (codes "text/event-stream");
}

unfoldable pub parse_head : Text → Head
unfolding split_crlf status_of content_type_of from_utf8_lossy
parse_head header_block = head_of_lines (split_crlf (from_utf8_lossy header_block))

-- `StatusCode::from_u16(code).unwrap_or(BAD_GATEWAY)`
abbrev pub to_status : ℕ → ℕ
to_status code = if leb 100 code && ltb code 1000 then code else 502
