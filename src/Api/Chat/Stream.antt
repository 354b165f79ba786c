-- ===== src/Api/Chat/Stream.antt =====
-- That the client of `chat_completions` of src/api.rs gets what the relay sends.
use enjambre_worker.Prelude.{
  ◌≡◌, refl, List, [], ◌∷◌, ◌++◌, Option, none, some, map, arith, ap, sym, ◌∙◌, Option-cases, inl,
  inr,
}
use enjambre_worker.Prelude.Text.{Text}
use enjambre_worker.Prelude.Maps.{HashMap}
use enjambre_worker.Storage.{Storage}
use enjambre_worker.Json.{Value}
use enjambre_worker.Keys.{ApiKey}
use enjambre_worker.Http.{Read, chunk, read_failed, cut_headers, parse_head, to_status}
use enjambre_worker.Http.Chunks.{whole, NonEmpty, read_headers_lem}
use enjambre_worker.Api.{ApiState}
use enjambre_worker.Api.Chat.{
  connected, response, forward, body_stream, respond, settle, answer_head, answer_buffer,
  answer_written, answer_connected, answer,
}

-- The bytes that a stream of reads brings.
abbrev pub bytes_of : List Read → Text
bytes_of [] = []
bytes_of (chunk bytes ∷ reads) = bytes ++ bytes_of reads
bytes_of (read_failed e ∷ reads) = []

bytes_of-forward :
    (cs : List Text) → NonEmpty cs → bytes_of (forward (map (λ c. chunk c) cs)) ≡ whole cs
unfolding forward
bytes_of-forward [] ne = refl
bytes_of-forward (c ∷ cs) (n, ne) = ground (arith, n, bytes_of-forward cs ne)

bytes_of-body_stream :
    (l : Text) (cs : List Text)
    → NonEmpty cs
    → bytes_of (body_stream l (map (λ c. chunk c) cs)) ≡ l ++ whole cs
unfolding body_stream
bytes_of-body_stream [] cs ne = bytes_of-forward cs ne
bytes_of-body_stream (b ∷ l) cs ne = ap (λ t. (b ∷ l) ++ t) (bytes_of-forward cs ne)

module _ (to_str : Text → Option Text) (from_slice : Text → Option Value)
    (header_value : Text → Option Text) (ks : Storage (HashMap ApiKey)) (rs : Storage Value) where
  -- However the relay's answer is cut into reads: where it has an end of headers and a content type
  -- that is a header's value, the client gets the status and the content type of its headers, and
  -- exactly the bytes behind them.
  pub answer-whole :
      (key : ApiKey) (cs : List Text) (h l v : Text) (state : ApiState ks.File rs.File)
      → NonEmpty cs
      → cut_headers (whole cs) ≡ some (h, l)
      → header_value (parse_head h).content_type ≡ some v
      → (body : List Read) × ((answer to_str from_slice header_value ks rs key
            (record { connect = connected; write_error = none; reads = map (λ c. chunk c) cs })
            state).1
          ≡ response (record {
            status = to_status (parse_head h).status_code;
            content_type = v;
            body = body;
          }))
        × (bytes_of body ≡ l)
  unfolding answer answer_connected answer_written answer_buffer answer_head settle
  answer-whole key cs h l v state ne e hv =
      let (got, rest, r, a, c, nr) = read_headers_lem cs ne in
      elim (Option-cases (cut_headers got)) [
        | inl n ↦ ground (arith, c, n, e)
        | inr ((h', l'), n) ↦
            let same : (h' ≡ h) × (l' ++ whole rest ≡ l) = ground (arith, c, n, e) in
            let hv' : header_value (parse_head h').content_type ≡ some v = rw same.0 hv in
            (
              body_stream l' (map (λ c. chunk c) rest),
              rw (r, n, respond, hv') (rw (sym same.0) refl),
              bytes_of-body_stream l' rest nr ∙ same.1,
            )
      ]
