-- ===== src/Connection/Stream/Framing.antt =====
-- How the bytes of a connection are cut into the lines that it handles.
use enjambre_worker.Prelude.{
  ℕ, ◌≡◌, refl, ap, sym, ◌∙◌, true, false, List, [], ◌∷◌, ◌++◌, Option, none, some, All,
  if◌then◌else◌, arith, Bool-cases, inl, inr,
}
use enjambre_worker.Prelude.Text.{Text}
use enjambre_worker.Registry.{MasterConfig}
use enjambre_worker.Connection.{turn}
use enjambre_worker.Connection.Stream.{
  Input, arrives, polled, closed, failed, commanded, Stream, is_running, read_event, absorb, wake,
  took, polls, handle_connection,
}
use enjambre_worker.Reader.{has_line, Reader, new_reader, arrive, poll}
use enjambre_worker.Reader.Laws.{is_line}
use enjambre_worker.Connection.Stream.Taking.{
  Quiet, arrived, timed, taken, text_of, taken_whole, taken_lines,
}

module _ {File : Type 0} (config : MasterConfig) where
  -- The turns on lines, one after the other, while the task goes on.
  abbrev pub turns : List (ℕ × Text) → Stream File → Stream File
  turns [] s = s
  turns ((now, l) ∷ ls) s = turns ls (
      if is_running s.status
      then (let t = turn config s.connection now (read_event l) s.registry in
          absorb config t t.output s.reader s)
      else s)

  -- All but the reader.
  abbrev pub apart : Stream File → Stream File
  apart s = record s { reader = new_reader }

  abbrev after_line : ℕ → Text → Reader → Stream File → Stream File
  after_line now l r s =
      let t = turn config s.connection now (read_event l) s.registry in absorb config t t.output r s

  turns_running :
      (now : ℕ) (l : Text) (ls : List (ℕ × Text)) (s : Stream File)
      → is_running s.status ≡ true
      → turns ((now, l) ∷ ls) s ≡ turns ls (after_line now l s.reader s)
  turns_running now l ls s y = ap (λ b. turns ls (if b then after_line now l s.reader s else s)) y

  turns_stopped :
      (ls : List (ℕ × Text)) (s : Stream File) → is_running s.status ≡ false → turns ls s ≡ s
  turns_stopped [] s n = refl
  turns_stopped ((now, l) ∷ ls) s n =
      ap (λ b. turns ls (if b then after_line now l s.reader s else s)) n ∙ turns_stopped ls s n

  handle_connection_running :
      (i : Input) (is : List Input) (s : Stream File)
      → is_running s.status ≡ true
      → handle_connection config (i ∷ is) s ≡ handle_connection config is (wake config i s)
  unfolding handle_connection
  handle_connection_running i is s y =
      ap (λ b. handle_connection config is (if b then wake config i s else s)) y

  handle_connection_stopped :
      (is : List Input) (s : Stream File)
      → is_running s.status ≡ false
      → handle_connection config is s ≡ s
  unfolding handle_connection
  handle_connection_stopped [] s n = refl
  handle_connection_stopped (i ∷ is) s n =
      ap (λ b. handle_connection config is (if b then wake config i s else s)) n
      ∙ handle_connection_stopped is s n

  turns-reader :
      (ls : List (ℕ × Text)) (s : Stream File) (r : Reader)
      → apart (turns ls (record s { reader = r })) ≡ apart (turns ls s)
  turns-reader [] s r = refl
  turns-reader ((now, l) ∷ ls) s r = elim (Bool-cases (is_running s.status)) [
    | inl y ↦
        ap apart (turns_running now l ls (record s { reader = r }) y)
        ∙ turns-reader ls (after_line now l s.reader s) r
        ∙ ap apart (sym (turns_running now l ls s y))
    | inr n ↦
        ap apart (turns_stopped ((now, l) ∷ ls) (record s { reader = r }) n)
        ∙ ap apart (sym (turns_stopped ((now, l) ∷ ls) s n))
  ]

  took_line :
      (now : ℕ) (l : Text) (r : Reader) (s : Stream File)
      → s.waits_for ≡ none
      → took config now l r s ≡ after_line now l r s
  took_line now l r s w = ground (arith, w)

  framing_stopped :
      (is : List Input) (ls : List (ℕ × Text)) (s : Stream File)
      → is_running s.status ≡ false
      → apart (handle_connection config is s) ≡ apart (turns ls s)
  framing_stopped is ls s n =
      ap apart (handle_connection_stopped is s n) ∙ ap apart (sym (turns_stopped ls s n))

  framing :
      (is : List Input) (s : Stream File)
      → All Quiet is
      → s.waits_for ≡ none
      → apart (handle_connection config is s) ≡ apart (turns (taken is s.reader).0 s)
  unfolding wake
  framing [] s q w = unfold handle_connection in refl
  framing (arrives bytes ∷ is) s (q, qs) w = elim (Bool-cases (is_running s.status)) [
    | inl y ↦
        let t : Stream File = record s { reader = arrive bytes s.reader } in
        ap apart (handle_connection_running (arrives bytes) is s y)
        ∙ framing is t qs w
        ∙ turns-reader (taken is t.reader).0 s t.reader
    | inr n ↦ framing_stopped (arrives bytes ∷ is) (taken is (arrive bytes s.reader)).0 s n
  ]
  framing (polled now ∷ is) s (q, qs) w = elim (Bool-cases (is_running s.status)) [
    | inl y ↦
        ap apart (handle_connection_running (polled now) is s y)
        ∙ by_poll y (poll s.reader) (λ t. framing is t qs)
    | inr n ↦ framing_stopped (polled now ∷ is) (taken (polled now ∷ is) s.reader).0 s n
  ]
    where
      by_poll :
          is_running s.status ≡ true
          → (p : Option Text × Reader)
          → ((t : Stream File)
              → t.waits_for ≡ none
              → apart (handle_connection config is t) ≡ apart (turns (taken is t.reader).0 t))
          → apart (handle_connection config is (polls config now p s))
            ≡ apart (turns (timed now p.0 ++ (taken is p.1).0) s)
      by_poll y (none, r) rest = rest (record s { reader = r }) w ∙ turns-reader (taken is r).0 s r
      by_poll y (some l, r) rest =
          ap (λ t. apart (handle_connection config is t)) (took_line now l r s w)
          ∙ rest (after_line now l r s) refl
          ∙ turns-reader (taken is r).0 (after_line now l s.reader s) r
          ∙ ap apart (sym (turns_running now l (taken is r).0 s y))
  framing (closed now ∷ is) s (q, qs) w = absurd q
  framing (failed now ∷ is) s (q, qs) w = absurd q
  framing (commanded cmd e ∷ is) s (q, qs) w = absurd q

  -- However the bytes of a worker come in and are polled, as long as no command is taken and the
  -- stream goes on, a connection without a pending read does what the turns on its lines do, one
  -- after the other, where a line that is not UTF-8 is an error of the read; these are lines, each
  -- with its end, and put together, with the bytes behind the last of them, they are the bytes
  -- that have come.
  pub handle_connection-turns :
      (is : List Input) (s : Stream File)
      → All Quiet is
      → s.waits_for ≡ none
      → s.reader ≡ new_reader
      → let (ls, end) = taken is new_reader in
        (apart (handle_connection config is s) ≡ apart (turns ls s))
        × All (λ x. is_line x.1 ≡ true) ls
        × (has_line end.partial ≡ false)
        × (text_of ls ++ (end.partial ++ end.unread) ≡ arrived is)
  handle_connection-turns is s q w e =
      let (lines, clear) = taken_lines is new_reader q refl in
      (
        framing is s q w ∙ ap (λ r. apart (turns (taken is r).0 s)) e,
        lines,
        clear,
        taken_whole is new_reader q,
      )
