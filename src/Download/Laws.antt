-- ===== src/Download/Laws.antt =====
-- What a download leaves on the disk, and that both ways of downloading leave the same.
use enjambre_worker.Prelude.{
  ℕ, ◌≡◌, ◌≢◌, ◌⊎◌, refl, ◌∙◌, inl, inr, sym, ap, Bool, true, false, not, ◌&&◌, ◌||◌, List, [], ◌∷◌,
  ◌++◌, append_assoc, append-nil, none, some, any, length, length-append, ◌==◌, if◌then◌else◌,
  arith, Bool-cases,
}
use enjambre_worker.Prelude.Text.{Text, codes, same_text, same_text_iff}
use enjambre_worker.Prelude.Maps.{get, insert, remove, get-insert, get-insert_ne, get-remove}
use enjambre_worker.Files.{
  Disk, exists, write_file, is_separator, without_extension, with_extension,
}
use enjambre_worker.Download.{
  Outcome, ok, err, Chunk, received, lost, unwritten, Attempt, receive, tmp_path, finish,
  download_model, whole, done, store_body, ensure_model,
}

abbrev extension : Text
extension = codes ".gguf.tmp"

append-ne : (p : Text) (c : ℕ) (s : Text) → p ++ c ∷ s ≢ p
append-ne p c s e = omega (arith, ap length e, length-append p (c ∷ s))

abbrev is_mark : ℕ → Bool
is_mark k = is_separator k || (k == b'.')

abbrev tail : Text → Text
tail [] = []
tail (c ∷ p) = p

at_dot :
    (first : Bool) (c : ℕ) (p : Text)
    → ((c == b'.') && not (any is_mark p)) ≡ true
    → (if first then c ∷ p else []) ++ extension ≢ c ∷ p
at_dot true c p y e = append-ne (c ∷ p) b'.' (codes "gguf.tmp") e
at_dot false c p y e =
    let rest : p ≡ codes "gguf.tmp" = sym (ap tail e) in
    let marked : any is_mark p ≡ true = rw rest refl in ground (arith, marked)

without_extension-ne : (first : Bool) (p : Text) → without_extension first p ++ extension ≢ p
unfolding without_extension
without_extension-ne first [] e = cc
without_extension-ne first (c ∷ p) e = elim (Bool-cases ((c == b'.') && not (any is_mark p))) [
  | inl y ↦ at_dot first c p y (rw y at e)
  | inr n ↦ without_extension-ne (is_separator c) p (ap tail (rw n at e))
]

tmp_path-ne : (dest : Text) → tmp_path dest ≢ dest
unfolding with_extension
tmp_path-ne dest = without_extension-ne true dest

-- Whether the body comes to its end, and what has come.
abbrev pub complete : List Chunk → Bool
complete [] = true
complete (received bytes ∷ cs) = complete cs
complete (_ ∷ cs) = false

abbrev pub content : List Chunk → Text
content [] = []
content (received bytes ∷ cs) = bytes ++ content cs
content (_ ∷ cs) = []

abbrev pub is_ok : Outcome → Bool
is_ok ok = true
is_ok (err e) = false

receive-complete :
    (cs : List Chunk) (file : Text)
    → complete cs ≡ true
    → receive cs file ≡ (file ++ content cs, ok)
unfolding receive
receive-complete [] file e = rw append-nil refl
receive-complete (received bytes ∷ cs) file e =
    receive-complete cs (file ++ bytes) e ∙ ap (λ t. (t, ok)) (append_assoc file bytes (content cs))
receive-complete (lost ∷ cs) file e = cc
receive-complete (unwritten b w ∷ cs) file e = cc

receive_broken :
    (cs : List Chunk) (file : Text) → complete cs ≡ false → is_ok (receive cs file).1 ≡ false
unfolding receive
receive_broken [] file e = cc
receive_broken (received bytes ∷ cs) file e = receive_broken cs (file ++ bytes) e
receive_broken (lost ∷ cs) file e = refl
receive_broken (unwritten b w ∷ cs) file e = refl

-- What the download has done to the file at `p`.
abbrev pub Downloaded : Text → Attempt → Disk → Text → Outcome × Disk → Type 0
Downloaded dest a d p (err e, t) =
    (exists dest d ≡ false)
    × (get dest t.files ≡ none)
    × ((p ≡ tmp_path dest) ⊎ (get p t.files ≡ get p d.files))
Downloaded dest a d p (ok, t) =
    if exists dest d
    then t ≡ d
    else (complete a.chunks ≡ true)
      × (get p t.files ≡ (
          if same_text dest p
          then some (content a.chunks)
          else if same_text (tmp_path dest) p
          then none
          else get p d.files))

absent : (dest : Text) (d : Disk) → exists dest d ≡ false → get dest d.files ≡ none
absent dest d e = ground arith

unchanged-Downloaded :
    (dest e : Text) (a : Attempt) (d : Disk) (p : Text)
    → exists dest d ≡ false
    → Downloaded dest a d p (err e, d)
unchanged-Downloaded dest e a d p none_there = (none_there, absent dest d none_there, inr refl)

written-Downloaded :
    (dest e c : Text) (a : Attempt) (d : Disk) (p : Text)
    → exists dest d ≡ false
    → Downloaded dest a d p (err e, write_file (tmp_path dest) c d)
written-Downloaded dest e c a d p none_there = (
  none_there,
  get-insert_ne (tmp_path dest) dest c d.files (tmp_path-ne dest) ∙ absent dest d none_there,
  elim (Bool-cases (same_text (tmp_path dest) p)) [
    | inl y ↦ inl (sym ((same_text_iff (tmp_path dest) p).0 y))
    | inr n ↦ inr (rw (get-insert (tmp_path dest) p c d.files, n) refl)
  ],
)

broken-Downloaded :
    (dest : Text) (a : Attempt) (d : Disk) (p : Text) (r : Text × Outcome)
    → exists dest d ≡ false
    → is_ok r.1 ≡ false
    → Downloaded dest a d p (finish dest a.renames r d)
unfolding finish
broken-Downloaded dest a d p (c, ok) none_there b = cc
broken-Downloaded dest a d p (c, err e) none_there b = written-Downloaded dest e c a d p none_there

renamed :
    (dest c : Text) (d : Disk) (p : Text)
    → get p (insert dest c (remove (tmp_path dest) (insert (tmp_path dest) c d.files))) ≡ (
        if same_text dest p
        then some c
        else if same_text (tmp_path dest) p
        then none
        else get p d.files)
renamed dest c d p =
    let tmp = tmp_path dest in
    ground (
      arith,
      get-insert dest p c (remove tmp (insert tmp c d.files)),
      get-remove tmp p (insert tmp c d.files),
      get-insert tmp p c d.files,
    )

finish-Downloaded :
    (dest : Text) (a : Attempt) (d : Disk) (p : Text)
    → exists dest d ≡ false
    → Downloaded dest a d p (finish dest a.renames (receive a.chunks []) d)
unfolding finish
finish-Downloaded dest a d p e = elim (Bool-cases (complete a.chunks)) [
  | inl y ↦ rw (receive-complete a.chunks [] y) (elim (Bool-cases a.renames) [
    | inl z ↦ rw (z, e) (y, renamed dest (content a.chunks) d p)
    | inr z ↦
        rw z (
          written-Downloaded dest (codes "Error moviendo archivo final") (content a.chunks) a d p e)
  ])
  | inr n ↦ broken-Downloaded dest a d p (receive a.chunks []) e (receive_broken a.chunks [] n)
]

download_model-Downloaded :
    (dest : Text) (a : Attempt) (d : Disk) (p : Text)
    → Downloaded dest a d p (download_model dest a d)
unfolding download_model
download_model-Downloaded dest a d p = elim (Bool-cases (exists dest d)) [
  | inl y ↦ rw (y, y) refl
  | inr n ↦ rw n (elim (Bool-cases a.client_builds) [
    | inl b ↦ rw b (elim (Bool-cases a.sends) [
      | inl c ↦ rw c (elim (Bool-cases a.creates) [
        | inl f ↦ rw f (finish-Downloaded dest a d p n)
        | inr f ↦ rw f (unchanged-Downloaded dest (codes "Error creando archivo temporal") a d p n)
      ])
      | inr c ↦ rw c (unchanged-Downloaded dest (codes "Error en descarga") a d p n)
    ])
    | inr b ↦ rw b (unchanged-Downloaded dest (codes "Error creando cliente HTTP") a d p n)
  ])
]

-- Nothing fails.
abbrev pub goes_well : Attempt → Bool
goes_well a = a.client_builds && a.sends && a.creates && complete a.chunks && a.renames

finish-is_ok :
    (dest : Text) (renames : Bool) (cs : List Chunk) (d : Disk)
    → is_ok (finish dest renames (receive cs []) d).0 ≡ (complete cs && renames)
unfolding finish
finish-is_ok dest renames cs d = elim (Bool-cases (complete cs)) [
  | inl y ↦ rw (receive-complete cs [] y, y) (ground arith)
  | inr n ↦ rw n (broken (receive cs []) (receive_broken cs [] n))
]
  where
    broken : (r : Text × Outcome) → is_ok r.1 ≡ false → is_ok (finish dest renames r d).0 ≡ false
    broken (c, ok) b = cc
    broken (c, err e) b = refl

-- A download succeeds exactly if the model is there already or nothing fails, whatever the status of
-- the response. Where the model is there it changes nothing. Where it is not, a success leaves
-- there the whole body and removes the temporary file, a failure leaves no file there, and neither
-- changes another file than the temporary one.
pub download_model_lem :
    (dest : Text) (a : Attempt) (d : Disk) (p : Text)
    → (is_ok (download_model dest a d).0 ≡ (exists dest d || goes_well a))
      × Downloaded dest a d p (download_model dest a d)
unfolding download_model
download_model_lem dest a d p =
    (ground (arith, finish-is_ok dest a.renames a.chunks d), download_model-Downloaded dest a d p)

-- Where the body comes as a whole and the temporary file can be written, the download in chunks and
-- the one at once leave the same disk, and one succeeds exactly if the other does.
ensure_model-download_model :
    (dest : Text) (a : Attempt) (d : Disk)
    → complete a.chunks ≡ true
    → a.creates ≡ true
    → let one = download_model dest a d in
      let other = ensure_model dest a (whole (content a.chunks)) done d in
      (is_ok one.0 ≡ is_ok other.0) × (one.1 ≡ other.1)
unfolding download_model ensure_model finish store_body
ensure_model-download_model dest a d y c = ground (arith, receive-complete a.chunks [] y)
