-- ===== src/Download.antt =====
-- The download of the model: `download_model` of src/client.rs, in chunks, and `ensure_model` of
-- src/download.rs, at once.
pub mod Laws
use enjambre_worker.Prelude.{
  ℕ, Bool, true, false, List, [], ◌∷◌, ◌++◌, Option, none, some, if◌then◌else◌,
}
use enjambre_worker.Prelude.Text.{Text, codes}
use enjambre_worker.Files.{Disk, exists, write_file, rename, with_extension}

-- `Result<(), String>`, with what failed.
pub data Outcome : Type 0 where
  ok : Outcome
  err : Text → Outcome

-- One round of the loop over the chunks: what came, and what a failed `write_all` has written of it.
pub data Chunk : Type 0 where
  received : (bytes : Text) → Chunk
  lost : Chunk
  unwritten : (bytes written : Text) → Chunk

-- What the network and the disk do in a download. The status of the response is part of it, since
-- the code does not look at it.
pub record Attempt : Type 0 where
  pub client_builds : Bool
  pub sends : Bool
  pub status_code : ℕ
  pub creates : Bool
  pub chunks : List Chunk
  pub renames : Bool

-- The loop: the content of the temporary file, and whether the body has come to its end.
unfoldable pub receive : List Chunk → Text → Text × Outcome
receive [] file = (file, ok)
receive (received bytes ∷ cs) file = receive cs (file ++ bytes)
receive (lost ∷ cs) file = (file, err (codes "Error recibiendo datos"))
receive (unwritten bytes written ∷ cs) file =
    (file ++ written, err (codes "Error escribiendo a disco"))

abbrev pub tmp_path : Text → Text
tmp_path dest = with_extension (codes "gguf.tmp") dest

-- After the loop.
unfoldable pub finish : Text → Bool → Text × Outcome → Disk → Outcome × Disk
finish dest renames (content, err e) d = (err e, write_file (tmp_path dest) content d)
finish dest renames (content, ok) d =
    let written = write_file (tmp_path dest) content d in
    if renames
    then (ok, rename (tmp_path dest) dest content written)
    else (err (codes "Error moviendo archivo final"), written)

unfoldable pub download_model : Text → Attempt → Disk → Outcome × Disk
unfolding receive finish
download_model dest a d =
    if exists dest d
    then (ok, d)
    else if a.client_builds
    then (if a.sends
        then (if a.creates
            then finish dest a.renames (receive a.chunks []) d
            else (err (codes "Error creando archivo temporal"), d))
        else (err (codes "Error en descarga"), d))
    else (err (codes "Error creando cliente HTTP"), d)

-- What comes of the body as a whole.
pub data Body : Type 0 where
  whole : (bytes : Text) → Body
  broken : Body

-- What `std::fs::write` does: it writes the bytes, or fails with a part of them written, or fails to
-- create the file.
pub data Write : Type 0 where
  done : Write
  stopped : (written : Text) → Write
  refused : Write

unfoldable pub store : Text → Text → Write → Bool → Disk → Outcome × Disk
store dest bytes done renames d =
    let written = write_file (tmp_path dest) bytes d in
    if renames
    then (ok, rename (tmp_path dest) dest bytes written)
    else (err (codes "rename"), written)
store dest bytes (stopped part) renames d = (err (codes "write"), write_file (tmp_path dest) part d)
store dest bytes refused renames d = (err (codes "write"), d)

unfoldable pub store_body : Text → Body → Write → Bool → Disk → Outcome × Disk
unfolding store
store_body dest broken w renames d = (err (codes "bytes"), d)
store_body dest (whole bytes) w renames d = store dest bytes w renames d

unfoldable pub ensure_model : Text → Attempt → Body → Write → Disk → Outcome × Disk
unfolding store_body
ensure_model dest a body w d =
    if exists dest d
    then (ok, d)
    else if a.client_builds
    then (if a.sends then store_body dest body w a.renames d else (err (codes "send"), d))
    else (err (codes "build"), d)
