-- ===== src/Workspace.antt =====
-- The workspace of src/workspace.rs: its paths, and the extraction of the embedded archive. The
-- archive, built into the program from a file beside the sources, is the list of what the zip library
-- gives for its entries.
pub mod Laws
use enjambre_worker.Prelude.{
  Bool, true, false, List, [], ◌∷◌, ◌++◌, Option, none, some, if◌then◌else◌,
}
use enjambre_worker.Prelude.Text.{Text, codes}
use enjambre_worker.Prelude.Maps.{get, insert}
use enjambre_worker.Files.{Disk, exists, create_dir_all, write_file, join_path, parent, has_dot_dot}
use enjambre_worker.Download.{Outcome, ok, err}

pub record Workspace : Type 0 where
  pub root : Text
  pub rpc_bin : Text
  pub server_bin : Text
  pub model_path : Text

unfoldable pub workspace_at : Text → Workspace
unfolding join_path
workspace_at root = record {
  root = root;
  rpc_bin = join_path root (codes "ggml-rpc-server.exe");
  server_bin = join_path root (codes "llama-server.exe");
  model_path = join_path root (codes "llama3.2-3b-instruct-q4_k_m.gguf");
}

-- `Workspace::init`, with none for its error: `appdata` is what LOCALAPPDATA holds, and `creates`
-- whether the directory can be made.
unfoldable pub init : Option Text → Bool → Disk → Option Workspace × Disk
unfolding workspace_at
init none creates d = (none, d)
init (some appdata) creates d =
    let root = join_path appdata (codes "Enjambre") in
    if creates then (some (workspace_at root), create_dir_all root d) else (none, d)

pub record Entry : Type 0 where
  pub name : Text
  pub is_dir : Bool
  pub bytes : Text

-- What the disk does while an entry is extracted: all is done, no directory can be made, the file
-- cannot be created, or the copy stops behind a part.
pub data Write : Type 0 where
  done : Write
  no_dir : Write
  no_file : Write
  stopped : (part : Text) → Write

-- `archive.by_index(i)`, with what the disk does.
pub data Item : Type 0 where
  unreadable : Item
  item : Entry → Write → Item

unfoldable pub extract_file : Text → Text → Write → Disk → Outcome × Disk
extract_file path bytes done d = (ok, write_file path bytes (create_dir_all (parent path) d))
extract_file path bytes no_dir d = (err (codes "create_dir_all"), d)
extract_file path bytes no_file d = (err (codes "File::create"), create_dir_all (parent path) d)
extract_file path bytes (stopped part) d =
    (err (codes "io::copy"), write_file path part (create_dir_all (parent path) d))

unfoldable pub extract_dir : Text → Write → Disk → Outcome × Disk
extract_dir path no_dir d = (err (codes "create_dir_all"), d)
extract_dir path _ d = (ok, create_dir_all path d)

unfoldable pub extract_entry : Text → Entry → Write → Disk → Outcome × Disk
unfolding extract_file extract_dir
extract_entry root e w d =
    if has_dot_dot e.name
    then (ok, d)
    else if e.is_dir
    then extract_dir (join_path root e.name) w d
    else extract_file (join_path root e.name) e.bytes w d

abbrev pub and_then : Outcome × Disk → (Disk → Outcome × Disk) → Outcome × Disk
and_then (ok, d) f = f d
and_then (err e, d) f = (err e, d)

-- The loop over the entries, which ends with the first error.
unfoldable pub extract_all : Text → List Item → Disk → Outcome × Disk
unfolding extract_entry
extract_all root [] d = (ok, d)
extract_all root (unreadable ∷ items) d = (err (codes "by_index"), d)
extract_all root (item e w ∷ items) d = and_then (extract_entry root e w d) (extract_all root items)

-- `archive` is none where the embedded bytes are no archive.
unfoldable pub extract_llama : Workspace → Option (List Item) → Disk → Outcome × Disk
unfolding extract_all
extract_llama w archive d =
    if exists w.rpc_bin d then (ok, d) else elim archive as (λ a. Outcome × Disk) [
      | none ↦ (err (codes "ZipArchive::new"), d)
      | some items ↦ extract_all w.root items d
    ]
