-- ===== src/Tests/Files.antt =====
-- Downloads and extractions at concrete disks.
use mathlib.Core.Option.{or_else}
use enjambre_worker.Prelude.{◌≡◌, refl, true, false, ◌||◌, List, [], ◌∷◌, some, All, arith}
use enjambre_worker.Prelude.Text.{Text, codes, same_text, strip_prefix}
use enjambre_worker.Prelude.Maps.{get, insert, remove}
use enjambre_worker.Files.{Disk, exists, with_extension, without_extension, has_dot_dot}
use enjambre_worker.Download.{ok, Attempt, received, download_model}
use enjambre_worker.Download.Laws.{download_model_lem, Downloaded, is_ok, goes_well}
use enjambre_worker.Workspace
use enjambre_worker.Workspace.{
  Workspace, Entry, Item, item, extract_llama, extract_all, extract_entry, extract_file,
  extract_dir,
}
use enjambre_worker.Workspace.Laws.{
  extract_llama_lem, extract_llama-outside, wanted, inside, IsRelative,
}

abbrev root : Text
root = codes "C:\\Enjambre"

abbrev model_file : Text
model_file = codes "C:\\Enjambre\\m.gguf"

abbrev empty_disk : Disk
empty_disk = record { files = []; dirs = root ∷ [] }

-- A page that is no model, behind a status that is no success.
abbrev not_found : Attempt
not_found = record {
  client_builds = true;
  sends = true;
  status_code = 404;
  creates = true;
  chunks = received (codes "not ") ∷ received (codes "found") ∷ [];
  renames = true;
}

tmp_name : with_extension (codes "gguf.tmp") model_file ≡ codes "C:\\Enjambre\\m.gguf.tmp"
unfolding with_extension without_extension
tmp_name = refl

-- The page is kept as the model.
not_found_kept :
    get model_file (download_model model_file not_found empty_disk).1.files
    ≡ some (codes "not found")
unfolding get insert remove download_model same_text with_extension without_extension
not_found_kept = refl

download_model_lem_example :
    (is_ok (download_model model_file not_found empty_disk).0
      ≡ (exists model_file empty_disk || goes_well not_found))
    × Downloaded model_file not_found empty_disk model_file
        (download_model model_file not_found empty_disk)
download_model_lem_example = download_model_lem model_file not_found empty_disk model_file

abbrev workspace : Workspace
workspace = record {
  root = root;
  rpc_bin = codes "C:\\Enjambre\\ggml-rpc-server.exe";
  server_bin = codes "C:\\Enjambre\\llama-server.exe";
  model_path = model_file;
}

abbrev engine : List Item
engine =
    item (record { name = codes "ggml-rpc-server.exe"; is_dir = false; bytes = codes "rpc" })
      Workspace.done
    ∷ item (record { name = codes "..\\evil.exe"; is_dir = false; bytes = codes "evil" })
        Workspace.done
    ∷ item (record { name = codes "lib/ggml.dll"; is_dir = false; bytes = codes "dll" })
        Workspace.done
    ∷ []

rpc_absent : exists workspace.rpc_bin empty_disk ≡ false
unfolding get same_text
rpc_absent = refl

engine_extracts : (extract_llama workspace (some engine) empty_disk).0 ≡ ok
unfolding extract_llama get same_text has_dot_dot
engine_extracts = refl

extract_llama_lem_example :
    get
      (codes "C:\\Enjambre\\lib/ggml.dll")
      (extract_llama workspace (some engine) empty_disk).1.files
    ≡ or_else
        (wanted root (codes "C:\\Enjambre\\lib/ggml.dll") engine)
        (get (codes "C:\\Enjambre\\lib/ggml.dll") empty_disk.files)
extract_llama_lem_example =
    extract_llama_lem workspace engine empty_disk (codes "C:\\Enjambre\\lib/ggml.dll") rpc_absent
      engine_extracts

engine-IsRelative : All IsRelative engine
engine-IsRelative = ground arith

evil_outside : inside root (codes "C:\\evil.exe") ≡ false
unfolding strip_prefix has_dot_dot
evil_outside = refl

extract_llama-outside_example :
    get (codes "C:\\evil.exe") (extract_llama workspace (some engine) empty_disk).1.files
    ≡ get (codes "C:\\evil.exe") empty_disk.files
extract_llama-outside_example =
    extract_llama-outside workspace engine empty_disk (codes "C:\\evil.exe") engine-IsRelative
      evil_outside
