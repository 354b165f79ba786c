-- ===== src/Files.antt =====
-- What the program uses of `std::fs` and `std::path`: a file system as a table of files and a list
-- of directories, and Windows paths as texts.
use enjambre_worker.Prelude.{
  ℕ, Bool, true, false, ◌&&◌, ◌||◌, not, List, [], ◌∷◌, ◌++◌, any, is_some, ◌==◌, if◌then◌else◌,
}
use enjambre_worker.Prelude.Text.{Text, same_text}
use enjambre_worker.Prelude.Maps.{HashMap, get, insert, remove}

-- A directory that is listed stands for those above it as well.
pub record Disk : Type 0 where
  pub files : HashMap Text
  pub dirs : List Text

-- `path.exists()`
abbrev pub exists : Text → Disk → Bool
exists p d = is_some (get p d.files) || any (same_text p) d.dirs

-- `std::fs::create_dir_all`
abbrev pub create_dir_all : Text → Disk → Disk
create_dir_all p d = record d { dirs = p ∷ d.dirs }

-- What a write leaves at the path, whether `File::create` and `write_all` or `std::fs::write`.
abbrev pub write_file : Text → Text → Disk → Disk
write_file p content d = record d { files = insert p content d.files }

-- `std::fs::rename` of a file that holds the content.
abbrev pub rename : Text → Text → Text → Disk → Disk
rename from to content d = record d { files = insert to content (remove from d.files) }

abbrev pub is_separator : ℕ → Bool
is_separator c = (c == b'\\') || (c == b'/')

-- The path up to the dot of its extension, which is the last dot of the file name and not its first
-- character; `first` tells whether the file name begins here.
unfoldable pub without_extension : Bool → Text → Text
without_extension first [] = []
without_extension first (c ∷ p) =
    let rest = c ∷ without_extension (is_separator c) p in
    if c == b'.' && not (any (λ k. is_separator k || (k == b'.')) p)
    then (if first then c ∷ p else [])
    else rest

-- `path.with_extension(ext)`
unfoldable pub with_extension : Text → Text → Text
unfolding without_extension
with_extension ext p = without_extension true p ++ b'.' ∷ ext

abbrev drive : Text → Text
drive (c ∷ d ∷ p) = if d == b':' then c ∷ d ∷ [] else []
drive _ = []

abbrev pub has_drive : Text → Bool
has_drive (c ∷ d ∷ p) = d == b':'
has_drive _ = false

abbrev pub has_root : Text → Bool
has_root [] = false
has_root (c ∷ p) = is_separator c

-- `root.join(p)`: a path with a drive takes the place of the root, and one that begins with a
-- separator keeps its drive alone.
unfoldable pub join_path : Text → Text → Text
join_path root p =
    if has_drive p then p else if has_root p then drive root ++ p else root ++ b'\\' ∷ p

-- `path.parent()` of a path with a separator.
unfoldable pub parent : Text → Text
parent [] = []
parent (c ∷ p) = let rest = c ∷ parent p in if any is_separator p then rest else []

-- `s.contains("..")`
unfoldable pub has_dot_dot : Text → Bool
has_dot_dot [] = false
has_dot_dot (c ∷ []) = false
has_dot_dot (c ∷ d ∷ s) = ((c == b'.') && (d == b'.')) || has_dot_dot (d ∷ s)
