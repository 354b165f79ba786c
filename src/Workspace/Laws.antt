-- ===== src/Workspace/Laws.antt =====
-- Where an extraction writes, and what it leaves.
use mathlib.Core.Option.{or_else}
use enjambre_worker.Prelude.{
  ◌≡◌, ◌≢◌, refl, sym, append_assoc, ◌∙◌, ap, Bool, true, false, not, ◌&&◌, List, [], ◌∷◌, ◌++◌,
  Option, none, some, All, if◌then◌else◌, arith, Bool-cases, inl, inr,
}
use enjambre_worker.Prelude.Text.{Text, same_text, strip_prefix}
use enjambre_worker.Prelude.Text.Laws.{strip_prefix-append}
use enjambre_worker.Prelude.Maps.{get, get-insert, get-insert_ne}
use enjambre_worker.Files.{Disk, exists, join_path, has_dot_dot, has_drive, has_root}
use enjambre_worker.Download.{Outcome, ok, err}
use enjambre_worker.Workspace.{
  Workspace, Entry, Write, done, no_dir, no_file, stopped, Item, unreadable, item, extract_file,
  extract_dir, extract_entry, and_then, extract_all, extract_llama,
}

-- What an entry wants to have at a path.
abbrev wanted_by : Text → Text → Entry → Option Text
wanted_by root p e =
    if not (has_dot_dot e.name) && not e.is_dir && same_text (join_path root e.name) p
    then some e.bytes
    else none

-- The last entry of the path counts.
abbrev pub wanted : Text → Text → List Item → Option Text
wanted root p [] = none
wanted root p (unreadable ∷ items) = wanted root p items
wanted root p (item e w ∷ items) = or_else (wanted root p items) (wanted_by root p e)

extract_entry-wanted :
    (root p : Text) (e : Entry) (w : Write) (d : Disk)
    → (extract_entry root e w d).0 ≡ ok
    → get p (extract_entry root e w d).1.files ≡ or_else (wanted_by root p e) (get p d.files)
unfolding extract_entry extract_file extract_dir or_else
extract_entry-wanted root p e done d y =
    ground (arith, get-insert (join_path root e.name) p e.bytes d.files)
extract_entry-wanted root p e no_dir d y = ground arith
extract_entry-wanted root p e no_file d y = ground arith
extract_entry-wanted root p e (stopped part) d y = ground arith

extract_all-wanted :
    (root p : Text) (items : List Item) (d : Disk)
    → (extract_all root items d).0 ≡ ok
    → get p (extract_all root items d).1.files ≡ or_else (wanted root p items) (get p d.files)
unfolding extract_all or_else
extract_all-wanted root p [] d y = refl
extract_all-wanted root p (unreadable ∷ items) d y = cc
extract_all-wanted root p (item e w ∷ items) d y =
    step (extract_entry root e w d) (extract_entry-wanted root p e w d) y
      (extract_all-wanted root p items)
  where
    step :
        (r : Outcome × Disk)
        → (r.0 ≡ ok → get p r.1.files ≡ or_else (wanted_by root p e) (get p d.files))
        → (and_then r (extract_all root items)).0 ≡ ok
        → ((t : Disk)
            → (extract_all root items t).0 ≡ ok
            → get p (extract_all root items t).1.files
              ≡ or_else (wanted root p items) (get p t.files))
        → get p (and_then r (extract_all root items)).1.files
          ≡ or_else (or_else (wanted root p items) (wanted_by root p e)) (get p d.files)
    step (ok, t) first z rest = ground (arith, first refl, rest t z)
    step (err x, t) first z rest = cc

-- An extraction that succeeds, where the RPC server was not there, leaves at each path the bytes of
-- the last entry of that path, of those that are files and have no `..` in their names, and leaves
-- the other files alone.
pub extract_llama_lem :
    (w : Workspace) (items : List Item) (d : Disk) (p : Text)
    → exists w.rpc_bin d ≡ false
    → (extract_llama w (some items) d).0 ≡ ok
    → get p (extract_llama w (some items) d).1.files
      ≡ or_else (wanted w.root p items) (get p d.files)
unfolding extract_llama
extract_llama_lem w items d p e y = rw e (extract_all-wanted w.root p items d (rw e at y))

abbrev stays_below : Option Text → Bool
stays_below none = false
stays_below (some rest) = not (has_dot_dot rest)

-- A path below the root, without a way up.
abbrev pub inside : Text → Text → Bool
inside root p = stays_below (strip_prefix (root ++ b'\\' ∷ []) p)

-- An entry whose name is a relative path.
abbrev pub IsRelative : Item → Type 0
IsRelative unreadable = Unit
IsRelative (item e w) = (has_drive e.name ≡ false) × (has_root e.name ≡ false)

extract_dir-files :
    (path p : Text) (w : Write) (d : Disk) → get p (extract_dir path w d).1.files ≡ get p d.files
unfolding extract_dir
extract_dir-files path p no_dir d = refl
extract_dir-files path p done d = refl
extract_dir-files path p no_file d = refl
extract_dir-files path p (stopped part) d = refl

extract_file-files :
    (path p bytes : Text) (w : Write) (d : Disk)
    → path ≢ p
    → get p (extract_file path bytes w d).1.files ≡ get p d.files
unfolding extract_file
extract_file-files path p bytes done d ne = get-insert_ne path p bytes d.files ne
extract_file-files path p bytes no_dir d ne = refl
extract_file-files path p bytes no_file d ne = refl
extract_file-files path p bytes (stopped part) d ne = get-insert_ne path p part d.files ne

strip_root :
    (root name : Text) → strip_prefix (root ++ b'\\' ∷ []) (root ++ b'\\' ∷ name) ≡ some name
strip_root root name =
    ap (strip_prefix (root ++ b'\\' ∷ [])) (sym (append_assoc root (b'\\' ∷ []) name))
    ∙ strip_prefix-append (root ++ b'\\' ∷ []) name

inside-join_path :
    (root name : Text)
    → has_drive name ≡ false
    → has_root name ≡ false
    → has_dot_dot name ≡ false
    → inside root (join_path root name) ≡ true
unfolding join_path
inside-join_path root name nd nr dots = rw (nd, nr, strip_root root name, dots) refl

extract_entry-outside :
    (root p : Text) (e : Entry) (w : Write) (d : Disk)
    → IsRelative (item e w)
    → inside root p ≡ false
    → get p (extract_entry root e w d).1.files ≡ get p d.files
unfolding extract_entry
extract_entry-outside root p e w d (nd, nr) out = elim (Bool-cases (has_dot_dot e.name)) [
  | inl y ↦ rw y refl
  | inr n ↦ elim (Bool-cases e.is_dir) [
    | inl z ↦ rw (n, z) (extract_dir-files (join_path root e.name) p w d)
    | inr z ↦
        rw (n, z)
          (extract_file-files (join_path root e.name) p e.bytes w d λ same.
            let in_root : inside root p ≡ true =
              rw same at (inside-join_path root e.name nd nr n) in
            cc)
  ]
]

extract_all-outside :
    (root p : Text) (items : List Item) (d : Disk)
    → All IsRelative items
    → inside root p ≡ false
    → get p (extract_all root items d).1.files ≡ get p d.files
unfolding extract_all
extract_all-outside root p [] d _ out = refl
extract_all-outside root p (unreadable ∷ items) d _ out = refl
extract_all-outside root p (item e w ∷ items) d (rel, rels) out =
    step (extract_entry root e w d) (extract_entry-outside root p e w d rel out)
      λ t. extract_all-outside root p items t rels out
  where
    step :
        (r : Outcome × Disk)
        → get p r.1.files ≡ get p d.files
        → ((t : Disk) → get p (extract_all root items t).1.files ≡ get p t.files)
        → get p (and_then r (extract_all root items)).1.files ≡ get p d.files
    step (ok, t) first rest = rest t ∙ first
    step (err x, t) first rest = first

-- Whatever comes of it, an extraction of entries whose names are relative paths changes no file
-- outside of the workspace.
pub extract_llama-outside :
    (w : Workspace) (items : List Item) (d : Disk) (p : Text)
    → All IsRelative items
    → inside w.root p ≡ false
    → get p (extract_llama w (some items) d).1.files ≡ get p d.files
unfolding extract_llama
extract_llama-outside w items d p rels out = elim (Bool-cases (exists w.rpc_bin d)) [
  | inl y ↦ rw y refl
  | inr n ↦ rw n (extract_all-outside w.root p items d rels out)
]
