-- ===== src/Storage.antt =====
-- What the program needs of `serde_json` and of the file system to keep a value in one file.
use enjambre_worker.Prelude.{Option, some, ◌≡◌, refl}

-- `File` is the content of a file. `write` gives what the path holds after `std::fs::write`, whose
-- result the callers drop, from the content to write and what was there.
pub record Storage (A : Type 0) : Type 1 where
  pub File : Type 0
  pub to_string_pretty : A → Option File
  pub from_str : File → Option A
  pub write : File → Option File → Option File

-- The documented behaviour, where no write fails: a value can be printed, what is printed is read
-- back, and what is written is there.
pub record IsDurable {A : Type 0} (s : Storage A) : Type 0 where
  pub printed : (a : A) → (f : s.File) × (s.to_string_pretty a ≡ some f) × (s.from_str f ≡ some a)
  pub written : (f : s.File) (d : Option s.File) → s.write f d ≡ some f

-- Files that hold the value itself.
abbrev pub plain_storage : (A : Type 0) → Storage A
plain_storage A = record {
  File = A;
  to_string_pretty = λ a. some a;
  from_str = λ f. some f;
  write = λ f d. some f;
}

pub plain_storage-IsDurable : (A : Type 0) → IsDurable (plain_storage A)
plain_storage-IsDurable A = record { printed = λ a. (a, refl, refl); written = λ f d. refl }
