-- ===== src/Keys.antt =====
-- src/keys.rs: the API keys of the users and their credits. The clock is an argument of
-- `create_key`: the nanoseconds for the key and the seconds for its date.
pub mod Spending
pub mod Invariant
pub mod Listing
pub mod Naming
pub mod Refinement
use enjambre_worker.Prelude.{
  ℕ, zero, suc, ◌+◌, ◌-◌, ◌/◌, ◌%◌, ◌<◌, ◌^◌, Bool, true, false, not, ◌&&◌, List, [], ◌∷◌, ◌++◌,
  Option, none, some, ltb, ◌==◌, if◌then◌else◌, ◌>>=◌, unwrap_or, is_some, filter_option, u64_mod,
}
use enjambre_worker.Prelude.Text.{Text, codes}
use enjambre_worker.Prelude.Decimal.{to_decimal}
use enjambre_worker.Prelude.Maps.{HashMap, get, insert, remove, modify, values}
use enjambre_worker.Storage.{Storage}

pub record ApiKey : Type 0 where
  pub key : Text
  pub name : Text
  pub credits : ℕ
  pub enabled : Bool
  pub created_at : Text

-- `disk` is the content of the file at `path`, if it can be read.
pub record KeyManager (File : Type 0) : Type 0 where
  pub keys : HashMap ApiKey
  pub path : Option Text
  pub disk : Option File

-- A lower case hexadecimal digit.
unfoldable pub hex_digit : ℕ → ℕ
hex_digit d = if ltb d 10 then b'0' + d else b'a' + (d - 10)

-- `{:0wx}` at `w` digits, of a number that fits in them.
unfoldable pub hex : ℕ → ℕ → Text
unfolding hex_digit
hex zero n = []
hex (suc w) n = hex w (n / 16) ++ hex_digit (n % 16) ∷ []

unfoldable pub generate_key_string : ℕ → Text
unfolding hex
generate_key_string nanos = codes "sk-enj-" ++ hex 16 (nanos % u64_mod)

-- `a <= b` on strings.
pub le_text : Text → Text → Bool
le_text [] b = true
le_text (c ∷ a) [] = false
le_text (c ∷ a) (d ∷ b) = if ltb c d then true else (c == d && le_text a b)

-- The stable sort by `b.created_at.cmp(&a.created_at)`: the latest first.
insert_sorted : ApiKey → List ApiKey → List ApiKey
insert_sorted k [] = k ∷ []
insert_sorted k (j ∷ ks) =
    if le_text j.created_at k.created_at then k ∷ j ∷ ks else j ∷ insert_sorted k ks

sort_by_date : List ApiKey → List ApiKey
unfolding insert_sorted le_text
sort_by_date [] = []
sort_by_date (k ∷ ks) = insert_sorted k (sort_by_date ks)

-- `entry.credits -= 1`
abbrev pub spend : ApiKey → ApiKey
spend e = record e { credits = e.credits - 1 }

-- `entry.credits += amount`, which wraps at 64 bits.
abbrev pub recharge : ℕ → ApiKey → ApiKey
recharge amount e = record e { credits = (e.credits + amount) % u64_mod }

-- `entry.enabled = !entry.enabled`
abbrev pub switch : ApiKey → ApiKey
switch e = record e { enabled = not e.enabled }

module _ (s : Storage (HashMap ApiKey)) where
  unfoldable pub load : Option s.File → Option (HashMap ApiKey)
  load disk = do text ← disk; s.from_str text

  -- `KeyManager::new`, over what the file holds.
  unfoldable pub new : Option Text → Option s.File → KeyManager s.File
  unfolding load
  new none disk = record { keys = []; path = none; disk = disk }
  new (some p) disk = record { keys = unwrap_or (load disk) []; path = some p; disk = disk }

  save_at : Option Text → KeyManager s.File → KeyManager s.File
  save_at none m = m
  save_at (some p) m = elim (s.to_string_pretty m.keys) [
    | none ↦ m
    | some text ↦ record m { disk = s.write text m.disk }
  ]

  unfoldable pub save : KeyManager s.File → KeyManager s.File
  unfolding save_at
  save m = save_at m.path m

  unfoldable pub create_key : ℕ → ℕ → Text → ℕ → KeyManager s.File → KeyManager s.File × Text
  create_key nanos secs name initial_credits m =
      let key = generate_key_string nanos in
      let entry : ApiKey = record {
        key = key;
        name = name;
        credits = initial_credits;
        enabled = true;
        created_at = to_decimal secs;
      } in
      (save (record m { keys = insert key entry m.keys }), key)

  unfoldable pub validate_key : Text → KeyManager s.File → Option ApiKey
  validate_key key m = filter_option (λ k. k.enabled && ltb 0 k.credits) (get key m.keys)

  unfoldable pub get_key : Text → KeyManager s.File → Option ApiKey
  get_key key m = get key m.keys

  -- A write to the entry under `key`, which is there, and the save behind it.
  pub update : Text → (ApiKey → ApiKey) → KeyManager s.File → KeyManager s.File
  update key f m = save (record m { keys = modify key f m.keys })

  unfoldable pub deduct_credit : Text → KeyManager s.File → KeyManager s.File × Bool
  unfolding update
  deduct_credit key m = elim (get key m.keys) [
    | none ↦ (m, false)
    | some entry ↦ if ltb 0 entry.credits then (update key spend m, true) else (m, false)
  ]

  unfoldable pub list_keys : KeyManager s.File → List ApiKey
  unfolding sort_by_date
  list_keys m = sort_by_date (values m.keys)

  unfoldable pub delete_key : Text → KeyManager s.File → KeyManager s.File × Bool
  delete_key key m =
      if is_some (get key m.keys)
      then (save (record m { keys = remove key m.keys }), true)
      else (m, false)

  unfoldable pub add_credits : Text → ℕ → KeyManager s.File → KeyManager s.File × Bool
  unfolding update
  add_credits key amount m = elim (get key m.keys) [
    | none ↦ (m, false)
    | some entry ↦ (update key (recharge amount) m, true)
  ]

  unfoldable pub toggle_key : Text → KeyManager s.File → KeyManager s.File × Bool
  unfolding update
  toggle_key key m = elim (get key m.keys) [
    | none ↦ (m, false)
    | some entry ↦ (update key switch m, true)
  ]
