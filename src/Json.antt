-- ===== src/Json.antt =====
-- `serde_json::Value` and the accessors that src/master.rs and src/api.rs call.
use enjambre_worker.Prelude.{ℕ, Bool, Option, none, some, ◌≡◌, refl, arith, if◌then◌else◌}
use enjambre_worker.Prelude.Text.{Text, same_text, same_text_iff}

mutual
  -- A number is an unsigned 64-bit integer, or one that `as_u64` refuses.
  pub data Value : Type 0 where
    null : Value
    boolean : Bool → Value
    number : ℕ → Value
    other_number : Value
    string : Text → Value
    array : Items → Value
    object : Fields → Value

  pub data Items : Type 0 where
    nil : Items
    item : Value → Items → Items

  pub data Fields : Type 0 where
    end : Fields
    field : Text → Value → Fields → Fields

-- `Map::get`
unfoldable pub find_field : Text → Fields → Option Value
find_field k end = none
find_field k (field j v fs) = if same_text j k then some v else find_field k fs

-- `Map::insert`
unfoldable pub insert_field : Text → Value → Fields → Fields
insert_field k v end = field k v end
insert_field k v (field j w fs) =
    if same_text j k then field j v fs else field j w (insert_field k v fs)

pub find_field-insert_field :
    (k j : Text) (v : Value) (fs : Fields)
    → find_field j (insert_field k v fs) ≡ (if same_text k j then some v else find_field j fs)
unfolding find_field insert_field
find_field-insert_field k j v end = refl
find_field-insert_field k j v (field i w fs) = ground (
  arith,
  same_text_iff k j,
  same_text_iff i k,
  same_text_iff i j,
  find_field-insert_field k j v fs,
)

abbrev pub as_object : Value → Option Fields
as_object (object fs) = some fs
as_object _ = none

abbrev pub as_u64 : Value → Option ℕ
as_u64 (number n) = some n
as_u64 _ = none

abbrev pub as_str : Value → Option Text
as_str (string t) = some t
as_str _ = none

-- `value.get(k)`
abbrev pub get_field : Text → Value → Option Value
get_field k (object fs) = find_field k fs
get_field k _ = none

-- `value[k]`: null where there is no such field.
abbrev pub at : Text → Value → Value
at k v = elim (get_field k v) [ none ↦ null | some w ↦ w ]
