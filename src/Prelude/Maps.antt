-- ===== src/Prelude/Maps.antt =====
-- `HashMap` with texts for keys, as an association list; the order of the list stands for the
-- order in which the table is iterated.
use Prim.Native.Nat.{ℕ, ◌+◌, ◌≤◌}
use mathlib.Core.Path.{◌≡◌, refl}
use mathlib.Core.Logic.{◌≢◌, inl, inr}
use mathlib.Core.Bool.{Bool, true}
use mathlib.Core.List.{List, [], ◌∷◌}
use mathlib.Core.Option.{Option, none, some}
use native.Mathlib.Omega.{arith}
use enjambre_worker.Prelude.Tests.{if◌then◌else◌, map_option, Bool-cases}
use enjambre_worker.Prelude.Lists.{any}
use enjambre_worker.Prelude.Text.{Text, same_text, same_text_iff, same_text_refl}

abbrev pub HashMap {ℓ} : Type ℓ → Type ℓ
HashMap V = List (Text × V)

module _ {ℓ} {V : Type ℓ} where
  -- `map.get(k)`
  unfoldable pub get : Text → HashMap V → Option V
  get k [] = none
  get k ((j, v) ∷ m) = if same_text j k then some v else get k m

  -- `map.insert(k, v)`
  unfoldable pub insert : Text → V → HashMap V → HashMap V
  insert k v [] = (k, v) ∷ []
  insert k v ((j, w) ∷ m) = if same_text j k then (j, v) ∷ m else (j, w) ∷ insert k v m

  -- `map.remove(k)`
  unfoldable pub remove : Text → HashMap V → HashMap V
  remove k [] = []
  remove k ((j, v) ∷ m) = let rest = remove k m in if same_text j k then rest else (j, v) ∷ rest

  -- What a write through `map.get_mut(k)` does.
  unfoldable pub modify : Text → (V → V) → HashMap V → HashMap V
  modify k f [] = []
  modify k f ((j, v) ∷ m) = if same_text j k then (j, f v) ∷ m else (j, v) ∷ modify k f m

  -- `map.values()`
  unfoldable pub values : HashMap V → List V
  values [] = []
  values ((j, v) ∷ m) = v ∷ values m

  pub get-insert :
      (k j : Text) (v : V) (m : HashMap V)
      → get j (insert k v m) ≡ (if same_text k j then some v else get j m)
  unfolding get insert
  get-insert k j v [] = refl
  get-insert k j v ((i, w) ∷ m) =
      ground (arith, same_text_iff k j, same_text_iff i k, same_text_iff i j, get-insert k j v m)

  pub get-remove :
      (k j : Text) (m : HashMap V) → get j (remove k m) ≡ (if same_text k j then none else get j m)
  unfolding get remove
  get-remove k j [] = ground arith
  get-remove k j ((i, w) ∷ m) =
      ground (arith, same_text_iff k j, same_text_iff i k, same_text_iff i j, get-remove k j m)

  pub get-modify :
      (k j : Text) (f : V → V) (m : HashMap V)
      → get j (modify k f m) ≡ (if same_text k j then map_option f (get j m) else get j m)
  unfolding get modify
  get-modify k j f [] = ground arith
  get-modify k j f ((i, w) ∷ m) =
      ground (arith, same_text_iff k j, same_text_iff i k, same_text_iff i j, get-modify k j f m)

  pub get-insert_self : (k : Text) (v : V) (m : HashMap V) → get k (insert k v m) ≡ some v
  get-insert_self k v m = rw (get-insert k k v m, same_text_refl k)

  get-remove_self : (k : Text) (m : HashMap V) → get k (remove k m) ≡ none
  get-remove_self k m = rw (get-remove k k m, same_text_refl k)

  pub get-modify_self :
      (k : Text) (f : V → V) (m : HashMap V) → get k (modify k f m) ≡ map_option f (get k m)
  get-modify_self k f m = rw (get-modify k k f m, same_text_refl k)

  -- Another key is left alone.
  pub get-insert_ne : (k j : Text) (v : V) (m : HashMap V) → k ≢ j → get j (insert k v m) ≡ get j m
  get-insert_ne k j v m n = ground (arith, get-insert k j v m, same_text_iff k j)

  get-remove_ne : (k j : Text) (m : HashMap V) → k ≢ j → get j (remove k m) ≡ get j m
  get-remove_ne k j m n = ground (arith, get-remove k j m, same_text_iff k j)

  pub get-modify_ne :
      (k j : Text) (f : V → V) (m : HashMap V) → k ≢ j → get j (modify k f m) ≡ get j m
  get-modify_ne k j f m n = ground (arith, get-modify k j f m, same_text_iff k j)

  -- No key twice: what a hash map keeps.
  abbrev pub Unique : HashMap V → Type ℓ
  Unique [] = Unit
  Unique ((j, v) ∷ m) = (get j m ≡ none) × Unique m

module _ {ℓ} {V : Type ℓ} where
  pub insert-Unique : (k : Text) (v : V) (m : HashMap V) → Unique m → Unique (insert k v m)
  unfolding insert
  insert-Unique k v [] u = (unfold get in refl, tt)
  insert-Unique k v ((j, w) ∷ m) (n, u) =
      ground
        (arith, insert-Unique k v m u, get-insert k j v m, same_text_iff j k, same_text_iff k j)

  pub remove-Unique : (k : Text) (m : HashMap V) → Unique m → Unique (remove k m)
  unfolding remove
  remove-Unique k [] u = tt
  remove-Unique k ((j, w) ∷ m) (n, u) = ground (arith, remove-Unique k m u, get-remove k j m)

  pub modify-Unique : (k : Text) (f : V → V) (m : HashMap V) → Unique m → Unique (modify k f m)
  unfolding modify
  modify-Unique k f [] u = tt
  modify-Unique k f ((j, w) ∷ m) (n, u) =
      ground
        (arith, modify-Unique k f m u, get-modify k j f m, same_text_iff j k, same_text_iff k j)

  -- The sum of a measure over the values.
  unfoldable pub total : (V → ℕ) → HashMap V → ℕ
  total f [] = 0
  total f ((j, v) ∷ m) = f v + total f m

  get-le-total : (f : V → ℕ) (k : Text) (m : HashMap V) {v : V} → get k m ≡ some v → f v ≤ total f m
  unfolding get total
  get-le-total f k [] h = cc
  get-le-total f k ((j, w) ∷ m) {v} h = ground (arith, get-le-total f k m {v = v})

  -- A write through one key moves the sum by that one value's change.
  pub total-modify :
      (f : V → ℕ) (k : Text) (g : V → V) (m : HashMap V) {v : V}
      → get k m ≡ some v
      → total f (modify k g m) + f v ≡ total f m + f (g v)
  unfolding get modify total
  total-modify f k g [] h = cc
  total-modify f k g ((j, w) ∷ m) {v} h = ground (arith, total-modify f k g m {v = v})

  total-insert_new :
      (f : V → ℕ) (k : Text) (v : V) (m : HashMap V)
      → get k m ≡ none
      → total f (insert k v m) ≡ total f m + f v
  unfolding get insert total
  total-insert_new f k v [] h = omega arith
  total-insert_new f k v ((j, w) ∷ m) h = ground (arith, total-insert_new f k v m)

  -- A value that passes a test stands under some key.
  pub any-values :
      (p : V → Bool) (m : HashMap V)
      → Unique m
      → any p (values m) ≡ true
      → (k : Text) × (v : V) × (get k m ≡ some v) × (p v ≡ true)
  unfolding get values
  any-values p [] u h = cc
  any-values p ((j, w) ∷ m) (n, u) h = elim (Bool-cases (p w)) [
    | inl e ↦ (j, w, rw (same_text_refl j) refl, e)
    | inr e ↦
        let (k, v, g, q) = any-values p m u (ground (arith, h, e)) in
        (k, v, ground (arith, g, n, same_text_iff j k), q)
  ]
