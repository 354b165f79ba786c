-- ===== src/Keys/Spending.antt =====
-- What the operations on one key do to it and to the others.
use enjambre_worker.Prelude.{
  ℕ, zero, suc, ◌-◌, ◌<◌, ◌≡◌, refl, ◌≢◌, ◌⊎◌, inl, inr, true, false, Option, none, some, arith,
  ltb, if◌then◌else◌, map_option, Option-cases, Bool-cases, is_some, ◌↔◌,
}
use Prim.Native.Nat.{min}
use enjambre_worker.Prelude.Decimal.{to_decimal}
use enjambre_worker.Prelude.Text.{Text, same_text, same_text_iff, same_text_refl}
use enjambre_worker.Prelude.Maps.{HashMap, get, remove, get-modify, get-remove, get-insert}
use enjambre_worker.Storage.{Storage}
use enjambre_worker.Keys.{
  ApiKey, KeyManager, spend, recharge, switch, save, save_at, update, create_key, validate_key,
  get_key, deduct_credit, delete_key, add_credits, toggle_key,
}

module _ (s : Storage (HashMap ApiKey)) where
  save_at-keys : (p : Option Text) (m : KeyManager s.File) → (save_at s p m).keys ≡ m.keys
  unfolding save_at
  save_at-keys none m = refl
  save_at-keys (some p) m = ground arith

  -- Saving leaves the keys in memory alone.
  pub save-keys : (m : KeyManager s.File) → (save s m).keys ≡ m.keys
  unfolding save
  save-keys m = save_at-keys m.path m

  pub get-update :
      (key j : Text) (f : ApiKey → ApiKey) (m : KeyManager s.File)
      → get j (update s key f m).keys
        ≡ (if same_text key j then map_option f (get j m.keys) else get j m.keys)
  unfolding update
  get-update key j f m = rw save-keys (get-modify key j f m.keys)

  get-update_self :
      (key : Text) (f : ApiKey → ApiKey) (m : KeyManager s.File) {e : ApiKey}
      → get key m.keys ≡ some e
      → get key (update s key f m).keys ≡ some (f e)
  get-update_self key f m h = ground (arith, get-update key key f m, same_text_refl key)

  get-update_ne :
      (key j : Text) (f : ApiKey → ApiKey) (m : KeyManager s.File)
      → key ≢ j
      → get j (update s key f m).keys ≡ get j m.keys
  get-update_ne key j f m n = ground (arith, get-update key j f m, same_text_iff key j)

  deduct_credit_missing :
      (key : Text) (m : KeyManager s.File)
      → get key m.keys ≡ none
      → deduct_credit s key m ≡ (m, false)
  unfolding deduct_credit
  deduct_credit_missing key m h = ground arith

  deduct_credit_empty :
      (key : Text) (m : KeyManager s.File) {e : ApiKey}
      → get key m.keys ≡ some e
      → e.credits ≡ 0
      → deduct_credit s key m ≡ (m, false)
  unfolding deduct_credit
  deduct_credit_empty key m h z = ground arith

  deduct_credit_paid :
      (key : Text) (m : KeyManager s.File) {e : ApiKey}
      → get key m.keys ≡ some e
      → 0 < e.credits
      → deduct_credit s key m ≡ (update s key spend m, true)
  unfolding deduct_credit
  deduct_credit_paid key m h z = ground arith

  -- `deduct_credit` succeeds exactly on a key that exists and has credits left. Then it takes one
  -- credit from that key and leaves the other keys alone; if it fails, nothing changes.
  deduct_credit_lem :
      (key : Text) (m : KeyManager s.File)
      → let (m', paid) = deduct_credit s key m in
        (((paid ≡ true)
            × ((e : ApiKey) × (get_key s key m ≡ some e)
                × (0 < e.credits)
                × (get_key s key m' ≡ some (spend e))))
          ⊎ ((paid ≡ false) × (m' ≡ m) × ((e : ApiKey) → get_key s key m ≡ some e → e.credits ≡ 0)))
        × ((j : Text) → key ≢ j → get_key s j m' ≡ get_key s j m)
  unfolding get_key
  deduct_credit_lem key m = elim (Option-cases (get key m.keys)) [
    | inl e ↦ rw (deduct_credit_missing key m e) (inr (refl, refl, λ x h. cc), λ j n. refl)
    | inr (entry, e) ↦ elim (Bool-cases (ltb 0 entry.credits)) [
      | inl more ↦ rw (deduct_credit_paid key m e (ground arith)) (
        inl (refl, (entry, e, ground arith, get-update_self key spend m e)),
        λ j n. get-update_ne key j spend m n,
      )
      | inr out ↦
          rw (deduct_credit_empty key m e (ground arith))
            (inr (refl, refl, λ x h. ground arith), λ j n. refl)
    ]
  ]

  -- A key that `validate_key` lets pass exists under that name, is enabled and has credits, and
  -- every such key passes.
  validate_key_iff :
      (key : Text) (m : KeyManager s.File) (e : ApiKey)
      → (validate_key s key m ≡ some e)
        ↔ ((get_key s key m ≡ some e) × (e.enabled ≡ true) × (0 < e.credits))
  unfolding validate_key get_key
  validate_key_iff key m e = ground arith

  -- A validated key can always be charged: one credit goes, and the answer is true.
  pub validate_key-deduct_credit :
      (key : Text) (m : KeyManager s.File) (e : ApiKey)
      → validate_key s key m ≡ some e
      → let (m', paid) = deduct_credit s key m in
        (paid ≡ true) × (get_key s key m' ≡ some (spend e))
  unfolding get_key
  validate_key-deduct_credit key m e h =
      let (found, on, more) = (validate_key_iff key m e).0 h in
      rw (deduct_credit_paid key m found more) (refl, get-update_self key spend m found)

  -- `for _ in 0..n { deduct_credit(key) }` with the number of times that it succeeded.
  unfoldable pub deduct_times : ℕ → Text → KeyManager s.File → KeyManager s.File × ℕ
  deduct_times zero key m = (m, 0)
  deduct_times (suc n) key m =
      let (m', paid) = deduct_credit s key m in
      let (m'', k) = deduct_times n key m' in (m'', if paid then suc k else k)

  -- Of `n` charges to a key with `c` credits exactly `min n c` succeed, and the rest of the credits
  -- is left: a key is never charged below zero and never refused while it has credits.
  pub deduct_times_lem :
      (n : ℕ) (key : Text) (m : KeyManager s.File) (e : ApiKey)
      → get_key s key m ≡ some e
      → let (m', k) = deduct_times n key m in
        (k ≡ min n e.credits)
        × (get_key s key m' ≡ some (record e { credits = e.credits - min n e.credits }))
  unfolding deduct_times get_key
  deduct_times_lem zero key m e h = (omega arith, ground arith)
  deduct_times_lem (suc n) key m e h = elim (Bool-cases (ltb 0 e.credits)) [
    | inl more ↦ ground (
      arith,
      deduct_credit_paid key m h (ground arith),
      deduct_times_lem n key (update s key spend m) (spend e) (get-update_self key spend m h),
    )
    | inr out ↦
        ground (arith, deduct_credit_empty key m h (ground arith), deduct_times_lem n key m e h)
  ]

  -- A deleted key is gone, whether or not it was there; the answer says which, and the other keys
  -- stay.
  delete_key_lem :
      (key j : Text) (m : KeyManager s.File)
      → let (m', existed) = delete_key s key m in
        (existed ≡ is_some (get_key s key m))
        × (get_key s j m' ≡ (if same_text key j then none else get_key s j m))
  unfolding delete_key get_key
  delete_key_lem key j m = ground (
    arith,
    get-remove key j m.keys,
    same_text_iff key j,
    save-keys (record m { keys = remove key m.keys }),
  )

  -- Credits are added at 64 bits to the one key that is named; the answer says whether it exists.
  pub add_credits_lem :
      (key j : Text) (amount : ℕ) (m : KeyManager s.File)
      → let (m', known) = add_credits s key amount m in
        (known ≡ is_some (get_key s key m))
        × (get_key s j m' ≡ (
            if same_text key j
            then map_option (recharge amount) (get_key s j m)
            else get_key s j m))
  unfolding add_credits get_key
  add_credits_lem key j amount m =
      ground (arith, get-update key j (recharge amount) m, same_text_iff key j)

  -- Switching a key twice gives every key back as it was.
  toggle_key_twice :
      (key j : Text) (m : KeyManager s.File)
      → get_key s j (toggle_key s key (toggle_key s key m).0).0 ≡ get_key s j m
  unfolding toggle_key get_key
  toggle_key_twice key j m = ground (
    arith,
    get-update key j switch m,
    get-update key key switch m,
    same_text_iff key j,
    same_text_iff key key,
    get-update key j switch (update s key switch m),
  )

  -- A created key is found with its name and credits, enabled; the other keys stay.
  create_key_lem :
      (nanos secs : ℕ) (name : Text) (credits : ℕ) (j : Text) (m : KeyManager s.File)
      → let (m', key) = create_key s nanos secs name credits m in
        get_key s j m' ≡ (
          if same_text key j
          then some (record {
            key = key;
            name = name;
            credits = credits;
            enabled = true;
            created_at = to_decimal secs;
          })
          else get_key s j m)
  unfolding create_key get_key
  create_key_lem nanos secs name credits j m = rw save-keys (get-insert _ j _ m.keys)
