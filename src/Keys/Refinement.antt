-- ===== src/Keys/Refinement.antt =====
-- The key manager against accounts as a function of the keys, without an order and without a file.
use mathlib.Core.Path.{fun_ext, ap₂}
use enjambre_worker.Prelude.{
  ℕ, ◌≡◌, refl, ◌∙◌, ap, Bool, true, false, ◌&&◌, List, [], ◌∷◌, Option, none, some, arith, ltb,
  is_some, if◌then◌else◌, filter_option,
}
use enjambre_worker.Prelude.Text.{Text, same_text, same_text_iff}
use enjambre_worker.Prelude.Decimal.{to_decimal}
use enjambre_worker.Prelude.Maps.{HashMap, get, insert, remove, get-insert, get-remove}
use enjambre_worker.Storage.{Storage}
use enjambre_worker.Keys.{
  ApiKey, KeyManager, spend, recharge, switch, create_key, validate_key, deduct_credit, delete_key,
  add_credits, toggle_key, generate_key_string,
}
use enjambre_worker.Keys.Invariant.{Call, creates, deducts, deletes, adds, toggles, apply}
use enjambre_worker.Keys.Spending.{save-keys, get-update}

-- The accounts: what stands under each key.
abbrev pub Accounts : Type 0
Accounts = Text → Option ApiKey

abbrev pub put : Text → Option ApiKey → Accounts → Accounts
put k v a j = if same_text k j then v else a j

abbrev entry_of : ℕ → ℕ → Text → ℕ → ApiKey
entry_of nanos secs name credits = record {
  key = generate_key_string nanos;
  name = name;
  credits = credits;
  enabled = true;
  created_at = to_decimal secs;
}

-- A change of an account that is there.
abbrev changed : Text → (ApiKey → ApiKey) → Option ApiKey → Accounts → Accounts × Bool
changed k f none a = (a, false)
changed k f (some e) a = (put k (some (f e)) a, true)

abbrev charged : Text → Option ApiKey → Accounts → Accounts × Bool
charged k none a = (a, false)
charged k (some e) a = if ltb 0 e.credits then (put k (some (spend e)) a, true) else (a, false)

-- What each call does to the accounts, and whether it finds what it needs.
abbrev pub perform : Call → Accounts → Accounts × Bool
perform (creates nanos secs name credits) a =
    (put (generate_key_string nanos) (some (entry_of nanos secs name credits)) a, true)
perform (deducts k) a = charged k (a k) a
perform (deletes k) a = if is_some (a k) then (put k none a, true) else (a, false)
perform (adds k amount) a = changed k (recharge amount) (a k) a
perform (toggles k) a = changed k switch (a k) a

-- A key may be used if it is enabled and has credits.
abbrev pub usable : Text → Accounts → Bool
usable k a = is_some (filter_option (λ e. e.enabled && ltb 0 e.credits) (a k))

-- A call, or the check of a key.
pub data Request : Type 0 where
  does : Call → Request
  checks : Text → Request

abbrev pub answers : List Request → Accounts → List Bool
answers [] a = []
answers (does c ∷ rs) a = (perform c a).1 ∷ answers rs (perform c a).0
answers (checks k ∷ rs) a = usable k a ∷ answers rs a

module _ (s : Storage (HashMap ApiKey)) where
  abbrev pub contents : KeyManager s.File → Accounts
  contents m k = get k m.keys

  -- What the key manager answers to a call.
  abbrev pub reply : Call → KeyManager s.File → Bool
  reply (creates nanos secs name credits) m = true
  reply (deducts k) m = (deduct_credit s k m).1
  reply (deletes k) m = (delete_key s k m).1
  reply (adds k amount) m = (add_credits s k amount m).1
  reply (toggles k) m = (toggle_key s k m).1

  abbrev pub replies : List Request → KeyManager s.File → List Bool
  replies [] m = []
  replies (does c ∷ rs) m = reply c m ∷ replies rs (apply s c m)
  replies (checks k ∷ rs) m = is_some (validate_key s k m) ∷ replies rs m

  contents-apply :
      (c : Call) (m : KeyManager s.File) (j : Text)
      → contents (apply s c m) j ≡ (perform c (contents m)).0 j
  unfolding apply
  contents-apply (creates nanos secs name credits) m j =
      let key = generate_key_string nanos in
      let entry = entry_of nanos secs name credits in
      unfold create_key in
      (ap (get j) (save-keys s (record m { keys = insert key entry m.keys }))
        ∙ get-insert key j entry m.keys)
  contents-apply (deducts k) m j =
      unfold deduct_credit in ground (arith, same_text_iff k j, get-update s k j spend m)
  contents-apply (deletes k) m j =
      unfold delete_key in
      ground (arith, save-keys s (record m { keys = remove k m.keys }), get-remove k j m.keys)
  contents-apply (adds k amount) m j =
      unfold add_credits in ground (arith, same_text_iff k j, get-update s k j (recharge amount) m)
  contents-apply (toggles k) m j =
      unfold toggle_key in ground (arith, same_text_iff k j, get-update s k j switch m)

  reply-perform : (c : Call) (m : KeyManager s.File) → reply c m ≡ (perform c (contents m)).1
  unfolding deduct_credit delete_key add_credits toggle_key
  reply-perform (creates nanos secs name credits) m = refl
  reply-perform (deducts k) m = ground arith
  reply-perform (deletes k) m = ground arith
  reply-perform (adds k amount) m = ground arith
  reply-perform (toggles k) m = ground arith

  -- No requests tell the key manager from the accounts that it holds: the calls and the checks get the
  -- answers that they would get of a plain function from the keys to their entries.
  pub replies-answers :
      (rs : List Request) (m : KeyManager s.File) → replies rs m ≡ answers rs (contents m)
  replies-answers [] m = refl
  replies-answers (does c ∷ rs) m =
      ap₂ ◌∷◌ (reply-perform c m)
        (replies-answers rs (apply s c m) ∙ ap (answers rs) (fun_ext λ j. contents-apply c m j))
  replies-answers (checks k ∷ rs) m = ap₂ ◌∷◌ (unfold validate_key in refl) (replies-answers rs m)
