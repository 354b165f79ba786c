-- ===== src/Keys/Invariant.antt =====
-- What every operation on the keys keeps, and what a restart finds.
use enjambre_worker.Prelude.{
  ℕ, ◌<◌, ◌≡◌, refl, ◌⊎◌, List, [], ◌∷◌, Option, some, arith, ltb, inl, inr, Option-cases,
  Bool-cases, All, u64_mod,
}
use enjambre_worker.Prelude.Text.{Text, same_text_iff}
use enjambre_worker.Prelude.Maps.{
  HashMap, get, insert, remove, modify, Unique, insert-Unique, remove-Unique, modify-Unique,
  get-insert, get-remove, get-modify,
}
use enjambre_worker.Storage.{Storage, IsDurable}
use enjambre_worker.Keys.{
  ApiKey, KeyManager, spend, recharge, switch, load, new, save, save_at, update, create_key,
  deduct_credit, delete_key, add_credits, toggle_key, generate_key_string,
}
use enjambre_worker.Keys.Spending.{save-keys}

-- The calls that change the keys, with their arguments.
pub data Call : Type 0 where
  creates : ℕ → ℕ → Text → ℕ → Call
  deducts : Text → Call
  deletes : Text → Call
  adds : Text → ℕ → Call
  toggles : Text → Call

-- A credit that an unsigned 64-bit argument holds.
abbrev pub Fits : Call → Type 0
Fits (creates nanos secs name credits) = credits < u64_mod
Fits (adds key amount) = amount < u64_mod
Fits _ = Unit

abbrev pub IsValidEntry : Text → ApiKey → Type 0
IsValidEntry k e = (e.key ≡ k) × (e.credits < u64_mod)

-- Each entry stands under its own key, once, with credits of 64 bits.
abbrev pub IsValid : HashMap ApiKey → Type 0
IsValid m = Unique m × ((k : Text) (e : ApiKey) → get k m ≡ some e → IsValidEntry k e)

module _ (s : Storage (HashMap ApiKey)) where
  unfoldable pub apply : Call → KeyManager s.File → KeyManager s.File
  apply (creates nanos secs name credits) m = (create_key s nanos secs name credits m).0
  apply (deducts key) m = (deduct_credit s key m).0
  apply (deletes key) m = (delete_key s key m).0
  apply (adds key amount) m = (add_credits s key amount m).0
  apply (toggles key) m = (toggle_key s key m).0

  pub run : List Call → KeyManager s.File → KeyManager s.File
  run [] m = m
  run (c ∷ cs) m = run cs (apply c m)

  insert-IsValid :
      (k : Text) (e : ApiKey) (m : HashMap ApiKey)
      → IsValidEntry k e
      → IsValid m
      → IsValid (insert k e m)
  insert-IsValid k e m h (u, v) =
      (insert-Unique k e m u, λ j x p. ground (arith, get-insert k j e m, same_text_iff k j, v j x))

  modify-IsValid :
      (k : Text) (f : ApiKey → ApiKey) (m : HashMap ApiKey)
      → ((e : ApiKey) → IsValidEntry k e → IsValidEntry k (f e))
      → IsValid m
      → IsValid (modify k f m)
  modify-IsValid k f m keep (u, v) = (modify-Unique k f m u, entry)
    where
      entry : (j : Text) (x : ApiKey) → get j (modify k f m) ≡ some x → IsValidEntry j x
      entry j x p = elim (Option-cases (get j m)) [
        | inl e ↦ ground (arith, get-modify k j f m)
        | inr (e, g) ↦ ground (arith, get-modify k j f m, same_text_iff k j, v j e g, keep e)
      ]

  remove-IsValid : (k : Text) (m : HashMap ApiKey) → IsValid m → IsValid (remove k m)
  remove-IsValid k m (u, v) =
      (remove-Unique k m u, λ j x p. ground (arith, get-remove k j m, same_text_iff k j, v j x))

  -- What a call may do: nothing, or write valid keys and save them.
  abbrev Does : Call → KeyManager s.File → KeyManager s.File → Type 0
  Does c m m' =
      (m' ≡ m)
      ⊎ ((ks : HashMap ApiKey) × (m' ≡ save s (record m { keys = ks }))
          × (Fits c → IsValid m.keys → IsValid ks))

  apply-Does : (c : Call) (m : KeyManager s.File) → Does c m (apply c m)
  unfolding apply
  apply-Does (creates nanos secs name credits) m =
      unfold create_key in
      inr (
        insert (generate_key_string nanos) _ m.keys,
        refl,
        λ h. insert-IsValid _ _ m.keys (refl, h),
      )
  apply-Does (deducts key) m = elim (Option-cases (get key m.keys)) [
    | inl e ↦ inl (unfold deduct_credit in ground arith)
    | inr (entry, e) ↦ elim (Bool-cases (ltb 0 entry.credits)) [
      | inl more ↦ inr (
        modify key spend m.keys,
        unfold deduct_credit update in ground arith,
        λ h. modify-IsValid key spend m.keys λ x v. ground arith,
      )
      | inr out ↦ inl (unfold deduct_credit in ground arith)
    ]
  ]
  apply-Does (deletes key) m = elim (Option-cases (get key m.keys)) [
    | inl e ↦ inl (unfold delete_key in ground arith)
    | inr (entry, e) ↦
        inr (remove key m.keys, unfold delete_key in ground arith, λ h. remove-IsValid key m.keys)
  ]
  apply-Does (adds key amount) m = elim (Option-cases (get key m.keys)) [
    | inl e ↦ inl (unfold add_credits in ground arith)
    | inr (entry, e) ↦ inr (
      modify key (recharge amount) m.keys,
      unfold add_credits update in ground arith,
      λ h. modify-IsValid key (recharge amount) m.keys λ x v. ground arith,
    )
  ]
  apply-Does (toggles key) m = elim (Option-cases (get key m.keys)) [
    | inl e ↦ inl (unfold toggle_key in ground arith)
    | inr (entry, e) ↦ inr (
      modify key switch m.keys,
      unfold toggle_key update in ground arith,
      λ h. modify-IsValid key switch m.keys λ x v. ground arith,
    )
  ]

  pub apply-IsValid :
      (c : Call) (m : KeyManager s.File) → Fits c → IsValid m.keys → IsValid (apply c m).keys
  apply-IsValid c m h v = elim (apply-Does c m) [
    | inl e ↦ rw e v
    | inr (ks, e, k) ↦ rw (e, save-keys) (k h v)
  ]

  -- After any calls whose amounts fit 64 bits, each entry stands under its own key, once, with
  -- credits of 64 bits, if that held before.
  run-IsValid :
      (cs : List Call) (m : KeyManager s.File)
      → All Fits cs
      → IsValid m.keys
      → IsValid (run cs m).keys
  unfolding run
  run-IsValid [] m h v = v
  run-IsValid (c ∷ cs) m (hc, hs) v = run-IsValid cs (apply c m) hs (apply-IsValid c m hc v)

module _ (s : Storage (HashMap ApiKey)) (d : IsDurable s) where
  -- A restart finds the manager as it is.
  abbrev pub Restarts : Text → KeyManager s.File → Type 0
  Restarts p m = (m.path ≡ some p) × (new s (some p) m.disk ≡ m)

  save-Restarts : (p : Text) (m : KeyManager s.File) → m.path ≡ some p → Restarts p (save s m)
  unfolding save save_at new load
  save-Restarts p m e =
      let (f, pr, rd) = d.printed m.keys in ground (arith, e, pr, rd, d.written f m.disk)

  pub apply-Restarts :
      (p : Text) (c : Call) (m : KeyManager s.File) → Restarts p m → Restarts p (apply s c m)
  apply-Restarts p c m r = elim (apply-Does s c m) [
    | inl e ↦ rw e r
    | inr (ks, e, k) ↦ rw e (save-Restarts p (record m { keys = ks }) r.0)
  ]

  run-Restarts :
      (p : Text) (cs : List Call) (m : KeyManager s.File) → Restarts p m → Restarts p (run s cs m)
  unfolding run
  run-Restarts p [] m r = r
  run-Restarts p (c ∷ cs) m r = run-Restarts p cs (apply s c m) (apply-Restarts p c m r)

  -- Where files keep what is written, a manager that is started again on its file after any calls
  -- has the same keys, whatever the file held at first: every change is saved at once.
  new-run :
      (p : Text) (disk : Option s.File) (cs : List Call)
      → let m = run s cs (new s (some p) disk) in new s (some p) m.disk ≡ m
  new-run p disk cs = (run-Restarts p cs (new s (some p) disk) (unfold new in (refl, refl))).1
