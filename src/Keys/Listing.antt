-- ===== src/Keys/Listing.antt =====
-- `list_keys`: every key once, the latest first.
use mathlib.Core.List.{Perm}
use mathlib.Core.List.Perm
use enjambre_worker.Prelude.{◌≡◌, refl, true, false, List, [], ◌∷◌, arith, Bool-cases, inl, inr}
use enjambre_worker.Prelude.Text.{Text}
use enjambre_worker.Prelude.Maps.{HashMap, values}
use enjambre_worker.Storage.{Storage}
use enjambre_worker.Keys.{ApiKey, KeyManager, le_text, insert_sorted, sort_by_date, list_keys}

le_text_total : (a b : Text) → le_text a b ≡ false → le_text b a ≡ true
unfolding le_text
le_text_total [] b h = cc
le_text_total (c ∷ a) [] h = refl
le_text_total (c ∷ a) (d ∷ b) h = ground (arith, le_text_total a b)

le_text_trans : (a b c : Text) → le_text a b ≡ true → le_text b c ≡ true → le_text a c ≡ true
unfolding le_text
le_text_trans [] b c h k = refl
le_text_trans (x ∷ a) [] c h k = cc
le_text_trans (x ∷ a) (y ∷ b) [] h k = cc
le_text_trans (x ∷ a) (y ∷ b) (z ∷ c) h k = ground (arith, le_text_trans a b c)

-- Each key is dated no earlier than those behind it.
abbrev NotBefore : Text → List ApiKey → Type 0
NotBefore t [] = Unit
NotBefore t (k ∷ ks) = (le_text k.created_at t ≡ true) × NotBefore t ks

abbrev pub LatestFirst : List ApiKey → Type 0
LatestFirst [] = Unit
LatestFirst (k ∷ ks) = NotBefore k.created_at ks × LatestFirst ks

NotBefore-trans :
    (a b : Text) (ks : List ApiKey) → le_text a b ≡ true → NotBefore a ks → NotBefore b ks
NotBefore-trans a b [] h n = tt
NotBefore-trans a b (k ∷ ks) h (e, n) =
    (le_text_trans k.created_at a b e h, NotBefore-trans a b ks h n)

NotBefore-insert_sorted :
    (t : Text) (k : ApiKey) (ks : List ApiKey)
    → le_text k.created_at t ≡ true
    → NotBefore t ks
    → NotBefore t (insert_sorted k ks)
unfolding insert_sorted
NotBefore-insert_sorted t k [] h n = (h, tt)
NotBefore-insert_sorted t k (j ∷ ks) h (e, n) = ground (arith, NotBefore-insert_sorted t k ks h n)

insert_sorted-LatestFirst :
    (k : ApiKey) (ks : List ApiKey) → LatestFirst ks → LatestFirst (insert_sorted k ks)
unfolding insert_sorted
insert_sorted-LatestFirst k [] s = (tt, tt)
insert_sorted-LatestFirst k (j ∷ ks) (n, s) = ground (
  arith,
  le_text_total j.created_at k.created_at,
  NotBefore-trans j.created_at k.created_at ks,
  NotBefore-insert_sorted j.created_at k ks,
  insert_sorted-LatestFirst k ks s,
)

sort_by_date-LatestFirst : (ks : List ApiKey) → LatestFirst (sort_by_date ks)
unfolding sort_by_date
sort_by_date-LatestFirst [] = tt
sort_by_date-LatestFirst (k ∷ ks) =
    insert_sorted-LatestFirst k (sort_by_date ks) (sort_by_date-LatestFirst ks)

insert_sorted-perm : (k : ApiKey) (ks : List ApiKey) → Perm (insert_sorted k ks) (k ∷ ks)
unfolding insert_sorted
insert_sorted-perm k [] = Perm.refl _
insert_sorted-perm k (j ∷ ks) = elim (Bool-cases (le_text j.created_at k.created_at)) [
  | inl before ↦ rw before (Perm.refl _)
  | inr after ↦ rw after (Perm.trans (Perm.cons j (insert_sorted-perm k ks)) (Perm.swap k j ks))
]

sort_by_date-perm : (ks : List ApiKey) → Perm (sort_by_date ks) ks
unfolding sort_by_date
sort_by_date-perm [] = Perm.refl []
sort_by_date-perm (k ∷ ks) =
    Perm.trans (insert_sorted-perm k (sort_by_date ks)) (Perm.cons k (sort_by_date-perm ks))

-- The list holds each key of the map once, whatever order the map is iterated in, and no key is
-- dated before one that stands behind it.
list_keys_lem :
    (s : Storage (HashMap ApiKey)) (m : KeyManager s.File)
    → Perm (list_keys s m) (values m.keys) × LatestFirst (list_keys s m)
unfolding list_keys
list_keys_lem s m = (sort_by_date-perm (values m.keys), sort_by_date-LatestFirst (values m.keys))
