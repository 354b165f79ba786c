-- ===== src/Tests/Keys.antt =====
-- The theorems on the keys, at two keys.
use Prim.Native.Nat.{min}
use enjambre_worker.Prelude.{◌-◌, ◌≡◌, refl, some}
use enjambre_worker.Prelude.Text.{codes, same_text}
use enjambre_worker.Prelude.Maps.{get}
use enjambre_worker.Keys.{get_key}
use enjambre_worker.Keys.Spending.{deduct_times, deduct_times_lem}
use enjambre_worker.Tests.{key_files, alice, two_keys}

alice_found : get_key key_files (codes "alice") two_keys ≡ some alice
unfolding get_key get same_text
alice_found = refl

-- Three charges to two credits.
deduct_times_lem_example :
    let (m, k) = deduct_times key_files 3 (codes "alice") two_keys in
    (k ≡ min 3 2)
    × (get_key key_files (codes "alice") m ≡ some (record alice { credits = 2 - min 3 2 }))
deduct_times_lem_example = deduct_times_lem key_files 3 (codes "alice") two_keys alice alice_found
