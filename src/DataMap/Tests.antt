-- ===== src/DataMap/Tests.antt =====
-- The theorems on the data map at concrete tables.
use devclego.Prelude.{
  [], ap, arith, false, inl, inr, none, refl, some, suc, sym, true, zero, ℕ, ◌<◌, ◌∷◌, ◌≡◌, ◌≢◌,
}
use devclego.Store.{Ptr, null}
use devclego.DataMap.{
  Row, Slot, empty, dangling, row, Table, get_item, row_dtor, rem_item, add_item, table_deinit,
  returned, outside,
}
use devclego.DataMap.Walk.{at, IsTable, IsIntact}
use devclego.DataMap.Add.{add_item_lem, add_item-full}
use devclego.DataMap.Deinit.{destroyed_from, destroyed, table_deinit_lem}
use devclego.DataMap.Removal.{rem_item-other}

abbrev owned : Ptr → Row
owned p = record { item = p; has_dtor = true }

abbrev item_or_null : Slot → Ptr
item_or_null (row r) = r.item
item_or_null _ = null

abbrev gappy : Table
gappy = record { size = 3; rows = row (owned 10) ∷ empty ∷ row (owned 20) ∷ [] }

gappy_slots : (i : ℕ) → i < 3 → IsIntact (at gappy i)
gappy_slots zero h = inr (owned 10, refl)
gappy_slots (suc zero) h = inl refl
gappy_slots (suc (suc zero)) h = inr (owned 20, refl)
gappy_slots (suc (suc (suc i))) h = absurd (omega (arith, h))

gappy-IsTable : IsTable gappy
gappy-IsTable = record { small = omega arith; whole = refl; intact = gappy_slots }

abbrev taken : Table
taken = record { size = 1; rows = row (owned 10) ∷ [] }

taken_slots : (i : ℕ) → i < 1 → IsIntact (at taken i)
taken_slots zero h = inr (owned 10, refl)
taken_slots (suc i) h = absurd (omega (arith, h))

taken-IsTable : IsTable taken
taken-IsTable = record { small = omega arith; whole = refl; intact = taken_slots }

taken_full : (m : ℕ) → m < 1 → at taken m ≢ empty
taken_full zero h e = cc
taken_full (suc m) h e = absurd (omega (arith, h))

-- runs of the code
filled :
    add_item gappy 30
    ≡ returned (record gappy { rows = row (owned 10) ∷ row (owned 30) ∷ row (owned 20) ∷ [] }, 1)
unfolding add_item
filled = refl

ended : table_deinit gappy ≡ some (record gappy { rows = empty ∷ empty ∷ empty ∷ [] }, 10 ∷ 20 ∷ [])
unfolding table_deinit
ended = refl

add_item_lem_example :
    (t' : Table) × (k : ℕ) × (add_item gappy 30 ≡ returned (t', k))
    × IsTable t'
    × (k < 3)
    × (get_item gappy k ≡ some null)
    × (get_item t' k ≡ some 30)
    × ((m : ℕ) → m < k → at gappy m ≢ empty)
    × ((m : ℕ) → m < 3 → m ≢ k → get_item t' m ≡ get_item gappy m)
add_item_lem_example = add_item_lem gappy 30 1 gappy-IsTable (omega arith) refl

add_item-full_example : add_item taken 30 ≡ outside
add_item-full_example = add_item-full taken 30 taken-IsTable taken_full

-- a row without a destructor, a row without an item, and one with both
abbrev mixed : Table
mixed = record {
  size = 3;
  rows = row (record { item = 10; has_dtor = false }) ∷ row (owned null) ∷ row (owned 20) ∷ [];
}

mixed_slots : (i : ℕ) → i < 3 → IsIntact (at mixed i)
mixed_slots zero h = inr (record { item = 10; has_dtor = false }, refl)
mixed_slots (suc zero) h = inr (owned null, refl)
mixed_slots (suc (suc zero)) h = inr (owned 20, refl)
mixed_slots (suc (suc (suc i))) h = absurd (omega (arith, h))

mixed-IsTable : IsTable mixed
mixed-IsTable = record { small = omega arith; whole = refl; intact = mixed_slots }

table_deinit_lem_example :
    (t' : Table) × (table_deinit mixed ≡ some (t', 20 ∷ []))
    × IsTable t'
    × (t'.size ≡ 3)
    × ((m : ℕ) → m < 3 → at t' m ≡ empty)
unfolding destroyed_from destroyed
table_deinit_lem_example = table_deinit_lem mixed mixed-IsTable

none_before : (m : ℕ) → m < 0 → (r : Row) → at gappy m ≡ row r → r.item ≡ 20
none_before m h r e = absurd (omega (arith, h))

rem_item-other_example :
    (t' : Table) × (rem_item gappy 20 ≡ some (t', row_dtor (owned 10)))
    × (at t' 0 ≡ dangling)
    × (get_item t' 0 ≡ none)
rem_item-other_example =
    rem_item-other gappy 20 0 (owned 10) gappy-IsTable (omega arith) refl (omega arith) none_before

taken_only : (m : ℕ) → m < 1 → (r : Row) → at taken m ≡ row r → r.item ≡ 10
taken_only zero h r e = sym (ap item_or_null e)
taken_only (suc m) h r e = absurd (omega (arith, h))
