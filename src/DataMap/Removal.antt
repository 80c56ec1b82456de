-- ===== src/DataMap/Removal.antt =====
-- `_dmap_rem_item`, whose loop goes on while the rows hold the item that it is asked for.
use devclego.Prelude.{
  [], add32, ap, arith, false, get_elem?-eq-get_or, get_or-set_self, inl, inr, le_signed, length,
  length-set, lt_signed, none, set, some, suc, true, zero, ℕ, ◌+◌, ◌<◌, ◌==◌, ◌∙◌, ◌≡◌, ◌≢◌,
}
use devclego.Store.{Ptr}
use devclego.DataMap.{
  Row, Slot, empty, dangling, row, Table, is_null, get_item, row_dtor, rem_item_loop, rem_item,
}
use devclego.DataMap.Walk.{at, IsTable, itr_end, itr_skip, itr_row}

-- No row of another item.
abbrev IsOnly : Ptr → Slot → Type 0
IsOnly item slot = (r : Row) → slot ≡ row r → r.item ≡ item

rem_item_loop_lem :
    (n : ℕ) (t : Table) (item : Ptr) (fuel i k : ℕ) (r : Row)
    → IsTable t
    → i + n ≡ k
    → k < t.size
    → n < fuel
    → at t k ≡ row r
    → r.item ≢ item
    → ((m : ℕ) → m < k → IsOnly item (at t m))
    → rem_item_loop fuel t item i ≡ some (k, row r)
unfolding rem_item_loop is_null
rem_item_loop_lem n t item zero i k r v e h f is_row ne before = absurd (omega (arith, f))
rem_item_loop_lem zero t item (suc fuel) i k r v e h f is_row ne before =
    let here : i ≡ k = omega (arith, e) in
    let differ : (item == r.item) ≡ false = ground arith in
    rw (here, itr_row t v k r h is_row, differ)
rem_item_loop_lem (suc n) t item (suc fuel) i k r v e h f is_row ne before =
    let hi : i < t.size = omega (arith, e) in
    elim (v.intact i hi) [
      | inl is_empty ↦ rw (itr_skip t v i hi is_empty) (
          rem_item_loop_lem n t item (suc fuel) (i + 1) k r v (omega (arith, e)) h
            (omega (arith, f)) is_row ne before)
      | inr (r', is_row') ↦
          let same : r'.item ≡ item = before i (omega (arith, e)) r' is_row' in
          let eq : (item == r'.item) ≡ true = ground arith in
          let s = v.small in
          let next : add32 i 1 ≡ i + 1 = omega arith in
          rw (itr_row t v i r' hi is_row', eq, next)
            (rem_item_loop_lem n t item fuel (i + 1) k r v (omega (arith, e)) h (omega (arith, f))
              is_row ne before)
    ]

-- Asked for an item, `_dmap_rem_item` destroys the first row that holds another one, and leaves the
-- slot pointing at what it gave back, so that `_dmap_get_item` of that slot reads freed memory.
pub rem_item-other :
    (t : Table) (item : Ptr) (k : ℕ) (r : Row)
    → IsTable t
    → k < t.size
    → at t k ≡ row r
    → r.item ≢ item
    → ((m : ℕ) → m < k → IsOnly item (at t m))
    → (t' : Table) × (rem_item t item ≡ some (t', row_dtor r))
      × (at t' k ≡ dangling)
      × (get_item t' k ≡ none)
unfolding rem_item get_item is_null
rem_item-other t item k r v h is_row ne before =
    let ran =
      rem_item_loop_lem k t item (t.size + 1) 0 k r v (omega arith) h (omega arith) is_row ne
        before in
    let s = v.small in
    let inside : (k == t.size) ≡ false = ground arith in
    let low : lt_signed k 0 ≡ false = ground arith in
    let high : le_signed t.size k ≡ false = ground arith in
    let there = get_or-set_self t.rows k dangling empty (omega (arith, v.whole)) in
    let t' : Table = record t { rows = set t.rows k dangling } in
    let size : length t'.rows ≡ t.size = length-set t.rows k dangling ∙ v.whole in
    let read = get_elem?-eq-get_or t'.rows k empty (omega (arith, size)) ∙ ap some there in
    (t', rw (ran, inside), there, rw (low, high, read))

rem_item_loop-only :
    (n : ℕ) (t : Table) (item : Ptr) (fuel i : ℕ)
    → IsTable t
    → i + n ≡ t.size
    → n < fuel
    → ((m : ℕ) → m < t.size → IsOnly item (at t m))
    → rem_item_loop fuel t item i ≡ some (t.size, empty)
unfolding rem_item_loop is_null
rem_item_loop-only n t item zero i v e f only = absurd (omega (arith, f))
rem_item_loop-only zero t item (suc fuel) i v e f only =
    let here : i ≡ t.size = omega (arith, e) in rw (here, itr_end t v)
rem_item_loop-only (suc n) t item (suc fuel) i v e f only =
    let hi : i < t.size = omega (arith, e) in
    elim (v.intact i hi) [
      | inl is_empty ↦ rw (itr_skip t v i hi is_empty) (
          rem_item_loop-only n t item (suc fuel) (i + 1) v (omega (arith, e)) (omega (arith, f))
            only)
      | inr (r, is_row) ↦
          let same : r.item ≡ item = only i hi r is_row in
          let eq : (item == r.item) ≡ true = ground arith in
          let s = v.small in
          let next : add32 i 1 ≡ i + 1 = omega arith in
          rw (itr_row t v i r hi is_row, eq, next)
            (rem_item_loop-only n t item fuel (i + 1) v (omega (arith, e)) (omega (arith, f)) only)
    ]

-- Where every row holds the item that is asked for, `_dmap_rem_item` removes nothing.
pub rem_item-only :
    (t : Table) (item : Ptr)
    → IsTable t
    → ((m : ℕ) → m < t.size → IsOnly item (at t m))
    → rem_item t item ≡ some (t, [])
unfolding rem_item
rem_item-only t item v only =
    let ran = rem_item_loop-only t.size t item (t.size + 1) 0 v (omega arith) (omega arith) only in
    let end : (t.size == t.size) ≡ true = ground arith in rw (ran, end)
