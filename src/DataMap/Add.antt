-- ===== src/DataMap/Add.antt =====
-- `_dmap_add_row` and `_dmap_get_item`.
use devclego.Prelude.{
  add32, ap, arith, dec_lt, false, get_elem?-outside, get_or-set, get_or-set_self, inl, inr,
  le_signed, length-set, lt_signed, refl, set, some, suc, sym, true, word, zero, ℕ, ℕ_discrete, ◌+◌,
  ◌<◌, ◌==◌, ◌||◌, ◌∙◌, ◌≡◌, ◌≢◌, ◌≤◌,
}
use devclego.Store.{Ptr, null}
use devclego.DataMap.{
  Row, Slot, empty, dangling, row, Table, is_null, get_item, add_loop, add_row, make_row, add_item,
  returned, outside,
}
use devclego.DataMap.Walk.{at, IsTable, IsIntact, lookup}

-- What `_dmap_get_item` reads from a slot.
unfoldable pub read_slot : Slot → Ptr
read_slot empty = null
read_slot dangling = null
read_slot (row r) = r.item

pub get_item_inside :
    (t : Table) → IsTable t → (i : ℕ) → i < t.size → get_item t i ≡ some (read_slot (at t i))
unfolding get_item is_null read_slot
get_item_inside t v i h =
    let s = v.small in
    let low : lt_signed i 0 ≡ false = ground arith in
    let high : le_signed t.size i ≡ false = ground arith in
    elim (v.intact i h) [
      | inl e ↦ rw (low, high, lookup t v i h, e)
      | inr (r, e) ↦ rw (low, high, lookup t v i h, e)
    ]

-- Outside the table the answer is NULL.
pub get_item_outside :
    (t : Table) → IsTable t → (i : ℕ) → t.size ≤ i → i < word → get_item t i ≡ some null
unfolding get_item
get_item_outside t v i h w =
    let s = v.small in
    let out : (lt_signed i 0 || le_signed t.size i) ≡ true = ground arith in rw out

-- A slot with a row is passed by.
add_loop_step :
    (t : Table)
    → IsTable t
    → (fuel i : ℕ) (r : Row) → i < t.size
    → at t i ≡ row r
    → add_loop (suc fuel) t i ≡ add_loop fuel t (i + 1)
unfolding add_loop is_null
add_loop_step t v fuel i r hi is_row =
    let s = v.small in
    let inside : lt_signed i t.size ≡ true = ground arith in
    let next : add32 i 1 ≡ i + 1 = omega arith in
    rw (add_loop, lookup t v i hi, is_row, inside, next)

-- The loop stops at the first slot without a row.
add_loop_lem :
    (t : Table)
    → IsTable t
    → (fuel i j : ℕ) → i ≤ j
    → j < t.size
    → j < i + fuel
    → at t j ≡ empty
    → (k : ℕ) × (add_loop fuel t i ≡ returned k)
      × (k < t.size)
      × (at t k ≡ empty)
      × ((m : ℕ) → i ≤ m → m < k → at t m ≢ empty)
unfolding add_loop is_null
add_loop_lem t v zero i j below h f e = absurd (omega (arith, below, f))
add_loop_lem t v (suc fuel) i j below h f e =
    let s = v.small in
    let hi : i < t.size = omega arith in
    elim (v.intact i hi) [
      | inl is_empty ↦ (
        i,
        rw (add_loop, lookup t v i hi, is_empty),
        hi,
        is_empty,
        λ m p q. absurd (omega (arith, p, q)),
      )
      | inr (r, is_row) ↦
          let used : at t i ≢ empty = λ c. cc in
          let ne : i ≢ j = λ c. used (ap (at t) c ∙ e) in
          let (k, ran, hk, free, before) =
            add_loop_lem t v fuel (i + 1) j (omega (arith, ne)) h (omega arith) e in
          (
            k,
            add_loop_step t v fuel i r hi is_row ∙ ran,
            hk,
            free,
            λ m p q. elim (ℕ_discrete i m) [
              | yes same ↦ λ c. used (ap (at t) same ∙ c)
              | no other ↦ before m (omega (arith, other)) q
            ],
          )
    ]

-- The loop goes through rows alone, and reads the slot behind the last one.
add_loop-full :
    (t : Table)
    → IsTable t
    → (fuel i : ℕ) → i ≤ t.size
    → t.size < i + fuel
    → ((m : ℕ) → m < t.size → at t m ≢ empty)
    → add_loop fuel t i ≡ outside
unfolding add_loop is_null
add_loop-full t v zero i h f full = absurd (omega (arith, h, f))
add_loop-full t v (suc fuel) i h f full = elim (dec_lt i t.size) [
  | no end ↦ rw (add_loop, get_elem?-outside t.rows i (omega (arith, v.whole)))
  | yes hi ↦ elim (v.intact i hi) [
    | inl is_empty ↦ absurd (full i hi is_empty)
    | inr (r, is_row) ↦
        add_loop_step t v fuel i r hi is_row
        ∙ add_loop-full t v fuel (i + 1) (omega arith) (omega (arith, f)) full
  ]
]

-- A write of an intact slot keeps the table valid.
pub set-IsTable :
    (t : Table) (k : ℕ) (slot : Slot)
    → IsTable t
    → k < t.size
    → IsIntact slot
    → IsTable (record t { rows = set t.rows k slot })
set-IsTable t k slot v h ok = record {
  small = v.small;
  whole = length-set t.rows k slot ∙ v.whole;
  intact = λ i hi. elim (ℕ_discrete k i) [
    | yes same ↦ rw (sym same, get_or-set_self t.rows k slot empty (omega (arith, v.whole))) ok
    | no other ↦
        let ne : (k == i) ≡ false = ground arith in
        rw (get_or-set t.rows k i slot empty (omega (arith, v.whole)), ne) (v.intact i hi)
  ];
}

-- An item added to a table with a free slot gets the first free slot: `_dmap_get_item` finds it at
-- the index that the call returns, where nothing was before, and every other item where it was.
pub add_item_lem :
    (t : Table) (item : Ptr) (j : ℕ)
    → IsTable t
    → j < t.size
    → at t j ≡ empty
    → (t' : Table) × (k : ℕ) × (add_item t item ≡ returned (t', k))
      × IsTable t'
      × (k < t.size)
      × (get_item t k ≡ some null)
      × (get_item t' k ≡ some item)
      × ((m : ℕ) → m < k → at t m ≢ empty)
      × ((m : ℕ) → m < t.size → m ≢ k → get_item t' m ≡ get_item t m)
unfolding add_item add_row make_row read_slot
add_item_lem t item j v h e =
    let (k, ran, hk, free, before) =
      add_loop_lem t v (t.size + 1) 0 j (omega arith) h (omega arith) e in
    let r : Row = record { item = item; has_dtor = true } in
    let t' : Table = record t { rows = set t.rows k (row r) } in
    let v' : IsTable t' = set-IsTable t k (row r) v hk (inr (r, refl)) in
    let ne : (k == t.size) ≡ false = ground arith in
    let inside = λ (m : ℕ). get_or-set t.rows k m (row r) empty (omega (arith, v.whole)) in
    (
      t',
      k,
      rw (add_row, ran, ne),
      v',
      hk,
      rw (get_item_inside t v k hk, free),
      rw (
        get_item_inside t' v' k hk,
        get_or-set_self t.rows k (row r) empty (omega (arith, v.whole)),
      ),
      λ m. before m (omega arith),
      λ m hm other.
          let differ : (k == m) ≡ false = ground (arith, other) in
          rw (get_item_inside t' v' m hm, get_item_inside t v m hm, inside m, differ),
    )

-- On a valid table that is full, `_dmap_add_row` reads the slot behind the last one, outside the
-- array, before it compares the index with the size, whatever item is added; it does not run out of
-- fuel.
pub add_item-full :
    (t : Table) (item : Ptr)
    → IsTable t
    → ((m : ℕ) → m < t.size → at t m ≢ empty)
    → add_item t item ≡ outside
unfolding add_item add_row
add_item-full t item v full =
    rw (add_row, add_loop-full t v (t.size + 1) 0 (omega arith) (omega arith) full)
