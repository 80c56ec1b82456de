-- ===== src/DataMap/Deinit.antt =====
-- `_dmap_rem` by an index, and `_dmap_table_deinit`.
use devclego.Prelude.{
  Bool-cases, List, [], add32, ap, arith, dec_lt, false, get_or, get_or-outside, get_or-set,
  get_or-set_self, if◌then◌else◌, inl, inr, le_signed, length, lt_signed, not, refl, set, some, suc,
  sym, true, word, zero, ℕ, ℕ_discrete, ◌&&◌, ◌++◌, ◌+◌, ◌<◌, ◌==◌, ◌||◌, ◌∙◌, ◌∷◌, ◌≡◌, ◌≢◌, ◌≤◌,
}
use devclego.Store.{Ptr, null}
use devclego.DataMap.{
  Row, Slot, empty, dangling, row, Table, is_null, get_item, row_dtor, rem, deinit_loop,
  table_deinit,
}
use mathlib.Core.List.{append-nil, append_assoc}
use devclego.DataMap.Walk.{at, IsTable, lookup, itr_end, itr_skip, itr_row}
use devclego.DataMap.Add.{get_item_inside, get_item_outside, set-IsTable, read_slot}

-- The table without what its slot `i` had.
abbrev pub cleared : Table → ℕ → Table
cleared t i = record t { rows = set t.rows i empty }

-- What the destructor gets from a slot: its item, where there is a row with a destructor and an
-- item that is not NULL.
unfoldable pub destroyed : Slot → List Ptr
destroyed empty = []
destroyed dangling = []
destroyed (row r) = if r.has_dtor && not (r.item == null) then r.item ∷ [] else []

row_dtor-destroyed : (r : Row) → row_dtor r ≡ destroyed (row r)
unfolding row_dtor destroyed
row_dtor-destroyed r = elim (Bool-cases (r.item == null)) [
  | inl no_item ↦ elim (Bool-cases r.has_dtor) [
    | inl has ↦ rw (no_item, has)
    | inr has_not ↦ rw (no_item, has_not)
  ]
  | inr an_item ↦ elim (Bool-cases r.has_dtor) [
    | inl has ↦ rw (an_item, has)
    | inr has_not ↦ rw (an_item, has_not)
  ]
]

pub rem_row :
    (t : Table)
    → IsTable t
    → (i : ℕ) (r : Row) → i < t.size
    → at t i ≡ row r
    → rem t i ≡ some (cleared t i, destroyed (row r))
unfolding rem is_null
rem_row t v i r h e =
    let s = v.small in
    let low : lt_signed i 0 ≡ false = ground arith in
    let high : le_signed t.size i ≡ false = ground arith in
    rw (low, high, lookup t v i h, e, row_dtor-destroyed r)

rem_empty : (t : Table) → IsTable t → (i : ℕ) → i < t.size → at t i ≡ empty → rem t i ≡ some (t, [])
unfolding rem is_null
rem_empty t v i h e =
    let s = v.small in
    let low : lt_signed i 0 ≡ false = ground arith in
    let high : le_signed t.size i ≡ false = ground arith in rw (low, high, lookup t v i h, e)

rem_outside : (t : Table) → IsTable t → (i : ℕ) → t.size ≤ i → i < word → rem t i ≡ some (t, [])
unfolding rem
rem_outside t v i h w =
    let s = v.small in
    let out : (lt_signed i 0 || le_signed t.size i) ≡ true = ground arith in rw out

unfoldable pub destroyed_from : List Slot → (i n : ℕ) → List Ptr
destroyed_from rows i zero = []
destroyed_from rows i (suc n) = destroyed (get_or rows i empty) ++ destroyed_from rows (i + 1) n

-- A write before the slots counts for nothing.
destroyed_from-set :
    (n : ℕ) (rows : List Slot) (i k : ℕ) (slot : Slot)
    → i < length rows
    → i < k
    → destroyed_from (set rows i slot) k n ≡ destroyed_from rows k n
unfolding destroyed_from
destroyed_from-set zero rows i k slot h lt = refl
destroyed_from-set (suc n) rows i k slot h lt =
    let ne : (i == k) ≡ false = ground arith in
    rw (
      get_or-set rows i k slot empty h,
      ne,
      destroyed_from-set n rows i (k + 1) slot h (omega (arith, lt)),
    )

-- How the loop ends from the index `i`, `n` slots before the end.
abbrev Ended : Table → ℕ → ℕ → List Ptr → ℕ → Type 0
Ended t i n calls fuel =
    (t' : Table) × (deinit_loop fuel t i calls ≡ some (t', calls ++ destroyed_from t.rows i n))
    × IsTable t'
    × (t'.size ≡ t.size)
    × ((m : ℕ) → m < i → at t' m ≡ at t m)
    × ((m : ℕ) → i ≤ m → m < t.size → at t' m ≡ empty)

deinit_end :
    (t : Table) (i fuel : ℕ) (calls : List Ptr)
    → IsTable t
    → i ≡ t.size
    → Ended t i 0 calls (suc fuel)
unfolding deinit_loop destroyed_from is_null
deinit_end t i fuel calls v e =
    (t, rw (e, itr_end t v, append-nil), v, refl, λ m h. refl, λ m p q. absurd (omega arith))

deinit_skip :
    (t : Table) (i n fuel : ℕ) (calls : List Ptr)
    → IsTable t
    → i < t.size
    → at t i ≡ empty
    → Ended t (i + 1) n calls (suc fuel)
    → Ended t i (suc n) calls (suc fuel)
unfolding deinit_loop destroyed_from destroyed
deinit_skip t i n fuel calls v h e (t', ran, v', size, before, behind) = (
  t',
  rw (itr_skip t v i h e, e) ran,
  v',
  size,
  λ m p. before m (omega arith),
  λ m p q. elim (ℕ_discrete i m) [
    | yes same ↦ ap (at t') (sym same) ∙ before i (omega arith) ∙ e
    | no other ↦ behind m (omega (arith, other)) q
  ],
)

deinit_row :
    (t : Table) (i n fuel : ℕ) (calls : List Ptr) (r : Row)
    → IsTable t
    → i < t.size
    → at t i ≡ row r
    → Ended (cleared t i) (i + 1) n (calls ++ destroyed (row r)) fuel
    → Ended t i (suc n) calls (suc fuel)
unfolding deinit_loop destroyed_from is_null
deinit_row t i n fuel calls r v h e (t', ran, v', size, before, behind) =
    let s = v.small in
    let next : add32 i 1 ≡ i + 1 = omega arith in
    let here = λ (m : ℕ). get_or-set t.rows i m empty empty (omega (arith, v.whole)) in
    let same = destroyed_from-set n t.rows i (i + 1) empty (omega (arith, v.whole)) (omega arith) in
    (
      t',
      rw (itr_row t v i r h e, e, rem_row t v i r h e, next, ran, same, append_assoc),
      v',
      size,
      λ m p. let ne : (i == m) ≡ false = ground arith in before m (omega arith) ∙ rw (here m, ne),
      λ m p q. elim (ℕ_discrete i m) [
        | yes eq ↦
            rw (sym eq) (
              before i (omega arith)
              ∙ get_or-set_self t.rows i empty empty (omega (arith, v.whole)))
        | no other ↦ behind m (omega (arith, other)) q
      ],
    )

deinit_loop_lem :
    (n : ℕ) (t : Table) (fuel i : ℕ) (calls : List Ptr)
    → IsTable t
    → i + n ≡ t.size
    → n < fuel
    → Ended t i n calls fuel
deinit_loop_lem zero t zero i calls v e f = absurd (omega (arith, f))
deinit_loop_lem zero t (suc fuel) i calls v e f = deinit_end t i fuel calls v (omega (arith, e))
deinit_loop_lem (suc n) t zero i calls v e f = absurd (omega (arith, f))
deinit_loop_lem (suc n) t (suc fuel) i calls v e f =
    let h : i < t.size = omega (arith, e) in
    elim (v.intact i h) [
      | inl is_empty ↦
          deinit_skip t i n fuel calls v h is_empty
            (deinit_loop_lem n t (suc fuel) (i + 1) calls v (omega (arith, e)) (omega (arith, f)))
      | inr (r, is_row) ↦ deinit_row t i n fuel calls r v h is_row (
          deinit_loop_lem n (cleared t i) fuel (i + 1) (calls ++ destroyed (row r))
            (set-IsTable t i empty v h (inl refl)) (omega (arith, e)) (omega (arith, f)))
    ]

-- `_dmap_table_deinit` on a valid table calls the destructor of every row that has one and whose
-- item is not NULL, once and with the item, in the order of the slots, and no other; it leaves a
-- valid table of the same size whose slots are all empty.
pub table_deinit_lem :
    (t : Table)
    → IsTable t
    → (t' : Table) × (table_deinit t ≡ some (t', destroyed_from t.rows 0 t.size))
      × IsTable t'
      × (t'.size ≡ t.size)
      × ((m : ℕ) → m < t.size → at t' m ≡ empty)
unfolding table_deinit
table_deinit_lem t v =
    let (t', ran, v', size, before, behind) =
      deinit_loop_lem t.size t (t.size + 1) 0 [] v (omega arith) (omega arith) in
    (t', ran, v', size, λ m. behind m (omega arith))

-- What `_dmap_rem` does to every index that is a number of 32 bits, outside the table too: the item
-- there, and no other, is gone and the table is valid again.
pub rem_lem :
    (t : Table) (i : ℕ)
    → IsTable t
    → i < word
    → (t' : Table) × (rem t i ≡ some (t', destroyed (at t i)))
      × IsTable t'
      × (get_item t' i ≡ some null)
      × ((m : ℕ) → m < t.size → m ≢ i → get_item t' m ≡ get_item t m)
unfolding destroyed read_slot
rem_lem t i v w = elim (dec_lt i t.size) [
  | no out ↦
      let gone : at t i ≡ empty = get_or-outside t.rows i empty (omega (arith, v.whole)) in
      (
        t,
        rw gone (rem_outside t v i (omega arith) w),
        v,
        get_item_outside t v i (omega arith) w,
        λ m h ne. refl,
      )
  | yes h ↦ elim (v.intact i h) [
    | inl e ↦ (t, rw e (rem_empty t v i h e), v, rw (get_item_inside t v i h, e), λ m p ne. refl)
    | inr (r, e) ↦
        let t' : Table = cleared t i in
        let v' : IsTable t' = set-IsTable t i empty v h (inl refl) in
        (
          t',
          rw e (rem_row t v i r h e),
          v',
          rw (
            get_item_inside t' v' i h,
            get_or-set_self t.rows i empty empty (omega (arith, v.whole)),
          ),
          λ m p ne.
              let differ : (i == m) ≡ false = ground (arith, ne) in
              rw (
                get_item_inside t' v' m p,
                get_item_inside t v m p,
                get_or-set t.rows i m empty empty (omega (arith, v.whole)),
                differ,
              ),
        )
  ]
]
