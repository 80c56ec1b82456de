-- ===== src/DataMap/Walk.antt =====
-- The state of a table, the steps of `_dmap_itr_table`, and `dmap_itr_do`.
use mathlib.Core.List.{append-nil, append_assoc}
use devclego.Prelude.{
  List, [], add32, arith, false, get_elem?, get_elem?-eq-get_or, get_or, get_or-replicate, inl, inr,
  le_signed, length, length-replicate, lt_signed, rounds, sign, some, suc, true, zero, ℕ, ◌++◌, ◌+◌,
  ◌-◌, ◌<◌, ◌∷◌, ◌≡◌, ◌⊎◌,
}
use devclego.Store.{Ptr}
use devclego.DataMap.{
  Row, Slot, empty, dangling, row, Table, is_null, itr_loop, itr_table, itr_do_loop, itr_do,
  table_init,
}

-- The slot at an index.
abbrev pub at : Table → ℕ → Slot
at t i = get_or t.rows i empty

abbrev pub IsIntact : Slot → Type 0
IsIntact slot = (slot ≡ empty) ⊎ ((r : Row) × (slot ≡ row r))

-- Every slot is there, and none of them has a row that was given back.
pub record IsTable (t : Table) : Type 0 where
  pub small : t.size < sign
  pub whole : length t.rows ≡ t.size
  pub intact : (i : ℕ) → i < t.size → IsIntact (at t i)

pub lookup : (t : Table) → IsTable t → (i : ℕ) → i < t.size → get_elem? t.rows i ≡ some (at t i)
lookup t v i h = get_elem?-eq-get_or t.rows i empty (omega (arith, v.whole))

-- `_dmap_itr_table` at the end of the table, on a slot without a row, and on a row.
pub itr_end : (t : Table) → IsTable t → itr_table t t.size ≡ some (t.size, empty)
unfolding itr_table itr_loop
itr_end t v =
    let n : t.size - t.size ≡ 0 = omega arith in
    let s = v.small in
    let out : lt_signed t.size t.size ≡ false = ground arith in
    let at_end : le_signed t.size t.size ≡ true = ground arith in rw (n, out, at_end)

pub itr_skip :
    (t : Table)
    → IsTable t
    → (i : ℕ) → i < t.size
    → at t i ≡ empty
    → itr_table t i ≡ itr_table t (i + 1)
unfolding itr_table itr_loop is_null
itr_skip t v i h e =
    let s = v.small in
    let n : t.size - i ≡ suc (t.size - (i + 1)) = omega arith in
    let inside : lt_signed i t.size ≡ true = ground arith in
    let next : add32 i 1 ≡ i + 1 = omega arith in rw (n, inside, lookup t v i h, e, next)

pub itr_row :
    (t : Table)
    → IsTable t
    → (i : ℕ) (r : Row) → i < t.size
    → at t i ≡ row r
    → itr_table t i ≡ some (i, row r)
unfolding itr_table itr_loop is_null
itr_row t v i r h e =
    let s = v.small in
    let inside : lt_signed i t.size ≡ true = ground arith in
    let below : le_signed t.size i ≡ false = ground arith in
    rw (inside, lookup t v i h, e, below, lookup t v i h, e)

-- The items of the rows among the `n` slots from `i` on.
unfoldable pub item_of : Slot → List Ptr
item_of empty = []
item_of dangling = []
item_of (row r) = r.item ∷ []

unfoldable pub items_from : List Slot → (i n : ℕ) → List Ptr
items_from rows i zero = []
items_from rows i (suc n) = item_of (get_or rows i empty) ++ items_from rows (i + 1) n

itr_do_loop_lem :
    (n : ℕ) (t : Table)
    → IsTable t
    → (fuel i : ℕ) (calls : List Ptr) → i + n ≡ t.size
    → n < fuel
    → itr_do_loop fuel t i calls ≡ some (calls ++ items_from t.rows i n)
unfolding itr_do_loop items_from is_null item_of
itr_do_loop_lem zero t v zero i calls e f = absurd (omega (arith, f))
itr_do_loop_lem zero t v (suc fuel) i calls e f =
    let here : i ≡ t.size = omega (arith, e) in rw (here, itr_end t v, append-nil)
itr_do_loop_lem (suc n) t v zero i calls e f = absurd (omega (arith, f))
itr_do_loop_lem (suc n) t v (suc fuel) i calls e f =
    let next : add32 i 1 ≡ i + 1 = omega (arith, e, v.small) in
    elim (v.intact i (omega (arith, e))) [
      | inl is_empty ↦
          rw (itr_skip t v i (omega (arith, e)) is_empty, is_empty)
            (itr_do_loop_lem n t v (suc fuel) (i + 1) calls (omega (arith, e)) (omega (arith, f)))
      | inr (r, is_row) ↦
          let rest =
            itr_do_loop_lem n t v fuel (i + 1) (calls ++ r.item ∷ []) (omega (arith, e))
              (omega (arith, f)) in
          rw (itr_row t v i r (omega (arith, e)) is_row, is_row, next, rest, append_assoc)
    ]

-- `dmap_itr_do` calls the action once on the item of every row, in the order of the slots.
pub itr_do_lem : (t : Table) → IsTable t → itr_do t ≡ some (items_from t.rows 0 t.size)
unfolding itr_do
itr_do_lem t v = itr_do_loop_lem t.size t v (t.size + 1) 0 [] (omega arith) (omega arith)

-- `_dmap_table_init` makes a table of empty slots.
pub table_init-IsTable :
    (size : ℕ)
    → size < sign
    → IsTable (table_init size) × ((i : ℕ) → at (table_init size) i ≡ empty)
unfolding table_init
table_init-IsTable size small =
    let r : rounds size ≡ size = ground arith in
    let slots = λ (i : ℕ). get_or-replicate (rounds size) i empty in
    (
      record {
        small = small;
        whole = rw (length-replicate (rounds size) empty, r);
        intact = λ i h. inl (slots i);
      },
      slots,
    )
