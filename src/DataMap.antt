-- ===== src/DataMap.antt =====
-- dmap/dmap.c: the tables of the managed data map, and the functions that the macros of
-- dmap/dmap_predefs.h make from them. A slot of a table holds NULL, a row, or a row that was given
-- back; each row is made by `make_row`, whose allocation is taken to succeed, and is in one slot. Reading a row that was given back, or a
-- slot outside the table, is a fault, `none`; the loop that looks for a free slot tells a read outside
-- the table from fuel that ran out. A list of pointers holds the calls of destructors.
-- Logging, the name of the table and the locks are left out.
pub mod Walk
pub mod Add
pub mod Deinit
pub mod Removal
mod Tests
use devclego.Prelude.{
  Bool, List, Option, [], add32, false, get_elem?, if◌then◌else◌, le_signed, lt_signed, none, not,
  replicate, rounds, set, some, suc, true, word, zero, ℕ, ◌&&◌, ◌++◌, ◌+◌, ◌-◌, ◌==◌, ◌||◌, ◌∷◌,
  ◌>>=◌, ◌>>◌,
}
use devclego.Store.{Ptr, null}

-- `dmap_row_t`; `has_dtor` says whether `dtor` is not NULL.
pub record Row : Type 0 where
  pub item : Ptr
  pub has_dtor : Bool

pub data Slot : Type 0 where
  empty dangling : Slot
  row : Row → Slot

-- `dmap_table_t`
pub record Table : Type 0 where
  pub size : ℕ
  pub rows : List Slot

-- What comes of a loop that may read outside the table, or run out of fuel.
pub data Search (A : Type 0) : Type 0 where
  returned : A → Search A
  outside out_of_fuel : Search A

unfoldable pub is_null : Slot → Bool
is_null empty = true
is_null dangling = false
is_null (row r) = false

abbrev pub error_full : ℕ
error_full = word - 1

abbrev pub error_add : ℕ
error_add = word - 2

-- `_dmap_row_dtor`: the calls of the row's destructor.
unfoldable pub row_dtor : Row → List Ptr
row_dtor r = if r.item == null then [] else (if r.has_dtor then r.item ∷ [] else [])

-- `_make_dmap_row`
unfoldable pub make_row : Ptr → Bool → Row
make_row item has_dtor = record { item = item; has_dtor = has_dtor }

unfoldable pub table_init : ℕ → Table
table_init size = record { size = size; rows = replicate (rounds size) empty }

-- The loop of `_dmap_itr_table`, on fuel; it reads a slot only below `size`.
unfoldable pub itr_loop : (fuel : ℕ) → Table → ℕ → Option ℕ
unfolding is_null
itr_loop zero t index = none
itr_loop (suc fuel) t index =
    let rest = itr_loop fuel t (add32 index 1) in
    if lt_signed index t.size
    then (do slot ← get_elem? t.rows index; if is_null slot then rest else some index)
    else some index

-- The new index, and the row unless there is none.
unfoldable pub itr_table : Table → ℕ → Option (ℕ × Slot)
unfolding itr_loop
itr_table t index = do
  found ← itr_loop (suc (t.size - index)) t index
  if le_signed t.size found
      then some (found, empty)
      else (do slot ← get_elem? t.rows found; some (found, slot))

-- The data of a row through its pointer.
unfoldable pub deref : Slot → Option Row
deref empty = none
deref dangling = none
deref (row r) = some r

-- NULL outside the table and where there is no row.
unfoldable pub get_item : Table → ℕ → Option Ptr
unfolding is_null deref
get_item t index = if lt_signed index 0 || le_signed t.size index then some null else (do
  slot ← get_elem? t.rows index
  if is_null slot then some null else do r ← deref slot; some r.item)

-- `_dmap_rem`
unfoldable pub rem : Table → ℕ → Option (Table × List Ptr)
unfolding is_null deref row_dtor
rem t index = if lt_signed index 0 || le_signed t.size index then some (t, []) else (do
  slot ← get_elem? t.rows index
  if is_null slot
      then some (t, [])
      else (do r ← deref slot; some (record t { rows = set t.rows index empty }, row_dtor r)))

-- The loop of `_dmap_rem_item`, on fuel: it goes on while the rows hold `item`.
unfoldable pub rem_item_loop : (fuel : ℕ) → Table → Ptr → ℕ → Option (ℕ × Slot)
unfolding itr_table is_null deref
rem_item_loop zero t item index = none
rem_item_loop (suc fuel) t item index = do
  (found, slot) ← itr_table t index
  let rest = rem_item_loop fuel t item (add32 found 1) in
      if is_null slot
      then some (found, slot)
      else (do r ← deref slot; if item == r.item then rest else some (found, slot))

-- `_dmap_rem_item` gives the row back and leaves its slot as it is.
unfoldable pub rem_item : Table → Ptr → Option (Table × List Ptr)
unfolding rem_item_loop deref row_dtor
rem_item t item = do
  (index, slot) ← rem_item_loop (t.size + 1) t item 0
  if index == t.size
      then some (t, [])
      else (do r ← deref slot; some (record t { rows = set t.rows index dangling }, row_dtor r))

-- The loop of `_dmap_add_row`, on fuel; it reads the slot before it compares the index.
unfoldable pub add_loop : (fuel : ℕ) → Table → ℕ → Search ℕ
unfolding is_null
add_loop zero t result = out_of_fuel
add_loop (suc fuel) t result =
    let rest = add_loop fuel t (add32 result 1) in
    elim (get_elem? t.rows result) [
      | none ↦ outside
      | some slot ↦ if not (is_null slot) && lt_signed result t.size then rest else returned result
    ]

-- A row, or `none` for NULL, and what the call returns.
unfoldable pub add_row : Table → Option Row → Search (Table × ℕ)
unfolding add_loop
add_row t none = returned (t, error_add)
add_row t (some r) = elim (add_loop (t.size + 1) t 0) [
  | returned result ↦
      if result == t.size
      then returned (t, error_full)
      else returned (record t { rows = set t.rows result (row r) }, result)
  | outside ↦ outside
  | out_of_fuel ↦ out_of_fuel
]

-- The loop of `_dmap_table_deinit`, on fuel.
unfoldable pub deinit_loop : (fuel : ℕ) → Table → ℕ → List Ptr → Option (Table × List Ptr)
unfolding itr_table rem is_null
deinit_loop zero t index calls = none
deinit_loop (suc fuel) t index calls = do
  (found, slot) ← itr_table t index
  let round : Option (Table × List Ptr) = do
    (t', destroyed) ← rem t found
    deinit_loop fuel t' (add32 found 1) (calls ++ destroyed)
    in if is_null slot then some (t, calls) else round

unfoldable pub table_deinit : Table → Option (Table × List Ptr)
unfolding deinit_loop
table_deinit t = deinit_loop (t.size + 1) t 0 []

-- The loop of `dmap_itr_do` over the table, on fuel: the arguments of the calls of `action`.
unfoldable pub itr_do_loop : (fuel : ℕ) → Table → ℕ → List Ptr → Option (List Ptr)
unfolding itr_table is_null deref
itr_do_loop zero t index calls = none
itr_do_loop (suc fuel) t index calls = do
  (found, slot) ← itr_table t index
  let round : Option (List Ptr) = do
    r ← deref slot
    itr_do_loop fuel t (add32 found 1) (calls ++ r.item ∷ [])
    in if is_null slot then some calls else round

unfoldable pub itr_do : Table → Option (List Ptr)
unfolding itr_do_loop
itr_do t = itr_do_loop (t.size + 1) t 0 []

-- What `DMAP_DEF_TABLE_ADD_SPECT_PROC` makes.
unfoldable pub add_item : Table → Ptr → Search (Table × ℕ)
unfolding add_row make_row
add_item t item = add_row t (some (make_row item true))
