-- ===== src/BinTree/Extremes.antt =====
-- The calls of lib/lib_bintree.c on the two ends of the tree.
use devclego.Prelude.{
  List, Option, [], ap, arith, false, inl, inr, length, none, refl, some, ℕ, ◌++◌, ◌<◌, ◌==◌, ◌∙◌,
  ◌∷◌, ◌≡◌, ◌≤◌, ◌⊎◌,
}
use devclego.Store.{Ptr, null}
use devclego.BinTree.{Cell, BinTree, cells, cell_at}
use devclego.BinTree.Remove.{
  pop_at, pop_top_data, pop_bottom_data, pop_top_node, delete_value, data_at, take_at, get_top_data,
  get_bottom_data,
}
use devclego.BinTree.Cells.{
  occurs, addresses, uses, first_address, last_address, last_address-append,
}
use devclego.BinTree.Inv.{
  Entry, entry, entry_of, entries, entries-append, key, Below, Above, IsMemory, IsTree,
}
use devclego.BinTree.Table.{lookup, without, release}
use devclego.BinTree.Change.{uses-middle, Sorted-around}
use devclego.BinTree.Settle.{snoc_view, find_cell_unique}
use devclego.BinTree.Refine.{delete_value-refines, pop_from_tree-refines}

module _ (memory : ℕ → ℕ) {t : BinTree} {spares : List Ptr} (w : IsTree memory t spares) where
  -- An end names one of the nodes, or is NULL where there is none.
  record IsNamed (a : Ptr) : Type 0 where
    xs : List Cell
    cell : Cell
    ys : List Cell
    split : cells t.root ≡ xs ++ cell ∷ ys
    at_cell : a ≡ cell.address

  named-real : (a : Ptr) → IsNamed a → (a == null) ≡ false
  unfolding occurs addresses
  named-real a c =
      let none_there : uses null (c.cell ∷ []) ≡ 0 =
        omega (arith, w.real, ap (uses null) c.split, uses-middle null c.xs c.cell c.ys) in
      ground (arith, none_there, c.at_cell)

  cell_at-named : (a : Ptr) → (c : IsNamed a) → cell_at t.root a ≡ some c.cell
  unfolding cell_at
  cell_at-named a c = rw c.at_cell (
      find_cell_unique (cells t.root) c.xs c.cell c.ys c.split
        (omega (arith, w.unique c.cell.address)))

  data_at-named : (a : Ptr) → (c : IsNamed a) → data_at t a ≡ some c.cell.item
  unfolding data_at
  data_at-named a c = rw (named-real a c, cell_at-named a c) refl

  last_named :
      (y : Cell) (ys : List Cell) → cells t.root ≡ y ∷ ys → (c : IsNamed t.top) × (c.ys ≡ [])
  unfolding last_address
  last_named y ys e =
      let (ws, c, split) = snoc_view y ys in
      (
        record {
          xs = ws;
          cell = c;
          ys = [];
          split = e ∙ split;
          at_cell = w.top_at ∙ ap last_address (e ∙ split) ∙ last_address-append ws c [];
        },
        refl,
      )

  first_named :
      (y : Cell) (ys : List Cell) → cells t.root ≡ y ∷ ys → (c : IsNamed t.bottom) × (c.xs ≡ [])
  unfolding first_address
  first_named y ys e = (
    record { xs = []; cell = y; ys = ys; split = e; at_cell = w.bottom_at ∙ ap first_address e },
    refl,
  )

  List-cases : (cs : List Cell) → (cs ≡ []) ⊎ ((y : Cell) × (ys : List Cell) × (cs ≡ y ∷ ys))
  List-cases [] = inl refl
  List-cases (y ∷ ys) = inr (y, ys, refl)

  -- `bintree_get_top_data` gives the datum of the greatest key, and NULL where the table is empty.
  pub get_top_data-greatest :
      ((entries (cells t.root) ≡ []) × (get_top_data t ≡ some null))
      ⊎ ((es : List Entry) × (e : Entry) × (entries (cells t.root) ≡ es ++ e ∷ [])
          × (get_top_data t ≡ some e.item)
          × Below memory (key memory e.item) es)
  unfolding get_top_data data_at entries last_address
  get_top_data-greatest = elim (List-cases (cells t.root)) [
    | inl e ↦ inl (ap entries e, rw (w.top_at, e) refl)
    | inr (y, ys, e) ↦
        let (c, at_end) = last_named y ys e in
        let split : cells t.root ≡ c.xs ++ c.cell ∷ [] =
          c.split ∙ ap (λ z. c.xs ++ c.cell ∷ z) at_end in
        let (_, _, b, _) = Sorted-around memory w c.xs c.cell [] split in
        inr (
          entries c.xs,
          entry c.cell,
          ap entries split ∙ entries-append c.xs (c.cell ∷ []),
          data_at-named t.top c,
          b,
        )
  ]

  -- `bintree_get_bottom_data` gives the datum of the least key, and NULL where the table is empty.
  pub get_bottom_data-least :
      ((entries (cells t.root) ≡ []) × (get_bottom_data t ≡ some null))
      ⊎ ((e : Entry) × (es : List Entry) × (entries (cells t.root) ≡ e ∷ es)
          × (get_bottom_data t ≡ some e.item)
          × Above memory (key memory e.item) es)
  unfolding get_bottom_data data_at entries first_address first_named
  get_bottom_data-least = elim (List-cases (cells t.root)) [
    | inl e ↦ inl (ap entries e, rw (w.bottom_at, e) refl)
    | inr (y, ys, e) ↦
        let (c, _) = first_named y ys e in
        let (_, _, _, a) = Sorted-around memory w [] y ys e in
        inr (entry y, entries ys, ap entries e, data_at-named t.bottom c, a)
  ]

  -- A call that takes the datum at an end.
  take_at-named :
      IsMemory memory
      → (fuel : ℕ) (a : Ptr) → length (cells t.root) ≤ fuel
      → ((cells t.root ≡ []) × (a ≡ null)) ⊎ IsNamed a
      → (t' : BinTree) × (spares' : List Ptr) × (x : Ptr) × (data_at t a ≡ some x)
        × (take_at memory fuel t a ≡ some (t', x))
        × IsTree memory t' spares'
        × (entries (cells t'.root) ≡ release memory (key memory x) (entries (cells t.root)))
  unfolding take_at data_at delete_value release entries
  take_at-named m fuel a enough (inl (e, none_there)) =
      (t, spares, null, rw none_there refl, rw none_there refl, w, rw e refl)
  take_at-named m fuel a enough (inr c) =
      let (t', spares', run, w', stands) =
        delete_value-refines memory m fuel t spares c.cell.item w enough in
      (
        t',
        spares',
        c.cell.item,
        data_at-named a c,
        rw (named-real a c, cell_at-named a c, run) refl,
        w',
        stands,
      )

  top_view : ((cells t.root ≡ []) × (t.top ≡ null)) ⊎ IsNamed t.top
  unfolding last_address
  top_view = elim (List-cases (cells t.root)) [
    | inl e ↦ inl (e, w.top_at ∙ ap last_address e)
    | inr (y, ys, e) ↦ inr (last_named y ys e).0
  ]

  bottom_view : ((cells t.root ≡ []) × (t.bottom ≡ null)) ⊎ IsNamed t.bottom
  unfolding first_address
  bottom_view = elim (List-cases (cells t.root)) [
    | inl e ↦ inl (e, w.bottom_at ∙ ap first_address e)
    | inr (y, ys, e) ↦ inr (first_named y ys e).0
  ]

  -- `bintree_pop_top_data` gives what `bintree_get_top_data` gives, and takes one off its count.
  pub pop_top_data-refines :
      IsMemory memory
      → (fuel : ℕ) → length (cells t.root) ≤ fuel
      → (t' : BinTree) × (spares' : List Ptr) × (x : Ptr) × (get_top_data t ≡ some x)
        × (pop_top_data memory fuel t ≡ some (t', x))
        × IsTree memory t' spares'
        × (entries (cells t'.root) ≡ release memory (key memory x) (entries (cells t.root)))
  unfolding get_top_data pop_top_data
  pop_top_data-refines m fuel enough = take_at-named m fuel t.top enough top_view

  -- `bintree_pop_bottom_data` gives what `bintree_get_bottom_data` gives, and takes one off its count.
  pub pop_bottom_data-refines :
      IsMemory memory
      → (fuel : ℕ) → length (cells t.root) ≤ fuel
      → (t' : BinTree) × (spares' : List Ptr) × (x : Ptr) × (get_bottom_data t ≡ some x)
        × (pop_bottom_data memory fuel t ≡ some (t', x))
        × IsTree memory t' spares'
        × (entries (cells t'.root) ≡ release memory (key memory x) (entries (cells t.root)))
  unfolding get_bottom_data pop_bottom_data
  pop_bottom_data-refines m fuel enough = take_at-named m fuel t.bottom enough bottom_view

  -- A call that takes the node at an end.
  pop_at-named :
      IsMemory memory
      → (fuel : ℕ) (a : Ptr) → length (cells t.root) < fuel
      → ((cells t.root ≡ []) × (a ≡ null)) ⊎ IsNamed a
      → (t' : BinTree) × (out : Option Cell) × (x : Ptr) × (data_at t a ≡ some x)
        × (pop_at memory fuel t a ≡ some (t', out))
        × IsTree memory t' spares
        × (entries (cells t'.root) ≡ without memory (key memory x) (entries (cells t.root)))
        × (entry_of out ≡ lookup memory (key memory x) (entries (cells t.root)))
  unfolding pop_at data_at without lookup entries
  pop_at-named m fuel a enough (inl (e, none_there)) =
      (t, none, null, rw none_there refl, rw none_there refl, w, rw e refl, rw e refl)
  pop_at-named m fuel a enough (inr c) =
      let (t', out, run, w', stands, given, _) =
        pop_from_tree-refines memory m fuel t spares c.cell.item w enough in
      (
        t',
        out,
        c.cell.item,
        data_at-named a c,
        rw (named-real a c, cell_at-named a c, run) refl,
        w',
        stands,
        given,
      )

  -- `bintree_pop_top_node` takes out the node of what `bintree_get_top_data` gives, with its count.
  pub pop_top_node-refines :
      IsMemory memory
      → (fuel : ℕ) → length (cells t.root) < fuel
      → (t' : BinTree) × (out : Option Cell) × (x : Ptr) × (get_top_data t ≡ some x)
        × (pop_top_node memory fuel t ≡ some (t', out))
        × IsTree memory t' spares
        × (entries (cells t'.root) ≡ without memory (key memory x) (entries (cells t.root)))
        × (entry_of out ≡ lookup memory (key memory x) (entries (cells t.root)))
  unfolding get_top_data pop_top_node
  pop_top_node-refines m fuel enough = pop_at-named m fuel t.top enough top_view
