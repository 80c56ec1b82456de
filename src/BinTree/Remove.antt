-- ===== src/BinTree/Remove.antt =====
-- The part of lib/lib_bintree.c that takes nodes out of the tree, and the calls of the users.
use devclego.Prelude.{
  Bool, Option, [], add32, if◌then◌else◌, lt_signed, none, not, some, sub32, suc, zero, ℕ, ◌==◌,
  ◌>>=◌,
}
use devclego.Store.{Ptr, null}
use devclego.BinTree.{
  Cell, Tree, leaf, node, BinTree, plug, get_rightest, cell_at, write_at, is_leaf, refresh,
  trash_bintreenode, search_value,
}

-- The link that takes the place of a node without two children; `none` where it has two.
unfoldable pub candidate_of : Tree → Tree → Option Tree
candidate_of leaf r = some r
candidate_of (node ll c lr) leaf = some (node ll c lr)
candidate_of (node ll c lr) (node rl d rr) = none

module _ (memory : ℕ → ℕ) where
  -- `_pop_from_tree`; it calls itself on the data of the node that takes the place, on fuel. The
  -- node that is returned has no links. NULL is `none`.
  unfoldable pub pop_from_tree : (fuel : ℕ) → BinTree → Ptr → Option (BinTree × Option Cell)
  unfolding search_value candidate_of plug refresh get_rightest cell_at write_at
  pop_from_tree zero t q = none
  pop_from_tree (suc fuel) t q =
      let (above, here) = search_value memory t.root [] q in
      elim here [
        | leaf ↦ some (t, none)
        | node l c r ↦ elim (candidate_of l r) [
          | some candidate ↦ some (
            refresh leaf c.address leaf (record t {
              root = plug above candidate;
              node_counter = sub32 t.node_counter 1;
              duplicate_counter = sub32 t.duplicate_counter (sub32 c.ref 1);
            }),
            some c,
          )
          | none ↦ (do
            candidate ← get_rightest l
            (t', popped) ← pop_from_tree fuel t candidate.item
            other ← popped
            this ← cell_at t'.root c.address
            some (
              refresh leaf other.address leaf
                  (record t' { root = write_at t'.root c.address other.item other.ref }),
              some (record other { item = this.item; ref = this.ref }),
            ))
        ]
      ]

  -- `_deref_from_tree`
  unfoldable pub deref_from_tree : (fuel : ℕ) → BinTree → Ptr → Option BinTree
  unfolding search_value candidate_of plug trash_bintreenode get_rightest write_at pop_from_tree
  deref_from_tree fuel t q =
      let (above, here) = search_value memory t.root [] q in
      elim here [
        | leaf ↦ some t
        | node l c r ↦
            if lt_signed 1 c.ref
            then some (record t {
              root = plug above (node l (record c { ref = sub32 c.ref 1 }) r);
              duplicate_counter = sub32 t.duplicate_counter 1;
            })
            else elim (candidate_of l r) [
              | some candidate ↦ (do
                t' ← trash_bintreenode l c.address r (record t { root = plug above candidate })
                some (record t' { node_counter = sub32 t'.node_counter 1 }))
              | none ↦ (do
                candidate ← get_rightest l
                (t', popped) ← pop_from_tree fuel t candidate.item
                other ← popped
                trash_bintreenode leaf other.address leaf
                    (record t' { root = write_at t'.root c.address other.item other.ref }))
            ]
      ]

  -- `bintree_delete_value` and `bintree_insert_node` are these calls under another name.
  unfoldable pub delete_value : (fuel : ℕ) → BinTree → Ptr → Option BinTree
  unfolding deref_from_tree
  delete_value fuel t q = deref_from_tree fuel t q

  unfoldable pub has_value : BinTree → Ptr → Bool
  unfolding search_value
  has_value t q = not (is_leaf (search_value memory t.root [] q).1)

  -- The nodes and the data at the two ends: NULL where the pointer is NULL.
  unfoldable pub pop_at : (fuel : ℕ) → BinTree → Ptr → Option (BinTree × Option Cell)
  unfolding cell_at pop_from_tree
  pop_at fuel t end =
      if end == null
      then some (t, none)
      else (do c ← cell_at t.root end; pop_from_tree fuel t c.item)

  unfoldable pub pop_top_node : (fuel : ℕ) → BinTree → Option (BinTree × Option Cell)
  unfolding pop_at
  pop_top_node fuel t = pop_at fuel t t.top

  unfoldable pub pop_bottom_node : (fuel : ℕ) → BinTree → Option (BinTree × Option Cell)
  unfolding pop_at
  pop_bottom_node fuel t = pop_at fuel t t.bottom

  unfoldable pub take_at : (fuel : ℕ) → BinTree → Ptr → Option (BinTree × Ptr)
  unfolding cell_at deref_from_tree
  take_at fuel t end =
      if end == null
      then some (t, null)
      else (do c ← cell_at t.root end; t' ← deref_from_tree fuel t c.item; some (t', c.item))

  unfoldable pub pop_top_data : (fuel : ℕ) → BinTree → Option (BinTree × Ptr)
  unfolding take_at
  pop_top_data fuel t = take_at fuel t t.top

  unfoldable pub pop_bottom_data : (fuel : ℕ) → BinTree → Option (BinTree × Ptr)
  unfolding take_at
  pop_bottom_data fuel t = take_at fuel t t.bottom

unfoldable pub data_at : BinTree → Ptr → Option Ptr
unfolding cell_at
data_at t end = if end == null then some null else do c ← cell_at t.root end; some c.item

unfoldable pub get_top_data : BinTree → Option Ptr
unfolding data_at
get_top_data t = data_at t t.top

unfoldable pub get_bottom_data : BinTree → Option Ptr
unfolding data_at
get_bottom_data t = data_at t t.bottom

unfoldable pub get_nodenum : BinTree → ℕ
get_nodenum t = t.node_counter

unfoldable pub get_refnum : BinTree → ℕ
get_refnum t = add32 t.node_counter t.duplicate_counter
