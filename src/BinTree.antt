-- ===== src/BinTree.antt =====
-- lib/lib_bintree.c: a search tree of pointers whose nodes count how often a value was inserted.
-- A node stands in the tree with its address; `left` and `right` are its subtrees, and a node has
-- one parent, so the parent that a search returns is the way back to the root. `top`, `bottom` and
-- the spare nodes are addresses. Reading a node that is not in the tree through such an address is a
-- fault, `none`, and so is fuel that ran out. Printing is left out.
pub mod Cells
pub mod Inv
pub mod Table
pub mod Ends
pub mod Change
pub mod Search
pub mod Insert
pub mod Settle
pub mod Remove
pub mod Pop
pub mod Replace
pub mod Trash
pub mod Delete
pub mod Enter
pub mod Making
pub mod Refine
pub mod Extremes
mod Tests
use devclego.Prelude.{
  Bool, List, Option, [], add32, false, if◌then◌else◌, lt_signed, none, some, true, ℕ, ◌++◌, ◌==◌,
  ◌∷◌, ◌>>=◌, ◌>>◌,
}
use devclego.Store.{Ptr, null}
use devclego.Puffer.{
  Puffer, datapuffer_ctor, datapuffer_write, datapuffer_read, datapuffer_isfull, datapuffer_isempty,
}

-- `bintreenode_t` without its links, and its address.
pub record Cell : Type 0 where
  pub address : Ptr
  pub item : Ptr
  pub ref : ℕ

pub data Tree : Type 0 where
  leaf : Tree
  node : Tree → Cell → Tree → Tree

-- A step down to the left or to the right, with what it leaves aside.
pub data Frame : Type 0 where
  to_left : Cell → Tree → Frame
  to_right : Tree → Cell → Frame

-- `bintree_t`. `notices` holds the data that the duplicate notifier was called on, if it is set.
pub record BinTree : Type 0 where
  pub root : Tree
  pub bottom : Ptr
  pub top : Ptr
  pub recycle : Puffer Ptr
  pub node_counter : ℕ
  pub duplicate_counter : ℕ
  pub has_notifier : Bool
  pub notices : List Ptr

-- `bintreecmp_int32`, whose result is -1, 0 or 1: the numbers that two pointers point at.
pub data Comparison : Type 0 where
  less equal greater : Comparison

unfoldable pub bintreecmp_int32 : (memory : ℕ → ℕ) → Ptr → Ptr → Comparison
bintreecmp_int32 memory pa pb =
    if memory pa == memory pb
    then equal
    else (if lt_signed (memory pa) (memory pb) then less else greater)

-- The tree below the frames, back to the root: a write of the parent's link, or of `root`.
unfoldable pub plug : List Frame → Tree → Tree
plug [] t = t
plug (to_left c r ∷ above) t = plug above (node t c r)
plug (to_right l c ∷ above) t = plug above (node l c t)

-- `_get_rightest_value` and `_get_leftest_value`
unfoldable pub get_rightest : Tree → Option Cell
get_rightest leaf = none
get_rightest (node l c leaf) = some c
get_rightest (node l c (node rl d rr)) = get_rightest (node rl d rr)

unfoldable pub get_leftest : Tree → Option Cell
get_leftest leaf = none
get_leftest (node leaf c r) = some c
get_leftest (node (node ll d lr) c r) = get_leftest (node ll d lr)

abbrev pub address_of : Option Cell → Ptr
address_of none = null
address_of (some c) = c.address

-- A node through its address.
unfoldable pub cells : Tree → List Cell
cells leaf = []
cells (node l c r) = cells l ++ c ∷ cells r

unfoldable pub find_cell : List Cell → Ptr → Option Cell
find_cell [] a = none
find_cell (c ∷ cs) a = if c.address == a then some c else find_cell cs a

unfoldable pub cell_at : Tree → Ptr → Option Cell
unfolding find_cell cells
cell_at t a = find_cell (cells t) a

-- A write of the data and the count of the node at an address.
abbrev pub write_cell : Ptr → Ptr → ℕ → Cell → Cell
write_cell a item ref c = if c.address == a then record c { item = item; ref = ref } else c

unfoldable pub write_at : Tree → Ptr → Ptr → ℕ → Tree
write_at leaf a item ref = leaf
write_at (node l c r) a item ref =
    node (write_at l a item ref) (write_cell a item ref c) (write_at r a item ref)

abbrev pub is_leaf : Tree → Bool
is_leaf leaf = true
is_leaf (node l c r) = false

-- `make_bintree`
unfoldable pub make_bintree : (junk : Option Ptr) → BinTree
make_bintree junk = record {
  root = leaf;
  bottom = null;
  top = null;
  recycle = datapuffer_ctor junk 32;
  node_counter = 0;
  duplicate_counter = 0;
  has_notifier = false;
  notices = [];
}

-- `_refresh_top` and `_refresh_bottom`, where the node that they start from has this left, or right,
-- subtree.
unfoldable pub refresh_top : (left : Tree) → BinTree → BinTree
unfolding get_rightest
refresh_top left t = record t {
  top = address_of (if is_leaf left then get_rightest t.root else get_rightest left);
}

unfoldable pub refresh_bottom : (right : Tree) → BinTree → BinTree
unfolding get_leftest
refresh_bottom right t = record t {
  bottom = address_of (if is_leaf right then get_leftest t.root else get_leftest right);
}

-- The two tests that stand before a node leaves, in `_trash_bintreenode` and in `_pop_from_tree`.
unfoldable pub refresh : (left : Tree) → Ptr → (right : Tree) → BinTree → BinTree
unfolding refresh_top refresh_bottom
refresh left a right t =
    let t' : BinTree = if a == t.top then refresh_top left t else t in
    if a == t'.bottom then refresh_bottom right t' else t'

-- `_trash_bintreenode` on a node with these links. A node that is not kept is freed.
unfoldable pub trash_bintreenode : (left : Tree) → Ptr → (right : Tree) → BinTree → Option BinTree
unfolding refresh
trash_bintreenode left a right t =
    let t' = refresh left a right t in
    if datapuffer_isfull t'.recycle then some t' else (do
      recycle' ← datapuffer_write t'.recycle (some a)
      some (record t' { recycle = recycle' }))

-- `_make_bintreenode`; `fresh` is what `malloc` returns.
unfoldable pub make_bintreenode : (fresh : Ptr) → BinTree → Ptr → Option (BinTree × Cell)
make_bintreenode fresh t item =
    if datapuffer_isempty t.recycle
    then some (t, record { address = fresh; item = item; ref = 1 })
    else (do
      (recycle', read) ← datapuffer_read t.recycle
      a ← read
      some (record t { recycle = recycle' }, record { address = a; item = item; ref = 1 }))

-- How `_insert_into_tree` ends: the node is linked in, or it is merged into one that is there.
pub data Inserted : Type 0 where
  linked : Inserted
  merged : (into : Cell) → Inserted

module _ (memory : ℕ → ℕ) where
  -- `_search_value`: the frames above the node, the parent's first, and its subtree, or a leaf.
  unfoldable pub search_value : Tree → List Frame → Ptr → List Frame × Tree
  search_value leaf above q = (above, leaf)
  search_value (node l c r) above q = elim (bintreecmp_int32 memory q c.item) [
    | equal ↦ (above, node l c r)
    | less ↦ search_value l (to_left c r ∷ above) q
    | greater ↦ search_value r (to_right l c ∷ above) q
  ]

  -- The descent of `_insert_into_tree`, with the writes to the tree.
  unfoldable pub insert_into : Tree → Cell → Tree × Inserted
  insert_into leaf new = (node leaf new leaf, linked)
  insert_into (node l c r) new = elim (bintreecmp_int32 memory c.item new.item) [
    | equal ↦ (node l (record c { item = new.item; ref = add32 c.ref new.ref }) r, merged c)
    | less ↦ let (r', how) = insert_into r new in (node l c r', how)
    | greater ↦ let (l', how) = insert_into l new in (node l' c r, how)
  ]

  -- `_insert_into_tree`: the new state, and the address that is left in `*insert`.
  unfoldable pub insert_into_tree : BinTree → Cell → Option (BinTree × Ptr)
  unfolding insert_into
  insert_into_tree t new =
      let (root', how) = insert_into t.root new in
      elim how [
        | linked ↦
            some (record t { root = root'; node_counter = add32 t.node_counter 1 }, new.address)
        | merged into ↦ (do
          t' ← trash_bintreenode leaf new.address leaf (record t {
            root = root';
            notices = if t.has_notifier then t.notices ++ into.item ∷ [] else t.notices;
          })
          some (record t' { duplicate_counter = add32 t'.duplicate_counter 1 }, into.address))
      ]

  -- What `_insert` does after `_insert_into_tree`; the node left in `*insert`, at the address `a`,
  -- holds the data `item`, whatever the way.
  unfoldable pub settle_ends : BinTree → (a item : Ptr) → Option BinTree
  unfolding cell_at
  settle_ends t a item =
      if t.node_counter == 1 then some (record t { top = a; bottom = a }) else (do
        top ← cell_at t.root t.top
        bottom ← cell_at t.root t.bottom
        elim (bintreecmp_int32 memory top.item item) [
          | less ↦ some (record t { top = a })
          | _ ↦ elim (bintreecmp_int32 memory item bottom.item) [
            | less ↦ some (record t { bottom = a })
            | _ ↦ some t
          ]
        ])

  unfoldable pub insert : BinTree → Cell → Option BinTree
  unfolding insert_into_tree settle_ends
  insert t new = do (t', a) ← insert_into_tree t new; settle_ends t' a new.item

  unfoldable pub insert_data : (fresh : Ptr) → BinTree → Ptr → Option BinTree
  unfolding insert make_bintreenode
  insert_data fresh t item = do (t', new) ← make_bintreenode fresh t item; insert t' new
