-- ===== src/BinTree/Tests.antt =====
-- Small trees, and the theorems at them.
use devclego.Prelude.{
  List, Option, [], arith, none, refl, some, word, ℕ, ◌%◌, ◌++◌, ◌+◌, ◌>>=◌, ◌∷◌, ◌≡◌, ◌⊎◌,
}
use devclego.Store.{Ptr, null}
use devclego.Puffer.{
  datapuffer_ctor, datapuffer_isempty, datapuffer_isfull, datapuffer_write, datapuffer_read,
}
use devclego.BinTree.{
  bintreecmp_int32, trash_bintreenode, Cell, Tree, leaf, node, BinTree, make_bintree, insert_data,
  cells,
}
use devclego.BinTree.Remove.{
  delete_value, pop_from_tree, get_refnum, get_nodenum, get_top_data, get_bottom_data, pop_top_data,
  pop_bottom_data, pop_top_node, has_value,
}
use devclego.BinTree.Cells.{uses, occurs, addresses, first_address, last_address}
use devclego.BinTree.Inv.{Sorted, Entry, entry_of, entries, key, Below, Above, IsMemory, IsTree}
use devclego.BinTree.Table.{enter, lookup, without, holds, release}
use devclego.BinTree.Enter.{IsFresh}
use devclego.BinTree.Making.{make_bintree-IsTree}
use devclego.BinTree.Refine.{
  insert_data-refines, pop_from_tree-refines, delete_value-refines, has_value-refines,
}
use devclego.BinTree.Extremes.{
  get_top_data-greatest, get_bottom_data-least, pop_top_data-refines, pop_bottom_data-refines,
  pop_top_node-refines,
}

-- Every pointer below 1000 points at its own number.
abbrev small_memory : ℕ → ℕ
small_memory p = p % word

small_memory-IsMemory : IsMemory small_memory
small_memory-IsMemory p = omega arith

abbrev no_nodes : BinTree
no_nodes = make_bintree none

-- A tree of a list of items, in order; the node of the `n`-th is at `1000 + n`.
abbrev grow : ℕ → BinTree → List Ptr → Option BinTree
grow n t [] = some t
grow n t (x ∷ xs) = insert_data small_memory (1000 + n) t x >>= λ t'. grow (n + 1) t' xs

abbrev numbers : Option BinTree → ℕ × ℕ
numbers none = (0, 0)
numbers (some t) = (get_nodenum t, get_refnum t)

insert_data-counts : numbers (grow 0 no_nodes (2 ∷ 1 ∷ 1 ∷ 3 ∷ [])) ≡ (3, 4)
unfolding insert_data get_nodenum get_refnum make_bintree datapuffer_isempty datapuffer_ctor
    bintreecmp_int32 trash_bintreenode datapuffer_isfull datapuffer_write datapuffer_read
insert_data-counts = refl

-- The data of a node with two children are replaced by those of one with the count 2: one item is
-- deleted, and the number of references falls by 2.
delete_value-miscounts :
    numbers (grow 0 no_nodes (2 ∷ 1 ∷ 1 ∷ 3 ∷ []) >>= λ t. delete_value small_memory 5 t 2) ≡ (2, 2)
unfolding insert_data delete_value get_nodenum get_refnum make_bintree datapuffer_isempty
    datapuffer_ctor bintreecmp_int32 datapuffer_isfull datapuffer_write datapuffer_read
delete_value-miscounts = refl

-- Three nodes, the middle one at the root; 1 was inserted twice.
abbrev left_tree : Tree
left_tree = node leaf (record { address = 1001; item = 1; ref = 2 }) leaf

abbrev right_tree : Tree
right_tree = node leaf (record { address = 1003; item = 3; ref = 1 }) leaf

abbrev three : BinTree
three = record no_nodes {
  root = node left_tree (record { address = 1000; item = 2; ref = 1 }) right_tree;
  bottom = 1001;
  top = 1003;
  node_counter = 3;
  duplicate_counter = 1;
}

three-IsTree : IsTree small_memory three []
unfolding make_bintree cells entries occurs addresses Sorted Above first_address last_address
three-IsTree =
    let start = make_bintree-IsTree small_memory none in
    record {
      sorted = ((omega arith, (omega arith, tt)), ((omega arith, tt), (tt, tt)));
      unique = λ a. ground arith;
      real = refl;
      top_at = refl;
      bottom_at = refl;
      ring = start.ring;
      spare = start.spare;
      counted = refl;
      small = omega arith;
    }

abbrev entries_of : BinTree → List Entry
entries_of t = entries (cells t.root)

-- Two equal items come to a node with children.
three-IsFresh : IsFresh three [] 1002
unfolding cells occurs addresses
three-IsFresh = record { apart = refl; real = refl }

insert_data-refines_example :
    (t' : BinTree) × (spares' : List Ptr) × (insert_data small_memory 1002 three 2 ≡ some t')
    × IsTree small_memory t' spares'
    × (entries_of t' ≡ enter small_memory (record { item = 2; ref = 1 }) (entries_of three))
unfolding cells
insert_data-refines_example =
    insert_data-refines small_memory small_memory-IsMemory 1002 three [] 2 three-IsTree
      three-IsFresh (omega arith)

pop_from_tree-refines_example :
    (t' : BinTree) × (out : Option Cell) × (pop_from_tree small_memory 4 three 2 ≡ some (t', out))
    × IsTree small_memory t' []
    × (entries_of t' ≡ without small_memory (key small_memory 2) (entries_of three))
    × (entry_of out ≡ lookup small_memory (key small_memory 2) (entries_of three))
    × ((c : Cell) → out ≡ some c → uses c.address (cells t'.root) + occurs c.address [] ≡ 0)
unfolding cells
pop_from_tree-refines_example =
    pop_from_tree-refines small_memory small_memory-IsMemory 4 three [] 2 three-IsTree (omega arith)

delete_value-refines_example :
    (t' : BinTree) × (spares' : List Ptr) × (delete_value small_memory 3 three 2 ≡ some t')
    × IsTree small_memory t' spares'
    × (entries_of t' ≡ release small_memory (key small_memory 2) (entries_of three))
unfolding cells
delete_value-refines_example =
    delete_value-refines small_memory small_memory-IsMemory 3 three [] 2 three-IsTree (omega arith)

has_value-refines_example :
    has_value small_memory three 3 ≡ holds small_memory (key small_memory 3) (entries_of three)
has_value-refines_example =
    has_value-refines small_memory small_memory-IsMemory three [] 3 three-IsTree

get_top_data-greatest_example :
    ((entries_of three ≡ []) × (get_top_data three ≡ some null))
    ⊎ ((es : List Entry) × (e : Entry) × (entries_of three ≡ es ++ e ∷ [])
        × (get_top_data three ≡ some e.item)
        × Below small_memory (key small_memory e.item) es)
get_top_data-greatest_example = get_top_data-greatest small_memory three-IsTree

get_bottom_data-least_example :
    ((entries_of three ≡ []) × (get_bottom_data three ≡ some null))
    ⊎ ((e : Entry) × (es : List Entry) × (entries_of three ≡ e ∷ es)
        × (get_bottom_data three ≡ some e.item)
        × Above small_memory (key small_memory e.item) es)
get_bottom_data-least_example = get_bottom_data-least small_memory three-IsTree

pop_top_data-refines_example :
    (t' : BinTree) × (spares' : List Ptr) × (x : Ptr) × (get_top_data three ≡ some x)
    × (pop_top_data small_memory 3 three ≡ some (t', x))
    × IsTree small_memory t' spares'
    × (entries_of t' ≡ release small_memory (key small_memory x) (entries_of three))
unfolding cells
pop_top_data-refines_example =
    pop_top_data-refines small_memory three-IsTree small_memory-IsMemory 3 (omega arith)

pop_bottom_data-refines_example :
    (t' : BinTree) × (spares' : List Ptr) × (x : Ptr) × (get_bottom_data three ≡ some x)
    × (pop_bottom_data small_memory 3 three ≡ some (t', x))
    × IsTree small_memory t' spares'
    × (entries_of t' ≡ release small_memory (key small_memory x) (entries_of three))
unfolding cells
pop_bottom_data-refines_example =
    pop_bottom_data-refines small_memory three-IsTree small_memory-IsMemory 3 (omega arith)

pop_top_node-refines_example :
    (t' : BinTree) × (out : Option Cell) × (x : Ptr) × (get_top_data three ≡ some x)
    × (pop_top_node small_memory 4 three ≡ some (t', out))
    × IsTree small_memory t' []
    × (entries_of t' ≡ without small_memory (key small_memory x) (entries_of three))
    × (entry_of out ≡ lookup small_memory (key small_memory x) (entries_of three))
unfolding cells
pop_top_node-refines_example =
    pop_top_node-refines small_memory three-IsTree small_memory-IsMemory 4 (omega arith)
