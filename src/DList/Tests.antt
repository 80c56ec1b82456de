-- ===== src/DList/Tests.antt =====
-- The theorems on the doubly linked lists at a concrete list.
use devclego.Prelude.{[], arith, refl, some, ◌∷◌, ◌≡◌}
use devclego.Store.{null, Store, get, ok}
use devclego.Store.Returns.{Returns}
use devclego.Queue.{Node, node}
use devclego.Queue.Chain.{Cells, Chain}
use devclego.DList.{dlist_append, dlist_prepend, dlist_foreach}
use devclego.DList.Chains.{dlist_append_lem, dlist_prepend_lem, dlist_foreach_lem}

abbrev two_cells : Cells
two_cells = (1, 10) ∷ (2, 20) ∷ []

abbrev two_nodes : Store Node
two_nodes = (1, some (node 10 2 null)) ∷ (2, some (node 20 null 1)) ∷ []

two_cells-Chain : Chain two_nodes null two_cells null
unfolding get
two_cells-Chain = (omega arith, refl, refl, (omega arith, refl, refl, tt))

dlist_append_lem_example :
    Returns
      (λ l g. (l ≡ 1) × Chain g null ((1, 10) ∷ (2, 20) ∷ (3, 30) ∷ []) null)
      (dlist_append 3 3 1 30 two_nodes)
unfolding get
dlist_append_lem_example =
    dlist_append_lem two_cells 3 two_nodes 3 30 two_cells-Chain (omega arith) (omega arith) refl

prepended :
    Returns
      (λ l g. (l ≡ 3) × Chain g null ((3, 30) ∷ two_cells) null)
      (dlist_prepend 3 1 30 two_nodes)
unfolding get
prepended = dlist_prepend_lem two_cells two_nodes 3 30 two_cells-Chain (omega arith) refl

visited : dlist_foreach 3 1 two_nodes ≡ ok (1 ∷ 2 ∷ []) two_nodes
visited = dlist_foreach_lem two_cells 3 two_nodes null two_cells-Chain (omega arith)
