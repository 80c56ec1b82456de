-- ===== src/SList/Tests.antt =====
-- The theorems on the singly linked lists at a concrete list.
use devclego.Prelude.{[], arith, refl, some, ◌∷◌, ◌≡◌}
use devclego.Store.{null, Store, get}
use devclego.Store.Returns.{Returns}
use devclego.SList.{Link, link, slist_append}
use devclego.SList.Links.{Links, slist_append_lem}
use devclego.Queue.Chain.{Cells}

abbrev cells : Cells
cells = (1, 10) ∷ (2, 20) ∷ []

abbrev memory : Store Link
memory = (1, some (link 10 2)) ∷ (2, some (link 20 null)) ∷ []

cells-Links : Links memory cells
unfolding get
cells-Links = (omega arith, refl, refl, (omega arith, refl, refl, tt))

slist_append_lem_example :
    Returns
      (λ l g. (l ≡ 1) × Links g ((1, 10) ∷ (2, 20) ∷ (3, 30) ∷ []))
      (slist_append 3 3 1 30 memory)
unfolding get
slist_append_lem_example =
    slist_append_lem cells 3 memory 3 30 cells-Links (omega arith) (omega arith) refl
