-- ===== src/DList.antt =====
-- lib/lib_funcs.c, the doubly linked lists; `make_dlist` and the nodes are those of the queue.
-- `fresh` is what `malloc` returns; a NULL pointer is the empty list.
pub mod Chains
mod Tests
use devclego.Prelude.{List, [], if◌then◌else◌, suc, zero, ℕ, ◌==◌, ◌∷◌}
use devclego.Store.{Ptr, null, Cmd, out_of_fuel, pure, ◌>>=◌, ◌>>◌, load, modify}
use devclego.Queue.{Node, make_dlist}

-- The loop of `dlist_append`, on fuel.
unfoldable pub find_last : (fuel : ℕ) → Ptr → Cmd Node Ptr
find_last zero tail = λ _. out_of_fuel
find_last (suc fuel) tail = do
  n ← load tail
  let rest = find_last fuel n.next in if n.next == null then pure tail else rest

-- `tail->next->prev = tail` reads the link that was just written.
unfoldable pub dlist_append : (fuel : ℕ) → (fresh : Ptr) → Ptr → Ptr → Cmd Node Ptr
unfolding find_last make_dlist
dlist_append fuel fresh dlist item = if dlist == null then make_dlist fresh item else (do
  tail ← find_last fuel dlist
  new ← make_dlist fresh item
  modify tail (λ n. record n { next = new })
  n ← load tail
  modify n.next (λ k. record k { prev = tail })
  pure dlist)

unfoldable pub dlist_prepend : (fresh : Ptr) → Ptr → Ptr → Cmd Node Ptr
unfolding make_dlist
dlist_prepend fresh dlist item = if dlist == null then make_dlist fresh item else (do
  head ← make_dlist fresh item
  modify head (λ n. record n { next = dlist })
  modify dlist (λ n. record n { prev = head })
  pure head)

-- `dlist_foreach` on fuel, with a process that leaves the list alone: what it is called on.
unfoldable pub dlist_foreach : (fuel : ℕ) → Ptr → Cmd Node (List Ptr)
dlist_foreach zero dlist = λ _. out_of_fuel
dlist_foreach (suc fuel) dlist =
    let round : Cmd Node (List Ptr) = do
      n ← load dlist
      seen ← dlist_foreach fuel n.next
      pure (dlist ∷ seen)
    in if dlist == null then pure [] else round
