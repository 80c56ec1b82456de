-- ===== src/SList.antt =====
-- lib/lib_funcs.c, the singly linked lists, with `make_slist` of lib/lib_makers.c. `fresh` is what
-- `malloc` returns; a NULL pointer is the empty list.
pub mod Links
mod Tests
use devclego.Prelude.{List, [], if◌then◌else◌, suc, zero, ℕ, ◌==◌, ◌∷◌}
use devclego.Store.{Ptr, null, Cmd, out_of_fuel, pure, ◌>>=◌, ◌>>◌, load, modify, create}

-- `slist_t`
pub record Link : Type 0 where
  pub item : Ptr
  pub next : Ptr

abbrev pub link : Ptr → Ptr → Link
link d n = record { item = d; next = n }

unfoldable pub make_slist : (fresh : Ptr) → Ptr → Cmd Link Ptr
make_slist fresh item = create fresh (link item null)

-- The loop of `slist_append`, on fuel.
unfoldable pub find_tail : (fuel : ℕ) → Ptr → Cmd Link Ptr
find_tail zero tail = λ _. out_of_fuel
find_tail (suc fuel) tail = do
  n ← load tail
  let rest = find_tail fuel n.next in if n.next == null then pure tail else rest

unfoldable pub slist_append : (fuel : ℕ) → (fresh : Ptr) → Ptr → Ptr → Cmd Link Ptr
unfolding find_tail make_slist
slist_append fuel fresh slist item = if slist == null then make_slist fresh item else (do
  tail ← find_tail fuel slist
  p ← make_slist fresh item
  modify tail (λ n. record n { next = p })
  pure slist)

unfoldable pub slist_prepend : (fresh : Ptr) → Ptr → Ptr → Cmd Link Ptr
unfolding make_slist
slist_prepend fresh slist item =
    if slist == null
    then make_slist fresh item
    else (do head ← make_slist fresh item; modify head (λ n. record n { next = slist }); pure head)

-- `slist_foreach` on fuel, with a process that leaves the list alone: what it is called on.
unfoldable pub slist_foreach : (fuel : ℕ) → Ptr → Cmd Link (List Ptr)
slist_foreach zero slist = λ _. out_of_fuel
slist_foreach (suc fuel) slist =
    let round : Cmd Link (List Ptr) = do
      n ← load slist
      seen ← slist_foreach fuel n.next
      pure (slist ∷ seen)
    in if slist == null then pure [] else round
