-- ===== src/Queue.antt =====
-- lib/lib_queue.c: a queue of pointers as a doubly linked list with both ends and a counter.
-- A function that updates the `queue_t` returns the new one. `fresh` is what `malloc` returns in
-- `make_dlist` (lib/lib_makers.c).
pub mod Chain
pub mod Push
pub mod Pop
pub mod Deque
pub mod Refine
pub mod Faults
mod Tests
use devclego.Prelude.{
  Bool, List, Option, [], add32, if◌then◌else◌, lt_signed, none, not, some, sub32, suc, zero, ℕ,
  ◌++◌, ◌==◌, ◌∷◌,
}
use devclego.Store.{Ptr, null, Cmd, out_of_fuel, pure, ◌>>=◌, ◌>>◌, load, modify, free, create}

-- `dlist_t` of lib/lib_defs.h. The data is a pointer that the queue only hands on.
pub record Node : Type 0 where
  pub item : Ptr
  pub next : Ptr
  pub prev : Ptr

abbrev pub node : Ptr → Ptr → Ptr → Node
node d n p = record { item = d; next = n; prev = p }

-- `queue_t`; `has_disposer` says whether the callback is not NULL.
pub record Queue : Type 0 where
  pub head : Ptr
  pub tail : Ptr
  pub has_disposer : Bool
  pub counter : ℕ

unfoldable pub make_queue : Bool → Queue
make_queue has_disposer = record {
  head = null;
  tail = null;
  has_disposer = has_disposer;
  counter = 0;
}

unfoldable pub make_dlist : (fresh : Ptr) → Ptr → Cmd Node Ptr
make_dlist fresh item = create fresh (node item null null)

unfoldable pub queue_push_head : (fresh : Ptr) → Queue → Ptr → Cmd Node Queue
unfolding make_dlist
queue_push_head fresh q item =
    let counter = add32 q.counter 1 in
    if q.head == null
    then (do p ← make_dlist fresh item; pure (record q { head = p; tail = p; counter = counter }))
    else (do
      p ← make_dlist fresh item
      modify p (λ n. record n { next = q.head })
      modify q.head (λ n. record n { prev = p })
      pure (record q { head = p; counter = counter }))

-- The result is NULL on an empty queue.
unfoldable pub queue_pop_head : Queue → Cmd Node (Queue × Ptr)
queue_pop_head q = if q.head == null then pure (q, null) else (do
  first ← load q.head
  free q.head
  if first.next == null
      then pure (record q { head = null; tail = null; counter = sub32 q.counter 1 }, first.item)
      else (do
        modify first.next (λ n. record n { prev = null })
        pure (record q { head = first.next; counter = sub32 q.counter 1 }, first.item)))

unfoldable pub queue_peek_head : Queue → Cmd Node Ptr
queue_peek_head q = if q.head == null then pure null else do n ← load q.head; pure n.item

unfoldable pub queue_push_tail : (fresh : Ptr) → Queue → Ptr → Cmd Node Queue
unfolding make_dlist
queue_push_tail fresh q item =
    let counter = add32 q.counter 1 in
    if q.tail == null
    then (do p ← make_dlist fresh item; pure (record q { head = p; tail = p; counter = counter }))
    else (do
      p ← make_dlist fresh item
      modify p (λ n. record n { prev = q.tail })
      modify q.tail (λ n. record n { next = p })
      pure (record q { tail = p; counter = counter }))

-- When the last item goes, the code clears `tail` once more, and leaves `head` as it was.
unfoldable pub queue_pop_tail : Queue → Cmd Node (Queue × Ptr)
queue_pop_tail q = if q.tail == null then pure (q, null) else (do
  last ← load q.tail
  free q.tail
  if last.prev == null
      then pure (record q { tail = null; counter = sub32 q.counter 1 }, last.item)
      else (do
        modify last.prev (λ n. record n { next = null })
        pure (record q { tail = last.prev; counter = sub32 q.counter 1 }, last.item)))

unfoldable pub queue_peek_tail : Queue → Cmd Node Ptr
queue_peek_tail q = if q.tail == null then pure null else do n ← load q.tail; pure n.item

-- The code's test: true where the counter is positive.
unfoldable pub queue_is_empty : Queue → Bool
queue_is_empty q = lt_signed 0 q.counter

-- `while(!queue_is_empty(this))` on fuel. The list holds what the disposer was called on.
unfoldable pub dtor_loop : (fuel : ℕ) → Queue → List Ptr → Cmd Node (List Ptr)
unfolding queue_is_empty
dtor_loop zero q disposed = λ _. out_of_fuel
dtor_loop (suc fuel) q disposed =
    let round : Cmd Node (List Ptr) = do
      (q', item) ← queue_pop_head q
      dtor_loop fuel q' (if q.has_disposer then disposed ++ item ∷ [] else disposed)
    in if not (queue_is_empty q) then round else pure disposed

-- NULL, as `none`, is accepted. The struct is freed at the end.
unfoldable pub queue_dtor : (fuel : ℕ) → Option Queue → Cmd Node (List Ptr)
unfolding dtor_loop
queue_dtor fuel none = pure []
queue_dtor fuel (some q) = dtor_loop fuel q []
