-- ===== src/Queue/Refine.antt =====
-- The queue of lib/lib_queue.c refines the list of its items.
use devclego.Prelude.{
  List, [], ap, arith, length, refl, sign, sym, ◌++◌, ◌+◌, ◌<◌, ◌∙◌, ◌∷◌, ◌≡◌, ◌≢◌,
}
use devclego.Store.{Ptr, Store, IsMalloc}
use devclego.Store.Returns
use devclego.Store.Returns.{Returns, returns}
use devclego.Queue.{Node, Queue, queue_pop_tail}
use devclego.Queue.Chain.{Cells, items, IsQueue, items-append}
use devclego.Queue.Push.{Ends, empty, snoc, ends, push_head-cons, push_tail-snoc}
use devclego.Queue.Pop.{pop-nil, peek_head-cons, peek_tail-snoc, pop_head-cons, pop_tail-snoc}
use devclego.Queue.Deque.{
  Op, push_head, push_tail, pop_head, pop_tail, peek_head, peek_tail, last_item, init, after,
  replies, IsSafe, AllSafe, call, calls,
}

last_item-snoc : (xs : List Ptr) (d : Ptr) → last_item (xs ++ d ∷ []) ≡ d
unfolding last_item
last_item-snoc [] d = refl
last_item-snoc (e ∷ []) d = refl
last_item-snoc (e ∷ f ∷ xs) d = last_item-snoc (f ∷ xs) d

init-snoc : (xs : List Ptr) (d : Ptr) → init (xs ++ d ∷ []) ≡ xs
unfolding init
init-snoc [] d = refl
init-snoc (e ∷ []) d = refl
init-snoc (e ∷ f ∷ xs) d = ap (◌∷◌ e) (init-snoc (f ∷ xs) d)

length-items : (xs : Cells) → length (items xs) ≡ length xs
length-items [] = refl
length-items (x ∷ xs) = omega (arith, length-items xs)

module _ (malloc : Store Node → Ptr) (m : IsMalloc malloc) where
  -- What one call leaves behind.
  abbrev Answered : Cells → Op → Queue × Ptr → Store Node → Type 0
  Answered xs o (q', r) g =
      (ys : Cells) × IsQueue g q' ys
      × (items ys ≡ (after (items xs) o).0)
      × (r ≡ (after (items xs) o).1)

  pop_tail-after :
      {xs : Cells}
      → Ends xs
      → (h : Store Node) (q : Queue) → IsQueue h q xs
      → length (items xs) ≢ 1
      → Returns (Answered xs pop_tail) (call malloc q pop_tail h)
  unfolding call after
  pop_tail-after empty h q v safe = rw (pop-nil h q v).1 (returns ([], v, refl, refl))
  pop_tail-after (snoc xs a d) h q v safe = at_least_two (ends xs) v safe
    where
      at_least_two :
          {ys : Cells}
          → Ends ys
          → IsQueue h q (ys ++ (a, d) ∷ [])
          → length (items (ys ++ (a, d) ∷ [])) ≢ 1
          → Returns (Answered (ys ++ (a, d) ∷ []) pop_tail) (queue_pop_tail q h)
      at_least_two empty v safe = absurd (safe refl)
      at_least_two (snoc ys b e) v safe =
          Returns.mono (pop_tail-snoc h q ys b e a d v) λ (q', r) g (item, _, _, v').
            let whole = items-append (ys ++ (b, e) ∷ []) ((a, d) ∷ []) in
            (ys ++ (b, e) ∷ [], v', rw (whole, init-snoc), rw (whole, last_item-snoc) item)

  peek_tail-after :
      {xs : Cells}
      → Ends xs
      → (h : Store Node) (q : Queue) → IsQueue h q xs
      → Returns (Answered xs peek_tail) (call malloc q peek_tail h)
  unfolding call after
  peek_tail-after empty h q v = rw (pop-nil h q v).3 (returns ([], v, refl, refl))
  peek_tail-after (snoc xs a d) h q v =
      let whole = items-append xs ((a, d) ∷ []) in
      rw (peek_tail-snoc h q xs a d v) (
        returns
          (xs ++ (a, d) ∷ [], v, refl, sym (ap last_item whole ∙ last_item-snoc (items xs) d)))

  call-after :
      (o : Op) (h : Store Node) (q : Queue) (xs : Cells)
      → IsQueue h q xs
      → IsSafe (items xs) o
      → Returns (Answered xs o) (call malloc q o h)
  unfolding call after
  call-after (push_head d) h q xs v safe =
      let room : length xs + 1 < sign = omega (arith, safe, length-items xs) in
      Returns.bind (push_head-cons (malloc h) d h q (m.live h) (m.fresh h) xs v room)
        λ q' g (v', _). returns ((malloc h, d) ∷ xs, v', refl, refl)
  call-after (push_tail d) h q xs v safe =
      let room : length xs + 1 < sign = omega (arith, safe, length-items xs) in
      Returns.bind (push_tail-snoc (malloc h) d h q (m.live h) (m.fresh h) xs v room)
        λ q' g (v', _).
          returns (xs ++ (malloc h, d) ∷ [], v', items-append xs ((malloc h, d) ∷ []), refl)
  call-after pop_head h q [] v safe = rw (pop-nil h q v).0 (returns ([], v, refl, refl))
  call-after pop_head h q ((a, d) ∷ xs) v safe =
      Returns.mono (pop_head-cons h q a d xs v) λ (q', r) g (item, _, _, v'). (xs, v', refl, item)
  call-after pop_tail h q xs v safe = pop_tail-after (ends xs) h q v safe
  call-after peek_head h q [] v safe = rw (pop-nil h q v).2 (returns ([], v, refl, refl))
  call-after peek_head h q ((a, d) ∷ xs) v safe =
      rw (peek_head-cons h q a d xs v) (returns ((a, d) ∷ xs, v, refl, refl))
  call-after peek_tail h q xs v safe = peek_tail-after (ends xs) h q v

  -- No sequence of calls tells the queue from the list of its items, and none of its accesses
  -- faults, where the calls keep `queue_pop_tail` away from a queue of one item and never make a
  -- queue of 2^31 items, and where `malloc` always gives an address that is not NULL and not in use.
  pub queue_refines :
      (ops : List Op) (h : Store Node) (q : Queue) (xs : Cells)
      → IsQueue h q xs
      → AllSafe (items xs) ops
      → Returns (λ rs g. rs ≡ replies (items xs) ops) (calls malloc q ops h)
  unfolding calls replies
  queue_refines [] h q xs v safe = returns refl
  queue_refines (o ∷ ops) h q xs v safe =
      Returns.bind (call-after o h q xs v safe.0) λ (q', r) g (ys, v', same, reply).
        Returns.bind (queue_refines ops g q' ys v' (rw same safe.1))
          λ rs g' done. returns (rw (reply, done, same))
