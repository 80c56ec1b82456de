-- ===== src/Queue/Tests.antt =====
-- Runs of the queue of lib/lib_queue.c, and its theorems at concrete queues.
use devclego.Prelude.{
  List, [], arith, if◌then◌else◌, ltb, none, refl, some, suc, true, ◌<◌, ◌∷◌, ◌≡◌,
}
use devclego.Store.{
  Ptr, null, Store, ok, fault, out_of_fuel, get, put, IsMalloc, load, store, modify, free, create,
}
use devclego.Store.Returns.{Returns}
use devclego.Queue.{
  Node, node, Queue, make_queue, queue_push_tail, queue_pop_head, queue_pop_tail, queue_peek_head,
  queue_dtor,
}
use devclego.Queue.Chain.{IsQueue}
use devclego.Queue.Deque.{
  Op, push_head, push_tail, pop_head, pop_tail, peek_head, peek_tail, after, replies, call, calls,
}
use devclego.Queue.Refine.{queue_refines}
use devclego.Queue.Faults.{pop_tail_last, dtor-diverges}

-- an allocator that goes on from the greatest address written so far
abbrev top : Store Node → Ptr
top [] = 0
top ((p, c) ∷ h) = if ltb (top h) p then p else top h

abbrev malloc : Store Node → Ptr
malloc h = suc (top h)

above_top : (h : Store Node) (p : Ptr) → top h < p → get h p ≡ none
unfolding get
above_top [] p lt = refl
above_top ((q, c) ∷ h) p lt = ground (arith, above_top h p)

malloc-IsMalloc : IsMalloc malloc
malloc-IsMalloc = record {
  live = λ h. omega arith;
  fresh = λ h. above_top h (suc (top h)) (omega arith);
}

abbrev two_nodes : Store Node
two_nodes = (2, some (node 20 0 1)) ∷ (1, some (node 10 2 0)) ∷ []

abbrev two : Queue
two = record { head = 1; tail = 2; has_disposer = true; counter = 2 }

two-IsQueue : IsQueue two_nodes two ((1, 10) ∷ (2, 20) ∷ [])
unfolding get
two-IsQueue = record {
  chain = (omega arith, refl, refl, (omega arith, refl, refl, tt));
  head = refl;
  tail = refl;
  counter = refl;
  small = omega arith;
}

abbrev one_node : Store Node
one_node = (1, some (node 10 0 0)) ∷ []

abbrev one : Queue
one = record { head = 1; tail = 1; has_disposer = true; counter = 1 }

one-IsQueue : IsQueue one_node one ((1, 10) ∷ [])
unfolding get
one-IsQueue = record {
  chain = (omega arith, refl, refl, tt);
  head = refl;
  tail = refl;
  counter = refl;
  small = omega arith;
}

abbrev empty_queue : Queue
empty_queue = record { head = null; tail = null; has_disposer = true; counter = 0 }

empty-IsQueue : IsQueue [] empty_queue []
empty-IsQueue = record { chain = tt; head = refl; tail = refl; counter = refl; small = omega arith }

abbrev script : List Op
script = push_tail 30 ∷ push_head 5 ∷ pop_tail ∷ peek_tail ∷ pop_head ∷ pop_head ∷ peek_head ∷ []

queue_refines_example :
    Returns (λ rs g. rs ≡ replies (10 ∷ 20 ∷ []) script) (calls malloc two script two_nodes)
unfolding after
queue_refines_example =
    queue_refines malloc malloc-IsMalloc script two_nodes two ((1, 10) ∷ (2, 20) ∷ []) two-IsQueue
      (omega arith)

script-replies : replies (10 ∷ 20 ∷ []) script ≡ null ∷ null ∷ 30 ∷ 20 ∷ 5 ∷ 10 ∷ 20 ∷ []
unfolding replies
script-replies = refl

pop_tail_last_example :
    Returns
      (λ (q', item) g.
        (item ≡ 10)
        × (q'.counter ≡ 0)
        × (queue_pop_head q' g ≡ fault)
        × (queue_peek_head q' g ≡ fault))
      (queue_pop_tail one one_node)
pop_tail_last_example = pop_tail_last one_node one 1 10 one-IsQueue

dtor-diverges_example : queue_dtor 100 (some empty_queue) [] ≡ out_of_fuel
dtor-diverges_example = dtor-diverges [] empty_queue 100 empty-IsQueue

-- the queue of `queue_test`, with four of its numbers
fifo :
    calls malloc
      (make_queue true)
      (push_tail 1 ∷ push_tail 2 ∷ push_tail 3 ∷ pop_head ∷ pop_head ∷ pop_head ∷ pop_head ∷ [])
      []
    ≡ ok (null ∷ null ∷ null ∷ 1 ∷ 2 ∷ 3 ∷ null ∷ []) (
        (3, none)
        ∷ (3, some (node 3 0 0))
        ∷ (2, none)
        ∷ (2, some (node 2 3 0))
        ∷ (1, none)
        ∷ (2, some (node 2 3 1))
        ∷ (3, some (node 3 0 2))
        ∷ (3, some (node 3 0 0))
        ∷ (1, some (node 1 2 0))
        ∷ (2, some (node 2 0 1))
        ∷ (2, some (node 2 0 0))
        ∷ (1, some (node 1 0 0))
        ∷ [])
unfolding calls call make_queue queue_push_tail queue_pop_head get put load store modify free create
fifo = refl
