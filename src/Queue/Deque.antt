-- ===== src/Queue/Deque.antt =====
-- What the functions of lib/lib_queue.c promise: a list of pointers, read and written at both ends.
use devclego.Prelude.{List, [], length, sign, ◌++◌, ◌+◌, ◌<◌, ◌∷◌, ◌≢◌}
use devclego.Store.{Ptr, null, Cmd, pure, ◌>>=◌, Store}
use devclego.Queue.{
  Node, Queue, queue_push_head, queue_pop_head, queue_peek_head, queue_push_tail, queue_pop_tail,
  queue_peek_tail,
}

pub data Op : Type 0 where
  push_head push_tail : Ptr → Op
  pop_head pop_tail peek_head peek_tail : Op

unfoldable pub first_item : List Ptr → Ptr
first_item [] = null
first_item (d ∷ xs) = d

unfoldable pub last_item : List Ptr → Ptr
last_item [] = null
last_item (d ∷ []) = d
last_item (d ∷ e ∷ xs) = last_item (e ∷ xs)

unfoldable pub rest : List Ptr → List Ptr
rest [] = []
rest (d ∷ xs) = xs

unfoldable pub init : List Ptr → List Ptr
init [] = []
init (d ∷ []) = []
init (d ∷ e ∷ xs) = d ∷ init (e ∷ xs)

-- The list after a call, and the pointer that the call returns (NULL if it returns nothing).
unfoldable pub after : List Ptr → Op → List Ptr × Ptr
unfolding first_item last_item rest init
after xs (push_head d) = (d ∷ xs, null)
after xs (push_tail d) = (xs ++ d ∷ [], null)
after xs pop_head = (rest xs, first_item xs)
after xs pop_tail = (init xs, last_item xs)
after xs peek_head = (xs, first_item xs)
after xs peek_tail = (xs, last_item xs)

unfoldable pub replies : List Ptr → List Op → List Ptr
unfolding after
replies xs [] = []
replies xs (o ∷ ops) = let (ys, r) = after xs o in r ∷ replies ys ops

-- `queue_pop_tail` is not called on a queue of one item, and no call makes a queue of `2 ^ 31` items.
abbrev pub IsSafe : List Ptr → Op → Type 0
IsSafe xs pop_tail = length xs ≢ 1
IsSafe xs (push_head d) = length xs + 1 < sign
IsSafe xs (push_tail d) = length xs + 1 < sign
IsSafe xs _ = Unit {0}

abbrev pub AllSafe : List Ptr → List Op → Type 0
AllSafe xs [] = Unit {0}
AllSafe xs (o ∷ ops) = IsSafe xs o × AllSafe (after xs o).0 ops

-- The calls of the code.
module _ (malloc : Store Node → Ptr) where
  unfoldable pub call : Queue → Op → Cmd Node (Queue × Ptr)
  call q (push_head d) h = (do q' ← queue_push_head (malloc h) q d; pure (q', null)) h
  call q (push_tail d) h = (do q' ← queue_push_tail (malloc h) q d; pure (q', null)) h
  call q pop_head h = queue_pop_head q h
  call q pop_tail h = queue_pop_tail q h
  call q peek_head h = (do d ← queue_peek_head q; pure (q, d)) h
  call q peek_tail h = (do d ← queue_peek_tail q; pure (q, d)) h

  unfoldable pub calls : Queue → List Op → Cmd Node (List Ptr)
  calls q [] = pure []
  calls q (o ∷ ops) = do (q', r) ← call q o; rs ← calls q' ops; pure (r ∷ rs)
