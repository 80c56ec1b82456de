-- ===== src/MaxHeap/Tests.antt =====
-- Runs of the heap of lib/lib_heap.c, and its theorems at concrete heaps.
use devclego.Prelude.{
  List, Option, Perm, [], ap, arith, inr, length, refl, some, suc, take, zero, ℕ, ◌-◌, ◌<◌, ◌^◌,
  ◌∷◌, ◌≡◌, ◌≤◌,
}
use devclego.MaxHeap.{
  Heap, ok, fault, ◌>>=◌, rank, heap_init, heap_push, heap_pop, heapify, heap_front,
}
use devclego.MaxHeap.Returns.{Returns}
use devclego.MaxHeap.Order.{IsHeap, key}
use devclego.MaxHeap.Inv.{IsValid, items, IsRealloc}
use devclego.MaxHeap.Push.{heap_push_correct}
use devclego.MaxHeap.Pop.{heap_pop_correct}
use devclego.MaxHeap.Heapify.{heapify_correct, heapify-fault}

-- an allocator that fills new entries with zero and never fails
abbrev resize : ℕ → List ℕ → List ℕ
resize zero d = []
resize (suc n) [] = 0 ∷ resize n []
resize (suc n) (x ∷ d) = x ∷ resize n d

abbrev realloc : List ℕ → ℕ → Option (List ℕ)
realloc d n = some (resize n d)

length-resize : (n : ℕ) (d : List ℕ) → length (resize n d) ≡ n
length-resize zero d = refl
length-resize (suc n) [] = ap suc (length-resize n [])
length-resize (suc n) (x ∷ d) = ap suc (length-resize n d)

take-resize : (k n : ℕ) (d : List ℕ) → k ≤ length d → k ≤ n → take k (resize n d) ≡ take k d
take-resize zero n d h j = refl
take-resize (suc k) zero d h j = elim j [ ]
take-resize (suc k) (suc n) [] h j = elim h [ ]
take-resize (suc k) (suc n) (x ∷ d) h j = ap (◌∷◌ x) (take-resize k n d (omega arith) (omega arith))

realloc-IsRealloc : IsRealloc realloc
realloc-IsRealloc = record {
  grants = λ d n. (resize n d, refl, length-resize n d, λ k h j. take-resize k n d h j);
}

abbrev four : Heap
four = record { size = 4; count = 4; array = 9 ∷ 7 ∷ 8 ∷ 1 ∷ [] }

four-IsValid : IsValid four
unfolding rank
four-IsValid = record {
  storage = refl;
  positive = omega arith;
  small = omega arith;
  count_in = omega arith;
  order = order;
}
  where
    order : IsHeap 4 (9 ∷ 7 ∷ 8 ∷ 1 ∷ [])
    order zero p q low = absurd (omega arith)
    order (suc zero) p q low = omega arith
    order (suc (suc zero)) p q low = omega arith
    order (suc (suc (suc zero))) p q low = omega arith
    order (suc (suc (suc (suc c)))) p q low = absurd (omega arith)

heap_push_correct_example :
    Returns (λ g. IsValid g × Perm (items g) (10 ∷ 9 ∷ 7 ∷ 8 ∷ 1 ∷ [])) (heap_push realloc four 10)
heap_push_correct_example =
    heap_push_correct realloc realloc-IsRealloc four 10 four-IsValid (inr (omega arith))

heap_pop_correct_example :
    ((i : ℕ) → i < 4 → key four.array i ≤ key four.array 0)
    × Returns (λ g. IsValid g × Perm (9 ∷ items g) (9 ∷ 7 ∷ 8 ∷ 1 ∷ [])) (heap_pop realloc four)
heap_pop_correct_example =
    heap_pop_correct realloc realloc-IsRealloc four four-IsValid (omega arith)

abbrev none_left : Heap
none_left = record { size = 4; count = 0; array = 9 ∷ 7 ∷ 8 ∷ 1 ∷ [] }

heapify_correct_example :
    Returns
      (λ e. IsHeap 4 e × (length e ≡ 5) × Perm (take 4 e) (1 ∷ 7 ∷ 8 ∷ 9 ∷ []))
      (heapify (1 ∷ 7 ∷ 8 ∷ 9 ∷ 100 ∷ []) 4)
heapify_correct_example =
    heapify_correct (1 ∷ 7 ∷ 8 ∷ 9 ∷ 100 ∷ []) 4 (omega arith) (omega arith) (omega arith)

heapify-fault_example : heapify (7 ∷ []) 1 ≡ fault
heapify-fault_example = heapify-fault (7 ∷ []) 1 (omega arith) (omega arith)

-- three pushes, a front and a pop; -1 is below 3
session :
    (heap_init (λ n. realloc [] n) >>= λ h. heap_push realloc h 3 >>= λ h.
    heap_push realloc h (2 ^ 32 - 1) >>= λ h.
    heap_push realloc h 5 >>= λ h. heap_pop realloc h >>= heap_front)
    ≡ ok 3
unfolding heap_init heap_push heap_pop heap_front rank
session = refl
