-- ===== src/MaxHeap/Inv.antt =====
-- What holds of a `struct Heap` between two calls, and what the C standard says of `realloc` when
-- memory is not exhausted.
use devclego.Prelude.{
  List, Option, ap, arith, get_or, get_or-take, length, refl, sign, some, sym, take, ℕ, ◌<◌, ◌∙◌,
  ◌≡◌, ◌≤◌,
}
use devclego.MaxHeap.{Heap, base_size, heap_init}
use devclego.MaxHeap.Returns.{Returns, returns}
use devclego.MaxHeap.Order.{IsHeap, parent}

pub record IsValid (h : Heap) : Type 0 where
  pub storage : length h.array ≡ h.size
  pub positive : 0 < h.size
  pub small : h.size < sign
  pub count_in : h.count ≤ h.size
  pub order : IsHeap h.count h.array

-- What a heap stores.
abbrev pub items : Heap → List ℕ
items h = take h.count h.array

-- The new block has the size asked for, and begins with what the old one held.
pub record IsRealloc (realloc : List ℕ → ℕ → Option (List ℕ)) : Type 0 where
  pub grants :
      (d : List ℕ) (n : ℕ)
      → (e : List ℕ) × (realloc d n ≡ some e)
        × (length e ≡ n)
        × ((k : ℕ) → k ≤ length d → k ≤ n → take k e ≡ take k d)

-- `_heap_init` makes an empty valid heap, if `malloc` returns a block of the size asked for.
pub heap_init-IsValid :
    (malloc : ℕ → Option (List ℕ)) (d : List ℕ)
    → malloc base_size ≡ some d
    → length d ≡ base_size
    → Returns (λ h. IsValid h × (h.count ≡ 0)) (heap_init malloc)
unfolding heap_init
heap_init-IsValid malloc d got size =
    rw (got, heap_init)
      (returns (
        record {
          storage = size;
          positive = omega arith;
          small = omega arith;
          count_in = omega arith;
          order = λ c p q r. elim q [ ];
        },
        refl,
      ))

-- Heap order is a matter of the first entries alone.
pub IsHeap-take : (n : ℕ) (d e : List ℕ) → take n e ≡ take n d → IsHeap n d → IsHeap n e
IsHeap-take n d e same h = λ c p q r.
    let at = λ (i : ℕ) (hi : i < n).
      sym (get_or-take n e i 0 hi) ∙ ap (λ l. get_or l i 0) same ∙ get_or-take n d i 0 hi in
    rw (at c q, at (parent c) (omega arith)) (h c p q r)
