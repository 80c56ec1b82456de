-- ===== src/MaxHeap/Push.antt =====
-- `_heap_push`
use mathlib.Core.List.{perm_append_singleton}
use mathlib.Core.List.Perm
use devclego.Prelude.{
  List, Option, Perm, add32, arith, dec_lt, false, get_or-set, get_or-set_self, length, length-set,
  length-take, refl, set, set-outside, sign, suc, take, take-set, take-suc, true, word, ℕ, ◌%◌, ◌*◌,
  ◌+◌, ◌<◌, ◌==◌, ◌∙◌, ◌∷◌, ◌≡◌, ◌⊎◌,
}
use devclego.MaxHeap.{Heap, grow, heap_push}
use devclego.MaxHeap.Returns
use devclego.MaxHeap.Returns.{Returns, returns}
use devclego.MaxHeap.Order.{IsHeap, parent, store-ok}
use devclego.MaxHeap.Up.{UpInv, up_loop-Placed}
use devclego.MaxHeap.Inv.{IsValid, items, IsRealloc, IsHeap-take}

module _ (realloc : List ℕ → ℕ → Option (List ℕ)) (r : IsRealloc realloc) where
  -- the same items in an array with room for one more
  record Grown (h g : Heap) : Type 0 where
    valid : IsValid g
    count : g.count ≡ h.count
    room : g.count < g.size
    same : items g ≡ items h

  grow-Grown :
      (h : Heap)
      → IsValid h
      → (h.count < h.size) ⊎ (h.size * 2 < sign)
      → Returns (Grown h) (grow realloc h)
  unfolding grow
  grow-Grown h v fits = elim (dec_lt h.count h.size) [
    | yes room ↦
        let e : (h.count == h.size) ≡ false = ground arith in
        rw e (returns (record { valid = v; count = refl; room = room; same = refl }))
    | no full ↦
        let e : (h.count == h.size) ≡ true = ground arith in
        let double : (h.size * 2) % word ≡ h.size * 2 = omega arith in
        let (d, got, size, kept) = r.grants h.array (h.size * 2) in
        let same = kept h.count (omega arith) (omega arith) in
        rw (e, double, got, grow)
          (returns (record {
            valid = record {
              storage = size;
              positive = omega arith;
              small = omega arith;
              count_in = omega arith;
              order = IsHeap-take h.count h.array d same v.order;
            };
            count = refl;
            room = omega arith;
            same = same;
          }))
  ]

  start-UpInv :
      (n value : ℕ) (d : List ℕ) → n < length d → IsHeap n d → UpInv (suc n) (set d n value) n
  start-UpInv n value d size h = record {
    edges = λ c p q ne.
        ground (arith, h c, get_or-set d n c value 0, get_or-set d n (parent c) value 0);
    bridged = λ c p q e pos. absurd (omega arith);
  }

  start-perm :
      (n value : ℕ) (d : List ℕ)
      → n < length d
      → Perm (take (suc n) (set d n value)) (value ∷ take n d)
  start-perm n value d size =
      rw
        (
          take-suc n (set d n value) 0 (rw length-set size),
          take-set n d n value,
          set-outside (take n d) n value (omega (arith, length-take n d)),
          get_or-set_self d n value 0 size,
        )
        (perm_append_singleton value (take n d))

  -- With memory to be had and room below `2 ^ 31`, `_heap_push` ends in a valid heap that stores
  -- the new item besides the old ones.
  pub heap_push_correct :
      (h : Heap) (value : ℕ)
      → IsValid h
      → (h.count < h.size) ⊎ (h.size * 2 < sign)
      → Returns (λ g. IsValid g × Perm (items g) (value ∷ items h)) (heap_push realloc h value)
  unfolding heap_push
  heap_push_correct h value v fits = Returns.bind (grow-Grown h v fits) λ g grown.
      let u = grown.valid in
      let room : g.count < length g.array = rw u.storage grown.room in
      Returns.bind
        (up_loop-Placed (suc g.count) value (g.count + 1) g.array g.count (omega arith)
          (omega arith) (omega arith) (start-UpInv g.count value g.array room u.order))
        λ (d, i) placed.
          let next : add32 g.count 1 ≡ suc g.count = omega arith in
          let size : length d ≡ length g.array = placed.size ∙ length-set g.array g.count value in
          rw (store-ok d i value (omega (arith, placed.inside)), next)
            (returns (
              record {
                storage = rw length-set (size ∙ u.storage);
                positive = u.positive;
                small = u.small;
                count_in = grown.room;
                order = placed.heap;
              },
              Perm.trans placed.perm (rw grown.same at (start-perm g.count value g.array room)),
            ))
