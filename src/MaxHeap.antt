-- ===== src/MaxHeap.antt =====
-- lib/lib_heap.c: a binary heap of `int` in an array that grows and shrinks, the greatest first.
-- An `int` and an `unsigned int` are 32-bit patterns. `malloc` and `realloc`, which are not the
-- program's, are parameters: NULL is `none`, and the block is the list of its entries.
pub mod Returns
pub mod Order
pub mod Up
pub mod Down
pub mod Inv
pub mod Push
pub mod Pop
pub mod Heapify
mod Tests
use devclego.Prelude.{
  Bool, List, Option, add32, get_elem?, if◌then◌else◌, leb, length, ltb, none, set, sign, some,
  sub32, suc, word, zero, ℕ, ◌%◌, ◌&&◌, ◌*◌, ◌+◌, ◌-◌, ◌/◌, ◌==◌,
}

-- A result, `_exit(1)`, an access outside the array, or the model's fuel running out in a loop.
pub data Result {ℓ} (A : Type ℓ) : Type ℓ where
  ok : A → Result A
  exit fault out_of_fuel : Result A

infixl 5 ◌>>=◌ ◌>>◌
abbrev pub ◌>>=◌ {ℓ κ} : {A : Type ℓ} {B : Type κ} → Result A → (A → Result B) → Result B
ok a >>= f = f a
exit >>= f = exit
fault >>= f = fault
out_of_fuel >>= f = out_of_fuel

abbrev pub ◌>>◌ {ℓ κ} : {A : Type ℓ} {B : Type κ} → Result A → Result B → Result B
m >> k = m >>= λ _. k

-- `struct Heap`
pub record Heap : Type 0 where
  pub size : ℕ
  pub count : ℕ
  pub array : List ℕ

abbrev pub base_size : ℕ
base_size = 4

-- An order-preserving map of `int` patterns to numbers.
unfoldable pub rank : ℕ → ℕ
rank a = (a + sign) % word

-- `HEAP_CMP`
unfoldable pub heap_cmp : ℕ → ℕ → Bool
heap_cmp a b = leb (rank b) (rank a)

unfoldable pub load : List ℕ → ℕ → Result ℕ
load d i = elim (get_elem? d i) [ none ↦ fault | some x ↦ ok x ]

unfoldable pub store : List ℕ → ℕ → ℕ → Result (List ℕ)
store d i v = if ltb i (length d) then ok (set d i v) else fault

-- What the allocator returned, or the exit of the code where it is NULL.
unfoldable pub or_exit : Option (List ℕ) → Result (List ℕ)
or_exit none = exit
or_exit (some d) = ok d

unfoldable pub heap_init : (malloc : ℕ → Option (List ℕ)) → Result Heap
unfolding or_exit
heap_init malloc = do
  d ← or_exit (malloc base_size)
  ok (record { size = base_size; count = 0; array = d })

-- The loop that finds the place of a new item, from `index` towards the root.
unfoldable pub up_loop : (fuel : ℕ) → (value : ℕ) → List ℕ → ℕ → Result (List ℕ × ℕ)
unfolding load store heap_cmp
up_loop zero value d index = out_of_fuel
up_loop (suc fuel) value d index =
    let parent = (index - 1) / 2 in
    let round : Result (List ℕ × ℕ) = do
      x ← load d parent
      let rise : Result (List ℕ × ℕ) = store d index x >>= λ d'. up_loop fuel value d' parent
      if heap_cmp x value then ok (d, index) else rise
    in if index == 0 then ok (d, index) else round

-- The loop's test for the bigger of the two children.
unfoldable pub bigger_child : List ℕ → (count swap : ℕ) → Result ℕ
unfolding load heap_cmp
bigger_child d count swap =
    let other = add32 swap 1 in
    if ltb other count
    then (do a ← load d other; b ← load d swap; ok (if heap_cmp a b then other else swap))
    else ok swap

-- The loop that finds the place of `temp`, from `index` towards the leaves.
unfoldable pub down_loop : (fuel : ℕ) → (count temp : ℕ) → List ℕ → ℕ → Result (List ℕ × ℕ)
unfolding load store heap_cmp bigger_child
down_loop zero count temp d index = out_of_fuel
down_loop (suc fuel) count temp d index =
    let swap = add32 ((index * 2) % word) 1 in
    let round : Result (List ℕ × ℕ) = do
      child ← bigger_child d count swap
      y ← load d child
      let sink : Result (List ℕ × ℕ) = store d index y >>= λ d'. down_loop fuel count temp d' child
      if heap_cmp temp y then ok (d, index) else sink
    in if leb count swap then ok (d, index) else round

module _ (realloc : List ℕ → ℕ → Option (List ℕ)) where
  unfoldable pub grow : Heap → Result Heap
  unfolding or_exit
  grow h =
      let size' = (h.size * 2) % word in
      if h.count == h.size
      then (do d ← or_exit (realloc h.array size'); ok (record h { size = size'; array = d }))
      else ok h

  unfoldable pub heap_push : Heap → ℕ → Result Heap
  unfolding grow up_loop store
  heap_push h value = do
    g ← grow h
    (d, index) ← up_loop (g.count + 1) value g.array g.count
    d' ← store d index value
    ok (record g { count = add32 g.count 1; array = d' })

  unfoldable pub shrink : Heap → Result Heap
  unfolding or_exit
  shrink h =
      let size' = h.size / 2 in
      if leb h.count (h.size / 4) && ltb base_size h.size
      then (do d ← or_exit (realloc h.array size'); ok (record h { size = size'; array = d }))
      else ok h

  unfoldable pub heap_pop : Heap → Result Heap
  unfolding shrink down_loop load store
  heap_pop h = do
    let count' = sub32 h.count 1
    temp ← load h.array count'
    g ← shrink (record h { count = count' })
    (d, index) ← down_loop (g.count + 1) g.count temp g.array 0
    d' ← store d index temp
    ok (record g { array = d' })

-- One round of the outer loop of `_heapify`.
unfoldable pub sift : (count : ℕ) → List ℕ → ℕ → Result (List ℕ)
unfolding down_loop load store
sift count d item = do
  temp ← load d item
  (d', index) ← down_loop (count + 1) count temp d item
  if index == item then ok d' else store d' index temp

-- The outer loop counts down to 0 and returns behind the round at 0.
unfoldable pub heapify_loop : (count : ℕ) → (item : ℕ) → List ℕ → Result (List ℕ)
unfolding sift
heapify_loop count zero d = sift count d 0
heapify_loop count (suc item) d = sift count d (suc item) >>= heapify_loop count item

unfoldable pub heapify : List ℕ → ℕ → Result (List ℕ)
unfolding heapify_loop
heapify d count = heapify_loop count (sub32 (count / 2) 1) d

-- `heap_front`
unfoldable pub heap_front : Heap → Result ℕ
unfolding load
heap_front h = load h.array 0
