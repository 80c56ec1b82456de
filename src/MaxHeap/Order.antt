-- ===== src/MaxHeap/Order.antt =====
-- The heap order, and what the array accesses do inside the array.
use devclego.Prelude.{
  List, Perm, arith, get_elem?-eq-get_or, get_elem?-outside, get_or, get_or-take, length,
  length-take, lt→ltb, move-perm, set, suc, take, take-set, zero, ℕ, ◌-◌, ◌/◌, ◌<◌, ◌≡◌, ◌≢◌, ◌≤◌,
}
use native.Mathlib.Decide.{ℕ_discrete}
use devclego.MaxHeap.{ok, fault, rank, load, store}

abbrev pub parent : ℕ → ℕ
parent c = (c - 1) / 2

abbrev pub key : List ℕ → ℕ → ℕ
key d i = rank (get_or d i 0)

-- Among the first `n` entries no child of an entry from `lo` on is greater than its parent.
abbrev pub IsHeapFrom : (lo n : ℕ) → List ℕ → Type 0
IsHeapFrom lo n d = (c : ℕ) → 0 < c → c < n → lo ≤ parent c → key d c ≤ key d (parent c)

abbrev pub IsHeap : ℕ → List ℕ → Type 0
IsHeap = IsHeapFrom 0

-- The first entry of a heap is a greatest one.
pub root_greatest : (fuel n i : ℕ) (d : List ℕ) → i < fuel → IsHeap n d → i < n → key d i ≤ key d 0
root_greatest zero n i d f h lt = elim f [ ]
root_greatest (suc fuel) n i d f h lt = elim (ℕ_discrete i 0) [
  | yes e ↦ rw e (omega arith)
  | no ne ↦ omega (
    arith,
    root_greatest fuel n (parent i) d (omega arith) h (omega arith),
    h i (omega arith) lt (omega arith),
  )
]

pub load-ok : (d : List ℕ) (i : ℕ) → i < length d → load d i ≡ ok (get_or d i 0)
unfolding load
load-ok d i h = rw (get_elem?-eq-get_or d i 0 h, load)

pub load-fault : (d : List ℕ) (i : ℕ) → length d ≤ i → load d i ≡ fault
unfolding load
load-fault d i h = rw (get_elem?-outside d i h, load)

pub store-ok : (d : List ℕ) (i v : ℕ) → i < length d → store d i v ≡ ok (set d i v)
unfolding store
store-ok d i v h = rw (lt→ltb i (length d) h)

-- The place `r.1` that a loop finds for the item `value` in the array `r.0`, where `a` is the array
-- that it began with, the item in the hole.
pub record Placed (lo n value : ℕ) (a : List ℕ) (r : List ℕ × ℕ) : Type 0 where
  pub inside : r.1 < n
  pub size : length r.0 ≡ length a
  pub heap : IsHeapFrom lo n (set r.0 r.1 value)
  pub perm : Perm (take n (set r.0 r.1 value)) (take n a)

-- Moving an entry into the hole at `i`, and the hole to where the entry was, keeps the items.
pub take-move :
    (n value : ℕ) (d : List ℕ) (i p : ℕ)
    → i < n
    → n ≤ length d
    → p < n
    → p ≢ i
    → Perm (take n (set (set d i (get_or d p 0)) p value)) (take n (set d i value))
take-move n value d i p hi size hp ne =
    let len = length-take n d in
    rw
      (
        take-set n (set d i (get_or d p 0)) p value,
        take-set n d i (get_or d p 0),
        take-set n d i value,
        ← get_or-take n d p 0 hp,
      )
      (move-perm (take n d) i p value 0 (omega arith) (omega arith) ne)
