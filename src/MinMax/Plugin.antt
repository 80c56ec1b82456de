-- ===== src/MinMax/Plugin.antt =====
-- The plugin of lib/lib_swplugins.c in a sliding window: `make_swminmax`.
use devclego.Prelude.{
  List, Option, [], ap, arith, length, length-append, refl, sign, some, suc, ℕ, ◌++◌, ◌+◌, ◌<◌,
  ◌>>=◌, ◌∷◌, ◌≡◌, ◌≤◌,
}
use devclego.Store.{Ptr}
use devclego.BinTree.{BinTree}
use devclego.BinTree.Inv.{IsMemory, IsTree}
use devclego.BinTree.Enter.{IsFresh}
use devclego.MinMax.{MinMax, minmax_add_pipe, minmax_rem_pipe}
use devclego.MinMax.Reports.{Kept, Kept-step}
use devclego.MinMax.Tracking.{minmax_add_pipe-reports, minmax_rem_pipe-reports}
use devclego.SlidingWindow.{Item, Plugin}
use devclego.SlidingWindow.Heard.{told, call_each, present, add_listeners}

-- The two pipes, on a state that is `none` once a call has faulted. `malloc` is the address that a
-- new node of a tree gets.
unfoldable pub make_minmax : (malloc : BinTree → Ptr) → (fuel : ℕ) → Plugin (Option MinMax)
unfolding minmax_add_pipe minmax_rem_pipe
make_minmax malloc fuel = record {
  rem_pipe = some (λ memory w datum. w >>= λ p. minmax_rem_pipe memory fuel p datum);
  add_pipe = some (λ memory w datum. w >>= λ p. minmax_add_pipe memory (malloc p.tree) p datum);
}

-- What the items of a window point at.
unfoldable pub data_of : List Item → List Ptr
data_of [] = []
data_of (item ∷ items) = item.datum ∷ data_of items

pub data_of-append : (xs ys : List Item) → data_of (xs ++ ys) ≡ data_of xs ++ data_of ys
unfolding data_of
data_of-append [] ys = refl
data_of-append (x ∷ xs) ys = ap (◌∷◌ x.datum) (data_of-append xs ys)

pub length-data_of : (xs : List Item) → length (data_of xs) ≡ length xs
unfolding data_of
length-data_of [] = refl
length-data_of (x ∷ xs) = ap suc (length-data_of xs)

no_more : (n : ℕ) → n + length {A = Item} [] ≡ n
no_more n = omega arith

count_on : (n k : ℕ) → n + suc k ≡ n + 1 + k
count_on n k = omega arith

module _ (heap : ℕ → ℕ) (m : IsMemory heap) (malloc : BinTree → Ptr) (fuel : ℕ) where
  -- An allocation gives a node that is in no use.
  abbrev pub IsMalloc : Type 0
  IsMalloc = (t : BinTree) (spares : List Ptr) → IsTree heap t spares → IsFresh t spares (malloc t)

  one_leaves :
      (item : Item) (items : List Item) (old : MinMax) (n : ℕ) (w : Option MinMax)
      → length (item ∷ items) < sign
      → length (item ∷ items) ≤ fuel
      → Kept heap old n w (data_of (item ∷ items))
      → Kept heap old (n + 1) (w >>= λ p. minmax_rem_pipe heap fuel p item.datum) (data_of items)
  unfolding Kept data_of
  one_leaves item items old n w small enough (p, spares, stats, e, t, _, _, same, calls, many, _) =
      rw e (
        Kept-step heap old n p stats (minmax_rem_pipe heap fuel p item.datum) (data_of items) same
          calls many
          (minmax_rem_pipe-reports heap m fuel p spares (data_of items) item.datum t
            (omega (arith, small, length-data_of items))
            (omega (arith, enough, length-data_of items))))

  -- Every item that leaves is one more change.
  pub told-keeps :
      (gone left : List Item) (old : MinMax) (n : ℕ) (w : Option MinMax)
      → length (gone ++ left) < sign
      → length (gone ++ left) ≤ fuel
      → Kept heap old n w (data_of (gone ++ left))
      → Kept heap old
          (n + length gone)
          (told (make_minmax malloc fuel ∷ []) heap w gone)
          (data_of left)
  unfolding told call_each present make_minmax
  told-keeps [] left old n w small enough r = rw (no_more n) r
  told-keeps (item ∷ gone) left old n w small enough r = rw (count_on n (length gone)) (
      told-keeps gone left old (n + 1) (w >>= λ p. minmax_rem_pipe heap fuel p item.datum)
        (omega (arith, small)) (omega (arith, enough))
        (one_leaves item (gone ++ left) old n w small enough r))

  pub added-keeps :
      IsMalloc
      → (left : List Item) (new : Item) (old : MinMax) (n : ℕ) (w : Option MinMax)
      → length (left ++ new ∷ []) < sign
      → Kept heap old n w (data_of left)
      → Kept heap old
          (n + 1)
          (call_each (add_listeners (make_minmax malloc fuel ∷ [])) heap w new.datum)
          (data_of (left ++ new ∷ []))
  unfolding call_each present make_minmax data_of Kept
  added-keeps fresh left new old n w small (p, spares, stats, e, t, _, _, same, calls, many, _) =
      rw (e, data_of-append left (new ∷ []))
        (Kept-step heap old n p stats (minmax_add_pipe heap (malloc p.tree) p new.datum)
          (data_of left ++ new.datum ∷ []) same calls many
          (minmax_add_pipe-reports heap m (malloc p.tree) p spares (data_of left) new.datum t
            (fresh p.tree spares t.whole)
            (omega (arith, small, length-append left (new ∷ []), length-data_of left))))
