-- ===== src/MinMax/InWindow.antt =====
-- A sliding window whose only plugin is the one of the minimum and the maximum.
use mathlib.Core.List.{append_assoc}
use devclego.Prelude.{
  List, Option, [], ap, arith, length, length-append, none, refl, some, ℕ, ◌*◌, ◌++◌, ◌+◌, ◌<◌, ◌∙◌,
  ◌∷◌, ◌≡◌, ◌≤◌, ◌>>=◌,
}
use devclego.Store.{Ptr}
use devclego.BinTree.{BinTree}
use devclego.BinTree.Inv.{IsMemory}
use devclego.MinMax.{MinMax}
use devclego.MinMax.Reports.{Kept}
use devclego.MinMax.Plugin.{make_minmax, data_of, IsMalloc, told-keeps, added-keeps}
use devclego.SlidingWindow.{Item, Window, memory_of, window_add_data}
use devclego.SlidingWindow.Heard.{told, call_each, add_listeners}
use devclego.SlidingWindow.Storing.{IsStorage, stored, place}
use devclego.SlidingWindow.Leaving.{excess, within}
use devclego.SlidingWindow.AddData.{old_ones, young_ones, read_clock, window_add_data_lem}
use devclego.SlidingWindow.Summer.{old-young, excess-within}
use devclego.SlidingWindow.Inv.{IsWindow, count-items}

module _ (clock heap : ℕ → ℕ) where
  -- A sequence of calls of `slidingwindow_add_data`.
  unfoldable pub come_all :
      (fuel : ℕ)
      → Window (Option MinMax)
      → Option MinMax
      → List ℕ
      → Option (Window (Option MinMax) × Option MinMax)
  come_all fuel v w [] = some (v, w)
  come_all fuel v w (source ∷ sources) = do
    (v', w') ← window_add_data clock heap fuel v w source
    come_all fuel v' w' sources

module _ (clock heap : ℕ → ℕ) (m : IsMemory heap) (malloc : BinTree → Ptr) (tree_fuel : ℕ)
    (fresh : IsMalloc heap m malloc tree_fuel) where
  -- The window between two calls, with what the plugin keeps, `n` changes after the state `old`.
  pub record IsServed (old : MinMax) (n : ℕ) (v : Window (Option MinMax)) (w : Option MinMax)
      (items : List Item) : Type 0 where
    pub plugins : v.plugins ≡ make_minmax malloc tree_fuel ∷ []
    pub storage : v.storage ≡ none
    pub whole : IsWindow v items
    pub fits : v.tracked.abs_length ≤ tree_fuel
    pub kept : Kept heap old n w (data_of items)

  come_one :
      (items : List Item) (fuel : ℕ) (old : MinMax) (n : ℕ) (v : Window (Option MinMax))
      (w : Option MinMax) (source : ℕ)
      → IsServed old n v w items
      → length items + 1 < fuel
      → (v' : Window (Option MinMax)) × (w' : Option MinMax) × (items' : List Item) × (n' : ℕ)
        × (window_add_data clock heap fuel v w source ≡ some (v', w'))
        × IsServed old n' v' w' items'
        × (n' + length items' ≡ n + length items + 2)
        × (v'.tracked.abs_length ≡ v.tracked.abs_length)
  unfolding memory_of IsStorage stored place
  come_one items fuel old n v w source s f =
      let cap = v.tracked.abs_length in
      let young = young_ones clock v.time_limit v.ticks items in
      let gone = old_ones clock v.time_limit v.ticks items ++ excess cap young in
      let left = within cap young in
      let new : Item = record {
        datum = source;
        pushed = clock (read_clock clock v.time_limit v.ticks items);
      } in
      let all : gone ++ left ≡ items =
        rw (append_assoc, excess-within cap young, old-young clock v.time_limit v.ticks items) in
      let (v', ran, i', plugins, storage, _, same) =
        window_add_data_lem clock heap items fuel v w source s.whole f (rw s.storage tt) in
      let i₂ : IsWindow v' (left ++ new ∷ []) = rw s.storage at i' in
      let plugin = make_minmax malloc tree_fuel ∷ [] in
      let w₁ = told plugin heap w gone in
      let few : length (gone ++ left) ≤ cap =
        omega (arith, ap length all, count-items v items s.whole, s.whole.ring.count_in) in
      let r₁ : Kept heap old (n + length gone) w₁ (data_of left) =
        told-keeps heap m malloc tree_fuel gone left old n w
          (omega (arith, few, s.whole.ring.small)) (omega (arith, few, s.fits)) (rw all s.kept) in
      let w' = call_each (add_listeners plugin) heap w₁ source in
      (
        v',
        w',
        left ++ new ∷ [],
        n + length gone + 1,
        ran ∙ rw (s.plugins, s.storage),
        record {
          plugins = plugins ∙ s.plugins;
          storage = storage ∙ rw s.storage;
          whole = i₂;
          fits = omega (arith, same, s.fits);
          kept =
              added-keeps heap m malloc tree_fuel fresh left new old (n + length gone) w₁
                (omega
                  (arith, count-items v' (left ++ new ∷ []) i₂, i₂.ring.count_in, i₂.ring.small))
                r₁;
        },
        omega (arith, ap length all, length-append gone left, length-append left (new ∷ [])),
        same,
      )

  -- Whatever numbers are added to a window whose only plugin is that of the minimum and the maximum
  -- and that has no storage of its own, no call and no pipe faults, and in the end the plugin has
  -- the minimum and the maximum of the numbers in the window. If the user gave a pipe, it was called
  -- once for each number that came and once for each that left, besides the `n` calls since the state
  -- `old` before them, and the last of all with these two; if not, there was no call. The numbers in
  -- memory are patterns of 32 bits and do not change, an allocation gives an address that is in no
  -- use, and the fuels are as much as the window holds, and two more for the window.
  pub minmax_window_lem :
      (sources : List ℕ) (fuel : ℕ) (old : MinMax) (n : ℕ) (v : Window (Option MinMax))
      (w : Option MinMax) (items : List Item)
      → IsServed old n v w items
      → v.tracked.abs_length + 1 < fuel
      → (v' : Window (Option MinMax)) × (w' : Option MinMax) × (items' : List Item) × (n' : ℕ)
        × (come_all clock heap fuel v w sources ≡ some (v', w'))
        × IsWindow v' items'
        × Kept heap old n' w' (data_of items')
        × (n' + length items' ≡ n + length items + 2 * length sources)
  unfolding come_all
  minmax_window_lem [] fuel old n v w items s f =
      (v, w, items, n, refl, s.whole, s.kept, omega arith)
  minmax_window_lem (source ∷ sources) fuel old n v w items s f =
      let count = count-items v items s.whole in
      let room = s.whole.ring.count_in in
      let (v₁, w₁, items₁, n₁, ran, s₁, sum₁, same) =
        come_one items fuel old n v w source s (omega (arith, count, room, f)) in
      let (v', w', items', n', done, i', r', sum') =
        minmax_window_lem sources fuel old n₁ v₁ w₁ items₁ s₁ (omega (arith, same, f)) in
      (v', w', items', n', rw (ran, done), i', r', omega (arith, sum₁, sum'))
