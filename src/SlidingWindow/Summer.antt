-- ===== src/SlidingWindow/Summer.antt =====
-- The plugin of lib/lib_swplugins.c that keeps the sum of the window: `make_swint32_stater`.
use devclego.Prelude.{
  Bool, Bool-cases, List, Option, [], add32, ap, arith, if◌then◌else◌, inl, inr, length, ltb, none,
  refl, some, sub32, sym, take-append-drop, word, ℕ, ◌%◌, ◌++◌, ◌+◌, ◌<◌, ◌==◌, ◌∙◌, ◌∷◌, ◌≡◌,
  ◌>>=◌,
}
use mathlib.Core.List.{append_assoc}
use devclego.SlidingWindow.{Item, Plugin, Window, memory_of, window_add_data}
use devclego.SlidingWindow.Heard.{told, call_each, present, add_listeners}
use devclego.SlidingWindow.Storing.{IsStorage, stored, place}
use devclego.SlidingWindow.Refresh.{outdated, remaining}
use devclego.SlidingWindow.Leaving.{excess, within}
use devclego.SlidingWindow.AddData.{old_ones, young_ones, read_clock, window_add_data_lem}
use devclego.SlidingWindow.Inv.{IsWindow, count-items}

-- `swint32summer`: the sum, and what the callback was told so far, if it is not NULL.
pub record Summer : Type 0 where
  pub sum : ℕ
  pub has_pipe : Bool
  pub reports : List ℕ

unfoldable pub summer_ctor : Bool → Summer
summer_ctor has_pipe = record { sum = 0; has_pipe = has_pipe; reports = [] }

abbrev pub with_sum : Summer → ℕ → Summer
with_sum s n = record s { sum = n; reports = if s.has_pipe then s.reports ++ n ∷ [] else s.reports }

unfoldable pub sum_add_pipe : (ℕ → ℕ) → Summer → ℕ → Summer
sum_add_pipe memory s datum = with_sum s (add32 s.sum (memory datum))

unfoldable pub sum_rem_pipe : (ℕ → ℕ) → Summer → ℕ → Summer
sum_rem_pipe memory s datum = with_sum s (sub32 s.sum (memory datum))

unfoldable pub make_summer : Plugin Summer
unfolding sum_add_pipe sum_rem_pipe
make_summer = record { rem_pipe = some sum_rem_pipe; add_pipe = some sum_add_pipe }

-- The sum of the numbers that the items point at.
unfoldable pub total : (ℕ → ℕ) → List Item → ℕ
total memory [] = 0
total memory (item ∷ items) = memory item.datum + total memory items

total-append :
    (memory : ℕ → ℕ) (xs ys : List Item)
    → total memory (xs ++ ys) ≡ total memory xs + total memory ys
unfolding total
total-append memory [] ys = omega arith
total-append memory (x ∷ xs) ys = omega (arith, total-append memory xs ys)

-- What leaves and what stays are all the items.
outdated-remaining :
    (clock : ℕ → ℕ) (limit t : ℕ) (items : List Item)
    → outdated clock limit t items ++ remaining clock limit t items ≡ items
unfolding outdated remaining
outdated-remaining clock limit t [] = refl
outdated-remaining clock limit t (item ∷ items) =
    elim (Bool-cases (ltb (clock t) (item.pushed + limit))) [
      | inl young ↦ rw young
      | inr old ↦ rw (old, outdated-remaining clock limit (t + 1) items)
    ]

pub old-young :
    (clock : ℕ → ℕ) (limit t : ℕ) (items : List Item)
    → old_ones clock limit t items ++ young_ones clock limit t items ≡ items
old-young clock limit t items = elim (Bool-cases (limit == 0)) [
  | inl never ↦ rw never
  | inr sometimes ↦ rw (sometimes, outdated-remaining clock limit t items)
]

pub excess-within : (cap : ℕ) (items : List Item) → excess cap items ++ within cap items ≡ items
excess-within cap items = elim (Bool-cases (length items == cap)) [
  | inl full ↦ rw (full, take-append-drop 1 items)
  | inr less ↦ rw less
]

module _ (memory : ℕ → ℕ) (bounded : (a : ℕ) → memory a < word) where
  -- Items that leave are taken off the sum.
  told-total :
      (gone left : List Item) (s : Summer)
      → s.sum ≡ total memory (gone ++ left) % word
      → (told (make_summer ∷ []) memory s gone).sum ≡ total memory left % word
  unfolding told call_each present make_summer sum_rem_pipe total
  told-total [] left s e = e
  told-total (item ∷ gone) left s e =
      let b = bounded item.datum in
      told-total gone left (with_sum s (sub32 s.sum (memory item.datum))) (omega (arith, e, b))

  added-total :
      (left : List Item) (new : Item) (s : Summer)
      → s.sum ≡ total memory left % word
      → (call_each (add_listeners (make_summer ∷ [])) memory s new.datum).sum
        ≡ total memory (left ++ new ∷ []) % word
  unfolding call_each present make_summer sum_add_pipe total
  added-total left new s e = omega (arith, e, total-append memory left (new ∷ []))

module _ (clock heap : ℕ → ℕ) where
  -- A sequence of calls of `slidingwindow_add_data`.
  unfoldable pub add_all :
      (fuel : ℕ) → Window Summer → Summer → List ℕ → Option (Window Summer × Summer)
  add_all fuel v s [] = some (v, s)
  add_all fuel v s (source ∷ sources) = do
    (v', s') ← window_add_data clock heap fuel v s source
    add_all fuel v' s' sources

module _ (clock heap : ℕ → ℕ) (bounded : (a : ℕ) → heap a < word) where
  -- One call, on a window without a storage of its own whose only plugin is the sum.
  add_one :
      (items : List Item) (fuel : ℕ) (v : Window Summer) (s : Summer) (source : ℕ)
      → v.plugins ≡ make_summer ∷ []
      → v.storage ≡ none
      → IsWindow v items
      → length items + 1 < fuel
      → s.sum ≡ total heap items % word
      → (v' : Window Summer) × (s' : Summer) × (items' : List Item) × (window_add_data clock heap
            fuel v s source
          ≡ some (v', s'))
        × IsWindow v' items'
        × (s'.sum ≡ total heap items' % word)
        × (v'.plugins ≡ make_summer ∷ [])
        × (v'.storage ≡ none)
        × (v'.tracked.abs_length ≡ v.tracked.abs_length)
  unfolding memory_of IsStorage stored place
  add_one items fuel v s source only bare i f e =
      let cap = v.tracked.abs_length in
      let young = young_ones clock v.time_limit v.ticks items in
      let gone = old_ones clock v.time_limit v.ticks items ++ excess cap young in
      let left = within cap young in
      let new : Item = record {
        datum = source;
        pushed = clock (read_clock clock v.time_limit v.ticks items);
      } in
      let all : gone ++ left ≡ items =
        rw (append_assoc, excess-within cap young, old-young clock v.time_limit v.ticks items) in
      let (v', ran, i', plugins, storage, _, same) =
        window_add_data_lem clock heap items fuel v s source i f (rw bare tt) in
      let s₁ = told (make_summer ∷ []) heap s gone in
      let e₁ : s₁.sum ≡ total heap left % word =
        told-total heap bounded gone left s (e ∙ ap (λ l. total heap l % word) (sym all)) in
      (
        v',
        call_each (add_listeners (make_summer ∷ [])) heap s₁ source,
        left ++ new ∷ [],
        ran ∙ rw (only, bare),
        rw bare at i',
        added-total heap bounded left new s₁ e₁,
        plugins ∙ only,
        storage ∙ rw bare,
        same,
      )

  -- Whatever numbers are added to a window whose only plugin is the sum and that has no storage of
  -- its own, no call faults, and in the end the sum is that of the numbers in the window, modulo
  -- `2 ^ 32`. The numbers in memory are patterns of 32 bits and do not change.
  pub summer_lem :
      (sources : List ℕ) (fuel : ℕ) (v : Window Summer) (s : Summer) (items : List Item)
      → v.plugins ≡ make_summer ∷ []
      → v.storage ≡ none
      → IsWindow v items
      → v.tracked.abs_length + 1 < fuel
      → s.sum ≡ total heap items % word
      → (v' : Window Summer) × (s' : Summer) × (items' : List Item) × (add_all clock heap fuel v s
            sources
          ≡ some (v', s'))
        × IsWindow v' items'
        × (s'.sum ≡ total heap items' % word)
  unfolding add_all
  summer_lem [] fuel v s items only bare i f e = (v, s, items, refl, i, e)
  summer_lem (source ∷ sources) fuel v s items only bare i f e =
      let n = count-items v items i in
      let room = i.ring.count_in in
      let (v₁, s₁, items₁, ran, i₁, e₁, only₁, bare₁, same) =
        add_one items fuel v s source only bare i (omega (arith, n, room, f)) e in
      let (v', s', items', done, i', e') =
        summer_lem sources fuel v₁ s₁ items₁ only₁ bare₁ i₁ (omega (arith, same, f)) e₁ in
      (v', s', items', rw (ran, done), i', e')
