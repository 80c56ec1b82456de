-- ===== src/SlidingWindow/Leaving.antt =====
-- `slidingwindow_clear`, the limit on the number of items, and the spare items.
use mathlib.Core.List.{cons≢nil, head-eq_of_cons-eq, tail-eq_of_cons-eq}
use devclego.Prelude.{
  Bool-cases, List, Option, [], arith, drop, false, if◌then◌else◌, inl, inr, length, map, refl,
  some, suc, sym, take, true, zero, ℕ, ℕ_discrete, ◌++◌, ◌<◌, ◌==◌, ◌∙◌, ◌∷◌, ◌≡◌,
}
use devclego.Puffer.{datapuffer_isfull, datapuffer_isempty}
use devclego.Puffer.Inv.{read-some, contents}
use devclego.SlidingWindow.{
  Item, Plugin, Window, memory_of, take_item, window_rem, window_clear, num_loop,
}
use devclego.SlidingWindow.Inv.{
  IsWindow, IsSame, count-items, window_rem_lem, IsSame-refl, IsSame-trans,
}
use devclego.SlidingWindow.Heard.{told, call_each, rem_listeners}

-- What the limit on the number of items makes leave, and what it lets stay.
abbrev pub excess : ℕ → List Item → List Item
excess cap items = if length items == cap then take 1 items else []

abbrev pub within : ℕ → List Item → List Item
within cap items = if length items == cap then drop 1 items else items

pub told-append :
    {W : Type 0} (plugins : List (Plugin W)) (memory : ℕ → ℕ) (xs ys : List Item) (w : W)
    → told plugins memory w (xs ++ ys) ≡ told plugins memory (told plugins memory w xs) ys
unfolding told
told-append plugins memory [] ys w = refl
told-append plugins memory (x ∷ xs) ys w =
    told-append plugins memory xs ys (call_each (rem_listeners plugins) memory w x.datum)

head_item :
    (items : List Item) (x : Option Item) (xs : List (Option Item))
    → x ∷ xs ≡ map some items
    → (first : Item) × (rest : List Item) × (x ≡ some first) × (xs ≡ map some rest)
head_item [] x xs e = absurd (cons≢nil e)
head_item (item ∷ items) x xs e = (item, items, head-eq_of_cons-eq e, tail-eq_of_cons-eq e)

module _ {W : Type 0} (clock heap : ℕ → ℕ) where
  num_stop :
      (fuel : ℕ) (v : Window W) (w : W) (items : List Item)
      → IsWindow v items
      → (length items == v.tracked.abs_length) ≡ false
      → num_loop clock heap (suc fuel) v w ≡ some (v, w)
  unfolding num_loop datapuffer_isfull
  num_stop fuel v w items i less =
      let n = count-items v items i in
      let test : (v.tracked.count == v.tracked.abs_length) ≡ false = rw n less in rw test

  num_round :
      (fuel : ℕ) (v v₂ : Window W) (w w₂ : W) (items : List Item)
      → IsWindow v items
      → (length items == v.tracked.abs_length) ≡ true
      → window_rem clock heap v w ≡ some (v₂, w₂)
      → num_loop clock heap (suc fuel) v w ≡ num_loop clock heap fuel v₂ w₂
  unfolding num_loop datapuffer_isfull
  num_round fuel v v₂ w w₂ items i full ran =
      let n = count-items v items i in
      let test : (v.tracked.count == v.tracked.abs_length) ≡ true = rw n full in rw (test, ran)

  pub num_loop_lem :
      (items : List Item) (fuel : ℕ) (u v : Window W) (w : W)
      → IsSame u v
      → IsWindow v items
      → (v' : Window W) × (num_loop clock heap (suc (suc fuel)) v w
          ≡ some
              (v', told u.plugins (memory_of heap u.storage) w (excess u.tracked.abs_length items)))
        × IsWindow v' (within u.tracked.abs_length items)
        × IsSame u v'
        × (v'.ticks ≡ v.ticks)
  unfolding told
  num_loop_lem [] fuel u v w same i =
      let pos = i.ring.positive in
      let less : (0 == u.tracked.abs_length) ≡ false = ground (arith, same.capacity, pos) in
      let less' : (0 == v.tracked.abs_length) ≡ false = rw same.capacity less in
      rw less (v, num_stop (suc fuel) v w [] i less', i, same, refl)
  num_loop_lem (item ∷ items) fuel u v w same i =
      elim (Bool-cases (suc (length items) == u.tracked.abs_length)) [
        | inr less ↦
            rw less
              (v, num_stop (suc fuel) v w (item ∷ items) i (rw same.capacity less), i, same, refl)
        | inl full ↦
            let (v₂, ran, i₂, same₂, t) = window_rem_lem clock heap v w item items i in
            let less : (length items == v₂.tracked.abs_length) ≡ false =
              ground (arith, full, same₂.capacity, same.capacity) in
            rw full (
              v₂,
              num_round (suc fuel) v v₂ w
                    (call_each (rem_listeners u.plugins) (memory_of heap u.storage) w item.datum)
                    (item ∷ items) i (rw same.capacity full)
                    (rw (sym same.plugins, sym same.storage) ran)
                  ∙ num_stop fuel v₂
                      (call_each (rem_listeners u.plugins) (memory_of heap u.storage) w item.datum)
                      items i₂ less,
              i₂,
              IsSame-trans u v v₂ same same₂,
              t,
            )
      ]

  clear_round :
      (fuel : ℕ) (v v₂ : Window W) (w w₂ : W)
      → 0 < v.tracked.count
      → window_rem clock heap v w ≡ some (v₂, w₂)
      → window_clear clock heap (suc fuel) v w ≡ window_clear clock heap fuel v₂ w₂
  unfolding window_clear datapuffer_isempty
  clear_round fuel v v₂ w w₂ pos ran =
      let test : (v.tracked.count == 0) ≡ false = ground (arith, pos) in rw (test, ran)

  clear_stop :
      (fuel : ℕ) (v : Window W) (w : W)
      → v.tracked.count ≡ 0
      → window_clear clock heap (suc fuel) v w ≡ some (v, w)
  unfolding window_clear datapuffer_isempty
  clear_stop fuel v w none_in =
      let test : (v.tracked.count == 0) ≡ true = ground (arith, none_in) in rw test

  clear_loop_lem :
      (items : List Item) (fuel : ℕ) (u v : Window W) (w : W)
      → IsSame u v
      → IsWindow v items
      → length items < fuel
      → (v' : Window W) × (window_clear clock heap fuel v w
          ≡ some (v', told u.plugins (memory_of heap u.storage) w items))
        × IsWindow v' []
        × IsSame u v'
  unfolding told
  clear_loop_lem items zero u v w same i f = absurd (omega (arith, f))
  clear_loop_lem [] (suc fuel) u v w same i f =
      (v, clear_stop fuel v w (count-items v [] i), i, same)
  clear_loop_lem (item ∷ items) (suc fuel) u v w same i f =
      let n = count-items v (item ∷ items) i in
      let (v₂, ran, i₂, same₂, t) = window_rem_lem clock heap v w item items i in
      let w₂ = call_each (rem_listeners u.plugins) (memory_of heap u.storage) w item.datum in
      let (v', done, i', same') =
        clear_loop_lem items fuel u v₂ w₂ (IsSame-trans u v v₂ same same₂) i₂ (omega (arith, f)) in
      (
        v',
        clear_round fuel v v₂ w w₂ (omega (arith, n)) (rw (sym same.plugins, sym same.storage) ran)
            ∙ done,
        i',
        same',
      )

  -- `slidingwindow_clear` on a valid window, with fuel for its items and one more, tells every plugin
  -- that has a removal pipe once of every item, oldest first, and leaves none. A plugin without the
  -- pipe is passed by, and those behind it are told.
  pub window_clear_lem :
      (items : List Item) (fuel : ℕ) (v : Window W) (w : W)
      → IsWindow v items
      → length items < fuel
      → (v' : Window W) × (window_clear clock heap fuel v w
          ≡ some (v', told v.plugins (memory_of heap v.storage) w items))
        × IsWindow v' []
        × IsSame v v'
  window_clear_lem items fuel v w i f = clear_loop_lem items fuel v v w (IsSame-refl v) i f

  -- The item that the window gets is zeroed, and taken from the spare ones if there are any.
  pub take_item_lem :
      (v : Window W) (items : List Item)
      → IsWindow v items
      → (v' : Window W) × (take_item v ≡ some (v', record { datum = 0; pushed = 0 }))
        × IsWindow v' items
        × IsSame v v'
        × (v'.ticks ≡ v.ticks)
  unfolding take_item datapuffer_isempty
  take_item_lem v items i = elim (ℕ_discrete v.recycle.count 0) [
    | yes none_in ↦
        let test : (v.recycle.count == 0) ≡ true = ground (arith, none_in) in
        (v, rw test, i, IsSame-refl v, refl)
    | no some_in ↦
        let test : (v.recycle.count == 0) ≡ false = ground (arith, some_in) in
        let (p', x, got, valid, cap, fewer, c) =
          read-some v.recycle i.spare_ring (omega (arith, some_in)) in
        let (spare, others, first, rest) =
          head_item i.spares x (contents p') (sym c ∙ i.spare_holds) in
        (
          record v { recycle = p' },
          rw (test, got, first),
          record {
            ring = i.ring;
            vacant = i.vacant;
            holds = i.holds;
            spare_ring = valid;
            spares = others;
            spare_holds = rest;
          },
          record { capacity = refl; plugins = refl; storage = refl; time_limit = refl },
          refl,
        )
  ]
