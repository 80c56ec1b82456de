-- ===== src/SlidingWindow/AddData.antt =====
-- `slidingwindow_add_data`: what comes, what leaves, and what the plugins hear of it.
use mathlib.Core.List.{map-append}
use devclego.Prelude.{
  ==_iff, Bool-cases, List, Option, [], ap, arith, if◌then◌else◌, inl, inr, length, length-drop,
  map, refl, some, suc, zero, ℕ, ◌++◌, ◌+◌, ◌<◌, ◌==◌, ◌∙◌, ◌∷◌, ◌≡◌, ◌≢◌, ◌≤◌,
}
use devclego.Puffer.{Puffer, datapuffer_write}
use devclego.Puffer.Inv.{contents, write-fits}
use devclego.Puffer.Vacant.{write-IsVacant}
use devclego.SlidingWindow.{
  Item, Storage, Window, memory_of, add_pipes, keep, take_item, window_refresh, window_add_data,
}
use devclego.SlidingWindow.Inv.{IsWindow, IsSame, count-items, IsSame-refl, IsSame-trans}
use devclego.SlidingWindow.Heard.{told, call_each, add_listeners, add_pipes_lem}
use devclego.SlidingWindow.Storing.{IsStorage, stored, place, keep_lem, stored-IsStorage}
use devclego.SlidingWindow.Refresh.{outdated, remaining, readings, time_loop_lem}
use devclego.SlidingWindow.Leaving.{excess, within, told-append, num_loop_lem, take_item_lem}

-- With a time limit, those that are too old leave first; 0 is no limit.
module _ (clock : ℕ → ℕ) (limit t : ℕ) (items : List Item) where
  abbrev pub old_ones : List Item
  old_ones = if limit == 0 then [] else outdated clock limit t items

  abbrev pub young_ones : List Item
  young_ones = if limit == 0 then items else remaining clock limit t items

  abbrev pub read_clock : ℕ
  read_clock = if limit == 0 then t else readings clock limit t items

within_fits :
    (cap : ℕ) (items : List Item)
    → 0 < cap
    → length (within cap items) ≤ cap
    → length (within cap items) < cap
within_fits cap items pos fits = elim (Bool-cases (length items == cap)) [
  | inl full ↦
      let e = (==_iff (length items) cap).0 full in
      rw full (omega (arith, length-drop 1 items, e, pos))
  | inr less ↦
      let ne : length items ≢ cap = ground (arith, less) in
      let le : length items ≤ cap = rw less at fits in rw less (omega (arith, ne, le))
]

last_item :
    (items : List Item) (new : Item) (p : Puffer Item)
    → contents p ≡ map some items
    → contents p ++ some new ∷ [] ≡ map some (items ++ new ∷ [])
last_item items new p e = rw (e, map-append)

module _ {W : Type 0} (clock heap : ℕ → ℕ) where
  -- `slidingwindow_refresh`: the items that are too old leave, and then the oldest one if the
  -- others are as many as the window holds; the plugins are told once of each.
  pub window_refresh_lem :
      (items : List Item) (fuel : ℕ) (v : Window W) (w : W)
      → IsWindow v items
      → length items + 1 < fuel
      → (v' : Window W) × (window_refresh clock heap fuel v w
          ≡ some (
            v',
            told v.plugins (memory_of heap v.storage) w (
                old_ones clock v.time_limit v.ticks items
                ++ excess v.tracked.abs_length (young_ones clock v.time_limit v.ticks items)),
          ))
        × IsWindow v' (within v.tracked.abs_length (young_ones clock v.time_limit v.ticks items))
        × IsSame v v'
        × (v'.ticks ≡ read_clock clock v.time_limit v.ticks items)
  unfolding window_refresh told
  window_refresh_lem items zero v w i f = absurd (omega (arith, f))
  window_refresh_lem items (suc zero) v w i f = absurd (omega (arith, f))
  window_refresh_lem items (suc (suc fuel)) v w i f = elim (Bool-cases (v.time_limit == 0)) [
    | inl never ↦ rw never (num_loop_lem clock heap items fuel v v w (IsSame-refl v) i)
    | inr sometimes ↦
        let (v₁, ran, i₁, same, t) =
          time_loop_lem clock heap items (suc (suc fuel)) v.ticks v v w (IsSame-refl v) refl i
            (omega (arith, f)) in
        let w₁ =
          told v.plugins (memory_of heap v.storage) w (outdated clock v.time_limit v.ticks items) in
        let (v', done, i', same', t') =
          num_loop_lem clock heap (remaining clock v.time_limit v.ticks items) fuel v v₁ w₁ same
            i₁ in
        rw sometimes (v', rw (ran, done, told-append), i', same', t' ∙ t)
  ]

  add_run :
      (fuel : ℕ) (v v₁ v₂ : Window W) (w w₁ : W) (source datum : ℕ) (storage' : Option Storage)
      (p' : Puffer Item)
      → window_refresh clock heap fuel v w ≡ some (v₁, w₁)
      → take_item v₁ ≡ some (v₂, record { datum = 0; pushed = 0 })
      → keep heap v₂.storage source ≡ some (storage', datum)
      → datapuffer_write v₂.tracked (some (record { datum = datum; pushed = clock v₂.ticks }))
        ≡ some p'
      → window_add_data clock heap fuel v w source
        ≡ some (
          record v₂ { tracked = p'; storage = storage'; ticks = v₂.ticks + 1 },
          add_pipes v₂.plugins (memory_of heap storage') w₁ datum,
        )
  unfolding window_add_data
  add_run fuel v v₁ v₂ w w₁ source datum storage' p' ran taken kept done =
      rw (ran, taken, kept, done)

  -- `slidingwindow_add_data` on a valid window, whose storage, if there is one, has as many
  -- cells as it says, with fuel for its items and two more: the items that are too old leave, and
  -- then the oldest one if the window is full. Of each that leaves, oldest first, every plugin that
  -- has a removal pipe is told once, and then every plugin that has an adding pipe is told of the new
  -- one, in the order of the plugins. The new item is the last one behind those that are left; it
  -- carries the time of the next reading of the clock and the address of the number, or that of its
  -- copy in the next cell of the storage.
  pub window_add_data_lem :
      (items : List Item) (fuel : ℕ) (v : Window W) (w : W) (source : ℕ)
      → IsWindow v items
      → length items + 1 < fuel
      → IsStorage v.storage
      → (v' : Window W) × (window_add_data clock heap fuel v w source
          ≡ some (
            v',
            call_each
                (add_listeners v.plugins)
                (memory_of heap (stored heap v.storage source))
                (told v.plugins (memory_of heap v.storage) w (
                  old_ones clock v.time_limit v.ticks items
                  ++ excess v.tracked.abs_length (young_ones clock v.time_limit v.ticks items)))
                (place v.storage source),
          ))
        × IsWindow v' (
            within v.tracked.abs_length (young_ones clock v.time_limit v.ticks items)
            ++ record {
              datum = place v.storage source;
              pushed = clock (read_clock clock v.time_limit v.ticks items);
            }
              ∷ [])
        × (v'.plugins ≡ v.plugins)
        × (v'.storage ≡ stored heap v.storage source)
        × IsStorage v'.storage
        × (v'.tracked.abs_length ≡ v.tracked.abs_length)
  unfolding window_add_data
  window_add_data_lem items fuel v w source i f room_in =
      let kept = keep_lem heap v.storage source room_in in
      let storage' = stored heap v.storage source in
      let datum = place v.storage source in
      let (v₁, ran, i₁, same₁, t₁) = window_refresh_lem items fuel v w i f in
      let left = within v.tracked.abs_length (young_ones clock v.time_limit v.ticks items) in
      let (v₂, taken, i₂, same₂, t₂) = take_item_lem clock heap v₁ left i₁ in
      let same = IsSame-trans v v₁ v₂ same₁ same₂ in
      let new : Item = record { datum = datum; pushed = clock v₂.ticks } in
      let n = count-items v₂ left i₂ in
      let cap = same.capacity in
      let pos = i.ring.positive in
      let room : length left < v.tracked.abs_length =
        within_fits v.tracked.abs_length (young_ones clock v.time_limit v.ticks items) pos
          (omega (arith, n, cap, i₂.ring.count_in)) in
      let (p', done, valid, cap', more, c) =
        write-fits v₂.tracked (some new) i₂.ring (omega (arith, n, cap, room)) in
      let vacant =
        write-IsVacant v₂.tracked p' (some new) i₂.ring i₂.vacant (omega (arith, n, cap, room))
          done in
      let w₁ = told v.plugins (memory_of heap v.storage) w (
        old_ones clock v.time_limit v.ticks items
        ++ excess v.tracked.abs_length (young_ones clock v.time_limit v.ticks items)) in
      let v' : Window W = record v₂ { tracked = p'; storage = storage'; ticks = v₂.ticks + 1 } in
      (
        v',
        add_run fuel v v₁ v₂ w w₁ source datum storage' p' ran taken (rw same.storage kept) done
            ∙ ap (λ plugins. some (v', add_pipes plugins (memory_of heap storage') w₁ datum))
                same.plugins
            ∙ ap (λ told_new. some (v', told_new))
                (add_pipes_lem v.plugins (memory_of heap storage') w₁ datum),
        record {
          ring = valid;
          vacant = vacant;
          holds =
              c
              ∙ last_item left new v₂.tracked i₂.holds
              ∙ ap (λ t. map some (left ++ record { datum = datum; pushed = clock t } ∷ []))
                  (t₂ ∙ t₁);
          spare_ring = i₂.spare_ring;
          spares = i₂.spares;
          spare_holds = i₂.spare_holds;
        },
        same.plugins,
        refl,
        stored-IsStorage heap v.storage source room_in,
        cap' ∙ cap,
      )
