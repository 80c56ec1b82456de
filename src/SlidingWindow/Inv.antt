-- ===== src/SlidingWindow/Inv.antt =====
-- What holds of a window between two calls, and `_slidingwindow_rem`.
use mathlib.Core.List.{head-eq_of_cons-eq, tail-eq_of_cons-eq, map-append}
use devclego.Prelude.{
  List, Option, [], ap, arith, dec_lt, false, if◌then◌else◌, length, length-map, lt_signed, map,
  refl, sign, some, sym, true, ℕ, ◌++◌, ◌<◌, ◌==◌, ◌∙◌, ◌∷◌, ◌≡◌,
}
use devclego.Puffer.{Puffer, datapuffer_isfull}
use devclego.Puffer.Inv.{IsValid, contents, write-fits, read-some, length-contents, ctor-IsValid}
use devclego.Puffer.Vacant.{IsVacant, read-IsVacant, ctor-IsVacant}
use devclego.SlidingWindow.Heard.{call_each, rem_listeners, rem_pipes_lem}
use devclego.SlidingWindow.{
  Item, Storage, Window, default_num_limit, memory_of, window_rem, window_ctor,
}

-- The items of the puffer are these, oldest first, and none is NULL.
abbrev pub Holds : Puffer Item → List Item → Type 0
Holds p items = contents p ≡ map some items

pub record IsWindow {W : Type 0} (v : Window W) (items : List Item) : Type 0 where
  pub ring : IsValid v.tracked
  pub vacant : IsVacant v.tracked
  pub holds : Holds v.tracked items
  pub spare_ring : IsValid v.recycle
  pub spares : List Item
  pub spare_holds : Holds v.recycle spares

pub count-items :
    {W : Type 0} (v : Window W) (items : List Item)
    → IsWindow v items
    → v.tracked.count ≡ length items
count-items v items i = sym (length-contents v.tracked) ∙ ap length i.holds ∙ length-map items some

-- What a call leaves as it is.
pub record IsSame {W : Type 0} (v v' : Window W) : Type 0 where
  pub capacity : v'.tracked.abs_length ≡ v.tracked.abs_length
  pub plugins : v'.plugins ≡ v.plugins
  pub storage : v'.storage ≡ v.storage
  pub time_limit : v'.time_limit ≡ v.time_limit

pub IsSame-refl : {W : Type 0} (v : Window W) → IsSame v v
IsSame-refl v = record { capacity = refl; plugins = refl; storage = refl; time_limit = refl }

pub IsSame-trans : {W : Type 0} (u v v' : Window W) → IsSame u v → IsSame v v' → IsSame u v'
IsSame-trans u v v' s s' = record {
  capacity = s'.capacity ∙ s.capacity;
  plugins = s'.plugins ∙ s.plugins;
  storage = s'.storage ∙ s.storage;
  time_limit = s'.time_limit ∙ s.time_limit;
}

module _ {W : Type 0} (clock heap : ℕ → ℕ) where
  -- `_slidingwindow_rem` tells the plugins of the oldest item, which leaves.
  pub window_rem_lem :
      (v : Window W) (w : W) (item : Item) (items : List Item)
      → IsWindow v (item ∷ items)
      → (v' : Window W) × (window_rem clock heap v w
          ≡ some (v', call_each (rem_listeners v.plugins) (memory_of heap v.storage) w item.datum))
        × IsWindow v' items
        × IsSame v v'
        × (v'.ticks ≡ v.ticks)
  unfolding window_rem datapuffer_isfull
  window_rem_lem v w item items i =
      let n = count-items v (item ∷ items) i in
      let (p', x, got, valid, cap, fewer, c) = read-some v.tracked i.ring (omega (arith, n)) in
      let both : x ∷ contents p' ≡ some item ∷ map some items = sym c ∙ i.holds in
      let first : x ≡ some item = head-eq_of_cons-eq both in
      let others : contents p' ≡ map some items = tail-eq_of_cons-eq both in
      let heard = rem_pipes_lem v.plugins (memory_of heap v.storage) w item.datum in
      let empty = read-IsVacant v.tracked p' x i.ring i.vacant (omega (arith, n)) got in
      elim (dec_lt v.recycle.count v.recycle.abs_length) [
        | no full ↦
            let room = i.spare_ring.count_in in
            let is_full : (v.recycle.count == v.recycle.abs_length) ≡ true = ground (arith, room) in
            (
              record v { tracked = p' },
              rw (got, first, is_full, heard),
              record {
                ring = valid;
                vacant = empty;
                holds = others;
                spare_ring = i.spare_ring;
                spares = i.spares;
                spare_holds = i.spare_holds;
              },
              record { capacity = cap; plugins = refl; storage = refl; time_limit = refl },
              refl,
            )
        | yes room ↦
            let not_full : (v.recycle.count == v.recycle.abs_length) ≡ false = ground arith in
            let cleared : Item = record item { datum = 0 } in
            let (q', done, valid', cap', more, c') =
              write-fits v.recycle (some cleared) i.spare_ring room in
            (
              record v { tracked = p'; recycle = q' },
              rw (got, first, not_full, done, heard),
              record {
                ring = valid;
                vacant = empty;
                holds = others;
                spare_ring = valid';
                spares = i.spares ++ cleared ∷ [];
                spare_holds = rw (c', i.spare_holds, map-append);
              },
              record { capacity = cap; plugins = refl; storage = refl; time_limit = refl },
              refl,
            )
      ]

-- `slidingwindow_ctor` makes an empty valid window, with room for 32 items where the limit is 0.
pub window_ctor-IsWindow :
    {W : Type 0} (junk : Option Item) (num_limit time_limit : ℕ)
    (storage_maker : Option (ℕ → Storage))
    → num_limit < sign
    → IsWindow (window_ctor {W = W} junk num_limit time_limit storage_maker) []
unfolding window_ctor
window_ctor-IsWindow junk num_limit time_limit storage_maker small =
    let limit : ℕ = if num_limit == 0 then default_num_limit else num_limit in
    let spare : ℕ = if lt_signed 1024 limit then 1024 else limit in
    let pos : 0 < limit = ground arith in
    let low : limit < sign = ground arith in
    let pos' : 0 < spare = ground (arith, pos, low) in
    let low' : spare < sign = ground (arith, pos, low) in
    let (ring, holds) = ctor-IsValid junk limit pos low in
    let (ring', holds') = ctor-IsValid junk spare pos' low' in
    record {
      ring = ring;
      vacant = ctor-IsVacant junk limit;
      holds = holds;
      spare_ring = ring';
      spares = [];
      spare_holds = holds';
    }
