-- ===== src/SlidingWindow/Refresh.antt =====
-- `slidingwindow_refresh` and `slidingwindow_clear`: which items leave, and what the plugins hear.
use mathlib.Core.List.{head-eq_of_cons-eq}
use devclego.Prelude.{
  Bool, Bool-cases, List, Option, [], ap, arith, false, get_elem?-eq-get_or, get_or, if◌then◌else◌,
  inl, inr, length, ltb, none, refl, some, suc, sym, true, zero, ℕ, ◌+◌, ◌<◌, ◌∙◌, ◌∷◌, ◌≡◌,
}
use devclego.Puffer.{datapuffer_peek_first}
use devclego.Puffer.Inv.{contents}
use devclego.Puffer.Vacant.{is_null}
use devclego.Puffer.Window.{window_first}
use devclego.SlidingWindow.{Item, Window, memory_of, window_rem, time_loop}
use devclego.SlidingWindow.Heard.{told, call_each, rem_listeners}
use devclego.SlidingWindow.Inv.{IsWindow, IsSame, count-items, window_rem_lem, IsSame-trans}

-- Of the items, oldest first, those that are too old at the readings of the clock from `t` on, up
-- to the first that is not; the others; and the number of readings then.
module _ (clock : ℕ → ℕ) (limit : ℕ) where
  abbrev pub is_fresh : ℕ → Item → Bool
  is_fresh t item = ltb (clock t) (item.pushed + limit)

  unfoldable pub outdated : ℕ → List Item → List Item
  outdated t [] = []
  outdated t (item ∷ items) = if is_fresh t item then [] else item ∷ outdated (t + 1) items

  unfoldable pub remaining : ℕ → List Item → List Item
  remaining t [] = []
  remaining t (item ∷ items) = if is_fresh t item then item ∷ items else remaining (t + 1) items

  unfoldable pub readings : ℕ → List Item → ℕ
  readings t [] = t
  readings t (item ∷ items) = if is_fresh t item then t + 1 else readings (t + 1) items

null_is_none : {A : Type 0} (o : Option A) → is_null o ≡ true → o ≡ none
null_is_none none e = refl
null_is_none (some a) e = cc

module _ {W : Type 0} where
  peek_none : (v : Window W) → IsWindow v [] → datapuffer_peek_first v.tracked ≡ some none
  unfolding datapuffer_peek_first
  peek_none v i =
      let n = count-items v [] i in
      let r = i.ring in
      let null = i.vacant v.tracked.start r.start_in (inl (omega (arith, n))) in
      get_elem?-eq-get_or v.tracked.items v.tracked.start none
        (omega (arith, r.storage, r.start_in))
      ∙ ap some (null_is_none (get_or v.tracked.items v.tracked.start none) null)

  peek_some :
      (v : Window W) (item : Item) (items : List Item)
      → IsWindow v (item ∷ items)
      → datapuffer_peek_first v.tracked ≡ some (some item)
  unfolding datapuffer_peek_first contents
  peek_some v item items i =
      let n = count-items v (item ∷ items) i in
      let r = i.ring in
      let first =
        window_first v.tracked.abs_length v.tracked.items v.tracked.start v.tracked.count
          (omega (arith, n)) in
      get_elem?-eq-get_or v.tracked.items v.tracked.start none
        (omega (arith, r.storage, r.start_in))
      ∙ ap some (head-eq_of_cons-eq (sym first ∙ i.holds))

module _ {W : Type 0} (clock heap : ℕ → ℕ) where
  tick-IsWindow :
      (v : Window W) (items : List Item)
      → IsWindow v items
      → IsWindow (record v { ticks = v.ticks + 1 }) items
  tick-IsWindow v items i = record {
    ring = i.ring;
    vacant = i.vacant;
    holds = i.holds;
    spare_ring = i.spare_ring;
    spares = i.spares;
    spare_holds = i.spare_holds;
  }

  ticked : (u v : Window W) → IsSame u v → IsSame u (record v { ticks = v.ticks + 1 })
  ticked u v s = record {
    capacity = s.capacity;
    plugins = s.plugins;
    storage = s.storage;
    time_limit = s.time_limit;
  }

  time_round :
      (fuel : ℕ) (v v₂ : Window W) (item : Item) (w w₂ : W)
      → datapuffer_peek_first v.tracked ≡ some (some item)
      → ltb (clock v.ticks) (item.pushed + v.time_limit) ≡ false
      → window_rem clock heap (record v { ticks = v.ticks + 1 }) w ≡ some (v₂, w₂)
      → time_loop clock heap (suc fuel) v w ≡ time_loop clock heap fuel v₂ w₂
  unfolding time_loop
  time_round fuel v v₂ item w w₂ peek old ran = rw (peek, old, ran)

  pub time_loop_lem :
      (items : List Item) (fuel k : ℕ) (u v : Window W) (w : W)
      → IsSame u v
      → v.ticks ≡ k
      → IsWindow v items
      → length items < fuel
      → (v' : Window W) × (time_loop clock heap fuel v w
          ≡ some (
            v',
            told u.plugins (memory_of heap u.storage) w (outdated clock u.time_limit k items),
          ))
        × IsWindow v' (remaining clock u.time_limit k items)
        × IsSame u v'
        × (v'.ticks ≡ readings clock u.time_limit k items)
  unfolding time_loop told outdated remaining readings
  time_loop_lem items zero k u v w same e i f = absurd (omega (arith, f))
  time_loop_lem [] (suc fuel) k u v w same e i f = (v, rw (peek_none v i), i, same, e)
  time_loop_lem (item ∷ items) (suc fuel) k u v w same e i f =
      let v₁ : Window W = record v { ticks = v.ticks + 1 } in
      let i₁ = tick-IsWindow v (item ∷ items) i in
      elim (Bool-cases (ltb (clock k) (item.pushed + u.time_limit))) [
        | inl young ↦ rw young (
          v₁,
          rw (peek_some v item items i, same.time_limit, e, young),
          i₁,
          ticked u v same,
          ap (λ n. n + 1) e,
        )
        | inr old ↦
            let (v₂, ran, i₂, same₂, t) = window_rem_lem clock heap v₁ w item items i₁ in
            let whole : IsSame u v₂ = IsSame-trans u v₁ v₂ (ticked u v same) same₂ in
            let w₂ = call_each (rem_listeners u.plugins) (memory_of heap u.storage) w item.datum in
            let (v', done, i', same', t') =
              time_loop_lem items fuel (k + 1) u v₂ w₂ whole (t ∙ ap (λ n. n + 1) e) i₂
                (omega (arith, f)) in
            rw old (
              v',
              time_round fuel v v₂ item w w₂ (peek_some v item items i)
                    (rw (e, same.time_limit) old) (rw (sym same.plugins, sym same.storage) ran)
                  ∙ done,
              i',
              same',
              t',
            )
      ]
