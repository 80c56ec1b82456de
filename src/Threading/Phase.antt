-- ===== src/Threading/Phase.antt =====
-- The threads of a round at a barrier come in, and then they go out.
use devclego.Prelude.{
  add32, arith, false, if◌then◌else◌, inl, inr, ltb, refl, sub32, sym, true, ℕ, ℕ_discrete, ◌*◌,
  ◌+◌, ◌-◌, ◌<◌, ◌==◌, ◌≡◌, ◌⊎◌,
}
use devclego.Threading.{barrier_flag, barrier_arrive, barrier_enter, barrier_wake, barrier_leave}
use devclego.Threading.Calls.{
  System, settle_enter, settle_wake, Event, starts, retries, wakes, next, IsEnabled, Reaches,
  begins, goes_on, per_round,
}

-- The threads of a round come in, or go out.
pub record Filling (g : ℕ) (s : System) : Type 0 where
  pub gate : s.barrier.gatenum ≡ g
  pub below : s.barrier.current < g
  pub here : s.inside ≡ s.barrier.current
  pub all_returned : s.returned ≡ s.rounds_done * g
  pub some_entered : s.entered ≡ s.rounds_done * g + s.inside
  pub woken : s.barrier.broadcasts ≡ s.rounds_done * per_round g

pub record Draining (g : ℕ) (s : System) : Type 0 where
  pub gate : s.barrier.gatenum ≡ g
  pub above : s.barrier.current ≡ barrier_flag + s.inside
  pub few : s.inside < g
  pub some_returned : s.returned + s.inside ≡ s.rounds_done * g
  pub all_entered : s.entered ≡ s.rounds_done * g
  pub woken : s.barrier.broadcasts + (if s.inside == 0 then 0 else 1) ≡ s.rounds_done * per_round g

abbrev pub Phase : ℕ → System → Type 0
Phase g s = Filling g s ⊎ Draining g s

round_more : (n g : ℕ) → (n + 1) * g ≡ n * g + g
round_more n g = omega arith

calls_of_round : (n g : ℕ) → n + 1 ≡ g → 1 + (if n == 0 then 0 else 1) ≡ per_round g
unfolding per_round
calls_of_round n g e = ground (arith, e)

module _ (g : ℕ) (positive : 0 < g) (small : g < barrier_flag) where
  -- A call that comes behind the first loop with `c` threads of its round there.
  arrive-Phase :
      (s : System)
      → s.barrier.gatenum ≡ g
      → (if s.barrier.current == barrier_flag then 0 else s.barrier.current) ≡ s.inside
      → s.inside < g
      → s.returned ≡ s.rounds_done * g
      → s.entered ≡ s.rounds_done * g + s.inside
      → s.barrier.broadcasts ≡ s.rounds_done * per_round g
      → Phase g (settle_enter s (barrier_arrive s.barrier))
  unfolding barrier_arrive settle_enter
  arrive-Phase s gate c few out come wake =
      let one : add32 s.inside 1 ≡ s.inside + 1 = omega (arith, few, small) in
      elim (ℕ_discrete (s.inside + 1) g) [
        | yes last ↦
            let full : ((s.inside + 1) == g) ≡ true = ground arith in
            rw (c, one, gate, full)
              (inr (record {
                gate = refl;
                above = omega arith;
                few = few;
                some_returned = omega (arith, out, round_more s.rounds_done g);
                all_entered = omega (arith, come, round_more s.rounds_done g);
                woken = omega (
                  arith,
                  wake,
                  round_more s.rounds_done (per_round g),
                  calls_of_round s.inside g last,
                );
              }))
        | no more ↦
            let not_full : ((s.inside + 1) == g) ≡ false = ground arith in
            let low : ltb (s.inside + 1) barrier_flag ≡ true = ground (arith, few, small) in
            rw (c, one, gate, not_full, low)
              (inl (record {
                gate = refl;
                below = omega (arith, few, more);
                here = refl;
                all_returned = out;
                some_entered = omega (arith, come);
                woken = wake;
              }))
      ]

  pub quiet :
      (s : System)
      → Draining g s
      → s.inside ≡ 0
      → s.barrier.broadcasts ≡ s.rounds_done * per_round g
  quiet s d none_in =
      let w = d.woken in
      let zero_in : (s.inside == 0) ≡ true = ground (arith, none_in) in
      omega (arith, rw zero_in at w)

  -- The last call that returns wakes the others.
  last_wakes :
      (s : System)
      → Draining g s
      → 0 < s.inside
      → (barrier_leave s.barrier).broadcasts + (if (s.inside - 1) == 0 then 0 else 1)
        ≡ s.rounds_done * per_round g
  unfolding barrier_leave
  last_wakes s d some_in =
      let w = d.woken in
      let still : (s.inside == 0) ≡ false = ground (arith, some_in) in
      let w₁ : s.barrier.broadcasts + 1 ≡ s.rounds_done * per_round g = rw still at w in
      let left : sub32 s.barrier.current 1 ≡ barrier_flag + (s.inside - 1) =
        omega (arith, d.above, d.few, some_in, small) in
      elim (ℕ_discrete (s.inside - 1) 0) [
        | yes last ↦
            let flag : (sub32 s.barrier.current 1 == barrier_flag) ≡ true =
              ground (arith, left, last) in
            let zero_left : ((s.inside - 1) == 0) ≡ true = ground (arith, last) in
            rw (flag, zero_left) (omega (arith, w₁))
        | no more ↦
            let no_flag : (sub32 s.barrier.current 1 == barrier_flag) ≡ false =
              ground (arith, left, more) in
            let some_left : ((s.inside - 1) == 0) ≡ false = ground (arith, more) in
            rw (no_flag, some_left) w₁
      ]

  -- A call that starts or wakes up in the first loop; `s'` differs from `s` in `outside` alone.
  enter-Phase : (s : System) → Phase g s → Phase g (settle_enter s (barrier_enter s.barrier))
  unfolding barrier_enter settle_enter
  enter-Phase s (inl f) =
      let fb = f.below in
      let open_gate : ltb barrier_flag s.barrier.current ≡ false = ground (arith, fb, small) in
      let no_flag : (s.barrier.current == barrier_flag) ≡ false = ground (arith, fb, small) in
      rw open_gate (
        arrive-Phase s f.gate (rw no_flag (sym f.here)) (omega (arith, fb, f.here)) f.all_returned
          f.some_entered f.woken)
  enter-Phase s (inr d) = elim (ℕ_discrete s.inside 0) [
    | yes none_in ↦
        let current : s.barrier.current ≡ barrier_flag = omega (arith, d.above, none_in) in
        let open_gate : ltb barrier_flag s.barrier.current ≡ false = ground (arith, current) in
        let flag : (s.barrier.current == barrier_flag) ≡ true = ground (arith, current) in
        rw open_gate (
          arrive-Phase s d.gate (rw flag (sym none_in)) (omega (arith, none_in, positive))
            (omega (arith, d.some_returned, none_in)) (omega (arith, d.all_entered, none_in))
            (quiet s d none_in))
    | no some_in ↦
        let above = d.above in
        let shut : ltb barrier_flag s.barrier.current ≡ true = ground (arith, above, some_in) in
        rw shut (
          inr (record {
            gate = d.gate;
            above = d.above;
            few = d.few;
            some_returned = d.some_returned;
            all_entered = d.all_entered;
            woken = d.woken;
          }))
  ]

  wake-Phase :
      (s : System) → Phase g s → 0 < s.inside → Phase g (settle_wake s (barrier_wake s.barrier))
  unfolding barrier_wake barrier_leave settle_wake
  wake-Phase s (inl f) some_in =
      let fb = f.below in
      let low : ltb s.barrier.current barrier_flag ≡ true = ground (arith, fb, small) in
      rw low (
        inl (record {
          gate = f.gate;
          below = f.below;
          here = f.here;
          all_returned = f.all_returned;
          some_entered = f.some_entered;
          woken = f.woken;
        }))
  wake-Phase s (inr d) some_in =
      let above = d.above in
      let high : ltb s.barrier.current barrier_flag ≡ false = ground (arith, above) in
      rw high (
        inr (record {
          gate = d.gate;
          above = omega (arith, d.above, d.few, some_in, small);
          few = omega (arith, d.few);
          some_returned = omega (arith, d.some_returned, some_in);
          all_entered = d.all_entered;
          woken = last_wakes s d some_in;
        }))

  next-Phase : (s : System) (e : Event) → Phase g s → IsEnabled s e → Phase g (next s e)
  unfolding next
  next-Phase s starts p ok = enter-Phase s p
  next-Phase s retries (inl f) ok =
      enter-Phase (record s { outside = s.outside - 1 })
        (inl (record {
          gate = f.gate;
          below = f.below;
          here = f.here;
          all_returned = f.all_returned;
          some_entered = f.some_entered;
          woken = f.woken;
        }))
  next-Phase s retries (inr d) ok =
      enter-Phase (record s { outside = s.outside - 1 })
        (inr (record {
          gate = d.gate;
          above = d.above;
          few = d.few;
          some_returned = d.some_returned;
          all_entered = d.all_entered;
          woken = d.woken;
        }))
  next-Phase s wakes p ok = wake-Phase s p ok

  pub Reaches-Phase : (s : System) → Reaches g s → Phase g s
  Reaches-Phase _ begins = inl (record {
    gate = refl;
    below = positive;
    here = refl;
    all_returned = omega arith;
    some_entered = omega arith;
    woken = omega arith;
  })
  Reaches-Phase _ (goes_on s e r ok) = next-Phase s e (Reaches-Phase s r) ok
