-- ===== src/Threading/Gate.antt =====
-- What a barrier promises to the threads that call `barrier_wait`.
use devclego.Prelude.{
  Bool-cases, add32, arith, false, if◌then◌else◌, inl, inr, ltb, true, ℕ, ℕ_discrete, ◌*◌, ◌+◌, ◌<◌,
  ◌==◌, ◌≡◌, ◌≤◌, ◌⊎◌,
}
use devclego.Threading.{Barrier, barrier_flag, barrier_arrive, barrier_enter, barrier_wake}
use devclego.Threading.Calls.{
  System, settle_enter, settle_wake, starts, wakes, next, Reaches, per_round,
}
use devclego.Threading.Phase.{quiet, Reaches-Phase}

==_true : (m n : ℕ) → m ≡ n → (m == n) ≡ true
==_true m n e = ground (arith, e)

==_false : (m n : ℕ) → m < n → (m == n) ≡ false
==_false m n h = ground (arith, h)

-- Whatever its outcome, a call behind the first loop is counted.
arrive_enters :
    (s : System) (b : Barrier) → (settle_enter s (barrier_arrive b)).entered ≡ s.entered + 1
unfolding settle_enter barrier_arrive
arrive_enters s b =
    let arrived = add32 (if b.current == barrier_flag then 0 else b.current) 1 in
    elim (Bool-cases (arrived == b.gatenum)) [
      | inl full ↦ rw full
      | inr not_full ↦ elim (Bool-cases (ltb arrived barrier_flag)) [
        | inl low ↦ rw (not_full, low)
        | inr high ↦ rw (not_full, high)
      ]
    ]

module _ (g : ℕ) (positive : 0 < g) (small : g < barrier_flag) where
  all_woken :
      (s : System)
      → Reaches g s
      → s.barrier.broadcasts + (if s.returned == s.rounds_done * g then 0 else 1)
        ≡ s.rounds_done * per_round g
  all_woken s r = elim (Reaches-Phase g positive small s r) [
    | inl f ↦
        let back : (s.returned == s.rounds_done * g) ≡ true =
          ==_true s.returned (s.rounds_done * g) f.all_returned in
        rw back (omega (arith, f.woken))
    | inr d ↦ elim (ℕ_discrete s.inside 0) [
      | yes none_in ↦
          let back : (s.returned == s.rounds_done * g) ≡ true =
            ==_true s.returned (s.rounds_done * g) (omega (arith, d.some_returned, none_in)) in
          rw back (omega (arith, quiet g positive small s d none_in))
      | no some_in ↦
          let w = d.woken in
          let still : (s.inside == 0) ≡ false = ground (arith, some_in) in
          let w₁ : s.barrier.broadcasts + 1 ≡ s.rounds_done * per_round g = rw still at w in
          let out : (s.returned == s.rounds_done * g) ≡ false =
            ==_false s.returned (s.rounds_done * g) (omega (arith, d.some_returned, some_in)) in
          rw out w₁
    ]
  ]

  -- However the calls of `barrier_wait` interleave, at a barrier for `g` threads, at least one and
  -- less than 2^31: a call of a round returns only after all the `g` calls of that round have come,
  -- the next round begins only after all of them have returned, and each complete round has one
  -- serial call. Of a round of one thread those that wait were woken once, and of any other twice,
  -- when its last call had come and when its last one had returned.
  pub barrier_safe :
      (s : System)
      → Reaches g s
      → (s.rounds_done * g ≤ s.entered)
        × (s.entered < s.rounds_done * g + g)
        × (s.returned ≤ s.rounds_done * g)
        × (s.entered ≡ s.returned + s.inside)
        × ((s.returned ≡ s.rounds_done * g) ⊎ (s.entered ≡ s.rounds_done * g))
        × (s.barrier.broadcasts + (if s.returned == s.rounds_done * g then 0 else 1)
            ≡ s.rounds_done * per_round g)
  barrier_safe s r = elim (Reaches-Phase g positive small s r) [
    | inl f ↦
        let few : s.inside < g = omega (arith, f.here, f.below) in
        (
          omega (arith, f.some_entered),
          omega (arith, f.some_entered, few),
          omega (arith, f.all_returned),
          omega (arith, f.some_entered, f.all_returned),
          inl f.all_returned,
          all_woken s r,
        )
    | inr d ↦ (
      omega (arith, d.all_entered),
      omega (arith, d.all_entered, positive),
      omega (arith, d.some_returned),
      omega (arith, d.all_entered, d.some_returned),
      inr d.all_entered,
      all_woken s r,
    )
  ]

  -- At a barrier for at least one and less than 2^31 threads, while a call of a complete round has
  -- not returned, any that wakes up in the second loop returns.
  pub barrier_drains :
      (s : System)
      → Reaches g s
      → 0 < s.inside
      → s.returned < s.rounds_done * g
      → (next s wakes).returned ≡ s.returned + 1
  unfolding next barrier_wake settle_wake
  barrier_drains s r some_in lt = elim (Reaches-Phase g positive small s r) [
    | inl f ↦ absurd (omega (arith, f.all_returned, lt))
    | inr d ↦
        let above = d.above in
        let high : ltb s.barrier.current barrier_flag ≡ false = ground (arith, above) in rw high
  ]

  -- At a barrier for at least one and less than 2^31 threads, once all the calls of the complete
  -- rounds have returned, a call that starts comes behind the first loop: the barrier can be used
  -- again and again.
  pub barrier_admits :
      (s : System)
      → Reaches g s
      → s.returned ≡ s.rounds_done * g
      → (next s starts).entered ≡ s.entered + 1
  unfolding next barrier_enter
  barrier_admits s r out = elim (Reaches-Phase g positive small s r) [
    | inl f ↦
        let fb = f.below in
        let open_gate : ltb barrier_flag s.barrier.current ≡ false = ground (arith, fb, small) in
        rw open_gate (arrive_enters s s.barrier)
    | inr d ↦
        let current : s.barrier.current ≡ barrier_flag =
          omega (arith, d.above, d.some_returned, out) in
        let open_gate : ltb barrier_flag s.barrier.current ≡ false = ground (arith, current) in
        rw open_gate (arrive_enters s s.barrier)
  ]
