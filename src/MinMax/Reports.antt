-- ===== src/MinMax/Reports.antt =====
-- What the user's pipe was called with over many calls of the plugin's pipes.
use devclego.Prelude.{
  Bool, Bool-cases, List, Option, [], arith, false, if◌then◌else◌, inl, inr, length, length-append,
  refl, some, true, ℕ, ◌++◌, ◌+◌, ◌∙◌, ◌∷◌, ◌≡◌,
}
use mathlib.Core.List.{append_assoc}
use devclego.Store.{Ptr}
use devclego.MinMax.{Stat, MinMax, minmaxpriv_ctor}
use devclego.MinMax.Tracking.{IsTracking, IsLeast, IsGreatest, Reported, minmaxpriv_ctor-IsTracking}

-- The last of these, or the one before them.
unfoldable pub last_stat : Stat → List Stat → Stat
last_stat stat [] = stat
last_stat stat (next ∷ stats) = last_stat next stats

last_stat-append : (stat new : Stat) (stats : List Stat) → last_stat stat (stats ++ new ∷ []) ≡ new
unfolding last_stat
last_stat-append stat new [] = refl
last_stat-append stat new (next ∷ stats) = last_stat-append next new stats

module _ (memory : ℕ → ℕ) where
  -- After `n` changes of the window since the state `old`, the window has the items `ws`: the state
  -- has their minimum and maximum, the pipe, if there is one, was called `n` times since then, and
  -- the last time with these two.
  unfoldable pub Kept : MinMax → ℕ → Option MinMax → List Ptr → Type 0
  Kept old n w ws =
      (p : MinMax) × (spares : List Ptr) × (stats : List Stat) × (w ≡ some p)
      × IsTracking memory p spares ws
      × IsLeast memory p.stat.minimum ws
      × IsGreatest memory p.stat.maximum ws
      × (p.has_pipe ≡ old.has_pipe)
      × (p.reports ≡ (if old.has_pipe then old.reports ++ stats else old.reports))
      × (length stats ≡ n)
      × (last_stat old.stat stats ≡ p.stat)

  calls_append :
      (b : Bool) (xs ys : List Stat) (new : Stat)
      → (if b then (if b then xs ++ ys else xs) ++ new ∷ [] else (if b then xs ++ ys else xs))
        ≡ (if b then xs ++ (ys ++ new ∷ []) else xs)
  calls_append true xs ys new = append_assoc xs ys (new ∷ [])
  calls_append false xs ys new = refl

  -- One more change.
  pub Kept-step :
      (old : MinMax) (n : ℕ) (p : MinMax) (stats : List Stat) (w' : Option MinMax) (ws' : List Ptr)
      → p.has_pipe ≡ old.has_pipe
      → p.reports ≡ (if old.has_pipe then old.reports ++ stats else old.reports)
      → length stats ≡ n
      → Reported memory p w' ws'
      → Kept old (n + 1) w' ws'
  unfolding Kept Reported
  Kept-step old n p stats w' ws' same calls many
        (p', spares', e, t, least, greatest, same', calls') =
      (
        p',
        spares',
        stats ++ p'.stat ∷ [],
        e,
        t,
        least,
        greatest,
        same' ∙ same,
        calls' ∙ rw (same, calls) (calls_append old.has_pipe old.reports stats p'.stat),
        omega (arith, many, length-append stats (p'.stat ∷ [])),
        last_stat-append old.stat p'.stat stats,
      )

  -- A new plugin has NULL twice, and called nothing.
  pub minmaxpriv_ctor-Kept :
      (junk : Option Ptr) (has_pipe : Bool)
      → Kept (minmaxpriv_ctor junk has_pipe) 0 (some (minmaxpriv_ctor junk has_pipe)) []
  unfolding Kept IsLeast IsGreatest minmaxpriv_ctor last_stat
  minmaxpriv_ctor-Kept junk has_pipe = (
    minmaxpriv_ctor junk has_pipe,
    [],
    [],
    refl,
    minmaxpriv_ctor-IsTracking memory junk has_pipe,
    inl (refl, refl),
    inl (refl, refl),
    refl,
    elim (Bool-cases has_pipe) [ inl yes_pipe ↦ rw yes_pipe | inr no_pipe ↦ rw no_pipe ],
    refl,
    refl,
  )
