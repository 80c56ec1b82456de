-- ===== src/Store/Returns.antt =====
-- Total correctness of a run: no fault, enough fuel, and a postcondition.
use devclego.Prelude.{refl, ◌≡◌}
use devclego.Store.{Store, Run, ok, Cmd, and_then}

pub data Returns {N A : Type 0} (P : A → Store N → Type 0) : Run N A → Type 0 where
  returns : {a : A} {h : Store N} → P a h → Returns P (ok a h)

module _ {N A : Type 0} {P : A → Store N → Type 0} where
  pub bind :
      {B : Type 0} {Q : B → Store N → Type 0} {r : Run N A} {k : A → Cmd N B}
      → Returns P r
      → ((a : A) (h : Store N) → P a h → Returns Q (k a h))
      → Returns Q (and_then r k)
  bind (returns p) next = next _ _ p

  pub inv : {r : Run N A} → Returns P r → (a : A) × (h : Store N) × (r ≡ ok a h) × P a h
  inv (returns p) = (_, _, refl, p)

  pub mono :
      {Q : A → Store N → Type 0} {r : Run N A}
      → Returns P r
      → ((a : A) (h : Store N) → P a h → Q a h)
      → Returns Q r
  mono (returns p) weaken = returns (weaken _ _ p)
