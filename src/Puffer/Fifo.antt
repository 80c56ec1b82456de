-- ===== src/Puffer/Fifo.antt =====
-- A bounded first-in-first-out queue, and what a user of the macros of lib/lib_puffers.h sees.
use devclego.Prelude.{List, Option, [], if◌then◌else◌, length, none, some, ℕ, ◌++◌, ◌==◌, ◌∷◌}

-- A call: hand an item over, or ask for one.
pub data Op {ℓ} (A : Type ℓ) : Type ℓ where
  give : Option A → Op A
  take_one : Op A

-- What a call gives back: the items dropped, and the item supplied, if any.
abbrev pub Reply {ℓ} : Type ℓ → Type ℓ
Reply A = List (Option A) × Option (Option A)

module _ {ℓ} {A : Type ℓ} (cap : ℕ) where
  unfoldable pub answer : List (Option A) → Op A → List (Option A) × Reply A
  answer q (give x) = if length q == cap then (q, (x ∷ [], none)) else (q ++ x ∷ [], ([], none))
  answer [] take_one = ([], ([], none))
  answer (x ∷ q) take_one = (q, ([], some x))

  unfoldable pub answers : List (Option A) → List (Op A) → List (Reply A)
  answers q [] = []
  answers q (o ∷ ops) = let (q', r) = answer q o in r ∷ answers q' ops
