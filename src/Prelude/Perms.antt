-- ===== src/Prelude/Perms.antt =====
-- Prefixes of arrays, and writes to them as permutations.
use mathlib.Core.List.{Perm}
use mathlib.Core.List.Perm
use Prim.Native.Nat.{ℕ, zero, suc, ◌<◌}
use mathlib.Core.Path.{◌≡◌, refl, ap}
use mathlib.Core.Logic.{◌≢◌}
use mathlib.Core.Bool.{false}
use mathlib.Core.List.{List, [], ◌∷◌, ◌++◌}
use native.Mathlib.Omega.{arith}
use devclego.Prelude.Tests.{◌==◌}
use devclego.Prelude.Lists.{length, set, take, get_or, get_or-set, length-set}

module _ {ℓ} {A : Type ℓ} where
  pub take-set : (n : ℕ) (xs : List A) (i : ℕ) (v : A) → take n (set xs i v) ≡ set (take n xs) i v
  take-set zero xs i v = refl
  take-set (suc n) [] i v = refl
  take-set (suc n) (x ∷ xs) zero v = refl
  take-set (suc n) (x ∷ xs) (suc i) v = ap (◌∷◌ x) (take-set n xs i v)

  pub get_or-take :
      (n : ℕ) (xs : List A) (i : ℕ) (d : A) → i < n → get_or (take n xs) i d ≡ get_or xs i d
  get_or-take zero xs i d h = elim h [ ]
  get_or-take (suc n) [] i d h = refl
  get_or-take (suc n) (x ∷ xs) zero d h = refl
  get_or-take (suc n) (x ∷ xs) (suc i) d h = get_or-take n xs i d (omega arith)

  pub take-suc :
      (n : ℕ) (xs : List A) (d : A)
      → n < length xs
      → take (suc n) xs ≡ take n xs ++ get_or xs n d ∷ []
  take-suc n [] d h = elim h [ ]
  take-suc zero (x ∷ xs) d h = refl
  take-suc (suc n) (x ∷ xs) d h = ap (◌∷◌ x) (take-suc n xs d (omega arith))

  -- A write trades the old entry for the new one.
  pub set-perm :
      (xs : List A) (i : ℕ) (v d : A) → i < length xs → Perm (get_or xs i d ∷ set xs i v) (v ∷ xs)
  set-perm [] i v d h = elim h [ ]
  set-perm (x ∷ xs) zero v d h = Perm.swap v x xs
  set-perm (x ∷ xs) (suc i) v d h =
      Perm.trans (Perm.swap x _ _)
        (Perm.trans (Perm.cons x (set-perm xs i v d (omega arith))) (Perm.swap v x xs))

  -- To move the entry at `p` to `i` and to write `v` at `p` is to permute the array with `v` at `i`.
  pub move-perm :
      (xs : List A) (i p : ℕ) (v d : A)
      → i < length xs
      → p < length xs
      → p ≢ i
      → Perm (set (set xs i (get_or xs p d)) p v) (set xs i v)
  move-perm xs i p v d hi hp ne =
      let x = get_or xs p d in
      let ys = set xs i x in
      let apart : (i == p) ≡ false = ground arith in
      let kept : get_or ys p d ≡ x = rw (get_or-set xs i p x d hi, apart) in
      let moved = rw kept at (set-perm ys p v d (rw length-set hp)) in
      let old = get_or xs i d in
      let new = set xs i v in
      let there =
        Perm.trans (Perm.cons old moved)
          (Perm.trans (Perm.swap v old ys) (Perm.cons v (set-perm xs i x d hi))) in
      let back =
        Perm.trans (Perm.swap x v xs)
          (Perm.trans (Perm.cons x (Perm.symm (set-perm xs i v d hi))) (Perm.swap old x new)) in
      Perm.cons_inv (Perm.cons_inv (Perm.trans there back))
