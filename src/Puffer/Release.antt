-- ===== src/Puffer/Release.antt =====
-- The end of a puffer's life: `datapuffer_clear` and then `datapuffer_dtor`, as
-- `slidingwindow_dtor` and the component macros make the calls.
use devclego.Prelude.{
  Bool, List, Option, [], ap, arith, get_elem?-eq-get_or, get_or, if◌then◌else◌, length, none, refl,
  rounds, some, suc, sym, true, zero, ℕ, ◌++◌, ◌+◌, ◌<◌, ◌∷◌, ◌≡◌, ◌≤◌,
}
use devclego.Puffer.{
  Puffer, clear_loop, datapuffer_clear, datapuffer_readcapacity, dtor_loop, datapuffer_dtor,
}
use devclego.Puffer.Inv.{IsValid, contents, read-some}
use devclego.Puffer.Flow.{datapuffer_clear_lem}
use mathlib.Core.Option.{some-injective}
use devclego.Puffer.Policies.{release}
use devclego.Puffer.Vacant.{IsVacant, is_null, read-IsVacant}

module _ {ℓ} {A : Type ℓ} where
  clear_loop-IsVacant :
      (has_dtor : Bool) (n : ℕ) (p p' : Puffer A) (done calls : List (Option A))
      → IsValid p
      → IsVacant p
      → n ≡ p.count
      → clear_loop has_dtor n p done ≡ some (p', calls)
      → IsVacant p' × (p'.count ≡ 0)
  unfolding clear_loop
  clear_loop-IsVacant has_dtor zero p p' done calls v vacant e ran =
      let same : p ≡ p' = ap (λ t. t.0) (some-injective (p, done) (p', calls) ran) in
      (rw same at vacant, rw same at (sym e))
  clear_loop-IsVacant has_dtor (suc n) p p' done calls v vacant e ran =
      let (q, x, got, u, cap, m, c) = read-some p v (omega arith) in
      clear_loop-IsVacant has_dtor n q p' (if has_dtor then done ++ x ∷ [] else done) calls u
        (read-IsVacant p q x v vacant (omega arith) got) (omega arith) (rw (got, clear_loop) at ran)

  dtor_loop_lem :
      (items : List (Option A)) (n index : ℕ) (freed : List A)
      → index + n ≤ length items
      → ((i : ℕ) → i < length items → is_null (get_or items i none) ≡ true)
      → dtor_loop items n index freed ≡ some freed
  unfolding dtor_loop
  dtor_loop_lem items zero index freed h null = refl
  dtor_loop_lem items (suc n) index freed h null =
      rw (get_elem?-eq-get_or items index none (omega arith)) (
        skip (get_or items index none) (null index (omega arith))
          (dtor_loop_lem items n (index + 1) freed (omega arith) null))
    where
      skip :
          (item : Option A)
          → is_null item ≡ true
          → dtor_loop items n (index + 1) freed ≡ some freed
          → dtor_loop items n (index + 1) (elim item [ none ↦ freed | some a ↦ freed ++ a ∷ [] ])
            ≡ some freed
      skip none e rest = rest
      skip (some a) e rest = cc

  -- An empty puffer has nothing to free but itself.
  pub dtor_vacant :
      (p : Puffer A) → IsValid p → IsVacant p → p.count ≡ 0 → datapuffer_dtor (some p) ≡ some []
  unfolding datapuffer_dtor
  dtor_vacant p v vacant z =
      let all : rounds p.abs_length ≡ p.abs_length = ground arith in
      rw (
        all,
        dtor_loop_lem p.items p.abs_length 0 [] (omega arith)
            λ i h. vacant i (omega arith) (omega arith),
      )

  clear-IsVacant :
      (has_dtor : Bool) (p p' : Puffer A) (calls : List (Option A))
      → IsValid p
      → IsVacant p
      → datapuffer_clear has_dtor p ≡ some (p', calls)
      → IsVacant p' × (p'.count ≡ 0)
  unfolding datapuffer_clear datapuffer_readcapacity
  clear-IsVacant has_dtor p p' calls v vacant ran =
      let all : rounds p.count ≡ p.count = ground arith in
      clear_loop-IsVacant has_dtor p.count p p' [] calls v vacant refl (rw all at ran)

  -- After `datapuffer_clear` nothing is left for `datapuffer_dtor` to free: every stored item is
  -- handed over once, by the first call if it has a destructor, and never by the second.
  pub release_lem :
      (has_dtor : Bool) (p : Puffer A)
      → IsValid p
      → IsVacant p
      → release has_dtor p ≡ some ((if has_dtor then contents p else []), [])
  unfolding release
  release_lem has_dtor p v vacant =
      let (p', ran, v', cap, c) = datapuffer_clear_lem has_dtor p v in
      let (vacant', z) = clear-IsVacant has_dtor p p' _ v vacant ran in
      rw (ran, dtor_vacant p' v' vacant' z)
