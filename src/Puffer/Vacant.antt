-- ===== src/Puffer/Vacant.antt =====
-- A slot that stores no item holds NULL, so what `datapuffer_dtor` frees is never an item that was
-- read before.
use devclego.Prelude.{
  Bool, Option, arith, false, get_elem?-eq-get_or, get_or, get_or-replicate, get_or-set, none, some,
  true, ℕ, ◌+◌, ◌<◌, ◌≡◌, ◌≤◌, ◌⊎◌,
}
use devclego.Puffer.{Puffer, datapuffer_ctor, datapuffer_write, datapuffer_read}
use devclego.Puffer.Inv.{IsValid}

-- The slot `i` lies outside the `count` slots from `start` on.
abbrev pub IsOutside : (cap start count i : ℕ) → Type 0
IsOutside cap start count i = (start + count ≤ i) ⊎ ((i < start) × (start + count ≤ i + cap))

abbrev pub is_null {ℓ} : {A : Type ℓ} → Option A → Bool
is_null none = true
is_null (some a) = false

module _ {ℓ} {A : Type ℓ} where
  abbrev pub IsVacant : Puffer A → Type 0
  IsVacant p =
      (i : ℕ)
      → i < p.abs_length
      → IsOutside p.abs_length p.start p.count i
      → is_null (get_or p.items i none) ≡ true

  pub ctor-IsVacant : (junk : Option A) (size : ℕ) → IsVacant (datapuffer_ctor junk size)
  unfolding datapuffer_ctor
  ctor-IsVacant junk size = λ i h out. rw get_or-replicate

  pub write-IsVacant :
      (p p' : Puffer A) (x : Option A)
      → IsValid p
      → IsVacant p
      → p.count < p.abs_length
      → datapuffer_write p x ≡ some p'
      → IsVacant p'
  unfolding datapuffer_write
  write-IsVacant p p' x v vacant room done i h out =
      ground
        (arith, vacant i, get_elem?-eq-get_or p.items p.end none, get_or-set p.items p.end i x none)

  pub read-IsVacant :
      (p p' : Puffer A) (x : Option A)
      → IsValid p
      → IsVacant p
      → 0 < p.count
      → datapuffer_read p ≡ some (p', x)
      → IsVacant p'
  unfolding datapuffer_read
  read-IsVacant p p' x v vacant left done i h out = ground (
    arith,
    vacant i,
    get_elem?-eq-get_or p.items p.start none,
    get_or-set p.items p.start i none none,
  )
