-- ===== src/HolePuffer/Capacity.antt =====
-- What `mdatapuffer_writecapacity` says of a puffer that is written and not read.
use devclego.Prelude.{
  List, Option, [], add32, arith, false, get_elem?-eq-get_or, length, length-replicate, length-set,
  lt_signed, none, refl, rounds, set, sign, some, true, ℕ, ◌+◌, ◌-◌, ◌<◌, ◌==◌, ◌∙◌, ◌∷◌, ◌≡◌,
  ◌>>=◌,
}
use devclego.HolePuffer.{HolePuffer, mdatapuffer_ctor, mdatapuffer_write, mdatapuffer_writecapacity}

-- The writes of a list of pointers.
unfoldable pub write_all : HolePuffer → List (Option ℕ) → Option HolePuffer
unfolding mdatapuffer_write
write_all p [] = some p
write_all p (x ∷ xs) = do p' ← mdatapuffer_write p x; write_all p' xs

write_next :
    (p : HolePuffer) (x : Option ℕ)
    → length p.items ≡ p.length
    → p.length < sign
    → p.end + 1 < p.length
    → p.count ≡ p.end
    → mdatapuffer_write p x
      ≡ some (record p { items = set p.items p.end x; end = p.end + 1; count = p.end + 1 })
unfolding mdatapuffer_write
write_next p x whole small fits same =
    let there = get_elem?-eq-get_or p.items p.end none (omega (arith, whole, fits)) in
    let one : add32 p.end 1 ≡ p.end + 1 = omega (arith, small, fits) in
    let more : add32 p.count 1 ≡ p.end + 1 = omega (arith, small, fits, same) in
    let not_last : ((p.end + 1) == p.length) ≡ false = ground (arith, fits) in
    rw (there, one, more, not_last)

-- Writes that do not fill the puffer.
write_all_lem :
    (xs : List (Option ℕ)) (p : HolePuffer)
    → length p.items ≡ p.length
    → p.length < sign
    → p.end + length xs < p.length
    → p.count ≡ p.end
    → (p' : HolePuffer) × (write_all p xs ≡ some p')
      × (p'.length ≡ p.length)
      × (p'.start ≡ p.start)
      × (p'.end ≡ p.end + length xs)
      × (p'.count ≡ p.end + length xs)
unfolding write_all
write_all_lem [] p whole small fits same = (p, refl, refl, refl, omega arith, omega (arith, same))
write_all_lem (x ∷ xs) p whole small fits same =
    let q : HolePuffer = record p {
      items = set p.items p.end x;
      end = p.end + 1;
      count = p.end + 1;
    } in
    let (p', ran, len, st, en, n) =
      write_all_lem xs q (length-set p.items p.end x ∙ whole) small (omega (arith, fits)) refl in
    (
      p',
      rw (write_next p x whole small (omega (arith, fits)) same) ran,
      len,
      st,
      omega (arith, en),
      omega (arith, n),
    )

-- On a new puffer for `size` pointers, `size` below `2 ^ 31`, after some writes that do not fill it
-- `mdatapuffer_writecapacity` is one more than the number of the slots that are free.
pub writecapacity-over :
    (junk size : ℕ) (xs : List (Option ℕ))
    → size < sign
    → 0 < length xs
    → length xs < size
    → (p' : HolePuffer) × (write_all (mdatapuffer_ctor junk size) xs ≡ some p')
      × (mdatapuffer_writecapacity p' ≡ (size - length xs) + 1)
unfolding mdatapuffer_ctor mdatapuffer_writecapacity
writecapacity-over junk size xs small some_in fits =
    let r : rounds size ≡ size = ground (arith, small) in
    let (p', ran, len, st, en, n) =
      write_all_lem xs (mdatapuffer_ctor junk size) (length-replicate (rounds size) none ∙ r) small
        (omega (arith, fits)) refl in
    let not_zero : (p'.count == 0) ≡ false = ground (arith, n, some_in) in
    let not_met : (p'.start == p'.end) ≡ false = ground (arith, st, en, some_in) in
    let ahead : lt_signed p'.start p'.end ≡ true = ground (arith, st, en, some_in, small, fits) in
    (p', ran, rw (not_zero, not_met, ahead) (omega (arith, len, st, en, small, fits)))
