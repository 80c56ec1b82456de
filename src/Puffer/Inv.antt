-- ===== src/Puffer/Inv.antt =====
-- The state that the users of a `datapuffer_t` keep: every index in range, `end` just behind the
-- items that are stored, and a length that an `int32_t` holds with room for one step more.
use devclego.Prelude.{
  List, Option, [], add32, arith, get_elem?-eq-get_or, get_or, length, length-replicate, length-set,
  none, refl, set, sign, some, sub32, word, ℕ, ◌++◌, ◌+◌, ◌-◌, ◌<◌, ◌∷◌, ◌≡◌, ◌≤◌,
}
use devclego.Puffer.{Puffer, wrap_index, datapuffer_ctor, datapuffer_write, datapuffer_read}
use devclego.Puffer.Window.{
  window, window_first, next, IsAhead, length-window, window-set_end, window-set_outside,
}

-- The test `abs_length <= ++i` of the code goes round at the length.
wrap_index-next : (size i : ℕ) → size < sign → i < size → wrap_index size (add32 i 1) ≡ next size i
unfolding next
wrap_index-next size i small h = ground arith

sub32_one : (n : ℕ) → 0 < n → n < word → sub32 n 1 ≡ n - 1
sub32_one n pos small = omega arith

module _ {ℓ} {A : Type ℓ} where
  pub record IsValid (p : Puffer A) : Type 0 where
    pub storage : length p.items ≡ p.abs_length
    pub positive : 0 < p.abs_length
    pub small : p.abs_length < sign
    pub start_in : p.start < p.abs_length
    pub count_in : p.count ≤ p.abs_length
    pub end_at : IsAhead p.abs_length p.start p.count p.end

  -- What a puffer stores, oldest first.
  unfoldable pub contents : Puffer A → List (Option A)
  contents p = window p.abs_length p.items p.start p.count

  pub length-contents : (p : Puffer A) → length (contents p) ≡ p.count
  unfolding contents
  length-contents p = length-window p.abs_length p.items p.start p.count

  pub contents-empty : (p : Puffer A) → p.count ≡ 0 → contents p ≡ []
  unfolding contents window
  contents-empty p e = rw e

  pub ctor-IsValid :
      (junk : Option A) (size : ℕ)
      → 0 < size
      → size < sign
      → IsValid (datapuffer_ctor junk size) × (contents (datapuffer_ctor junk size) ≡ [])
  unfolding datapuffer_ctor window contents
  ctor-IsValid junk size pos small = ground (arith, length-replicate {A = Option A} size none)

  -- The state after a write that fits, and its account.
  pub write-fits :
      (p : Puffer A) (x : Option A)
      → IsValid p
      → p.count < p.abs_length
      → (p' : Puffer A) × (datapuffer_write p x ≡ some p')
        × IsValid p'
        × (p'.abs_length ≡ p.abs_length)
        × (p'.count ≡ p.count + 1)
        × (contents p' ≡ contents p ++ x ∷ [])
  unfolding datapuffer_write next window contents
  write-fits p x v room = (
    record p {
      items = set p.items p.end x;
      end = wrap_index p.abs_length (add32 p.end 1);
      count = add32 p.count 1;
    },
    ground (arith, get_elem?-eq-get_or p.items p.end none),
    ground (arith, length-set p.items p.end x, wrap_index-next p.abs_length p.end),
    refl,
    ground arith,
    ground (arith, window-set_end p.abs_length p.items p.start p.count p.end x),
  )

  pub read-some :
      (p : Puffer A)
      → IsValid p
      → 0 < p.count
      → (p' : Puffer A) × (x : Option A) × (datapuffer_read p ≡ some (p', x))
        × IsValid p'
        × (p'.abs_length ≡ p.abs_length)
        × (p'.count + 1 ≡ p.count)
        × (contents p ≡ x ∷ contents p')
  unfolding datapuffer_read next contents
  read-some p v some_left = (
    record p {
      items = set p.items p.start none;
      start = wrap_index p.abs_length (add32 p.start 1);
      count = sub32 p.count 1;
      read = get_or p.items p.start none;
    },
    get_or p.items p.start none,
    ground (arith, get_elem?-eq-get_or p.items p.start none),
    ground (arith, length-set p.items p.start none, wrap_index-next p.abs_length p.start),
    refl,
    ground arith,
    rw
        (
          wrap_index-next p.abs_length p.start v.small v.start_in,
          sub32_one p.count some_left (omega arith),
          window-set_outside p.abs_length p.items (next p.abs_length p.start) (p.count - 1) p.start
              none (omega arith) (ground arith) v.start_in (ground arith),
        )
        (window_first p.abs_length p.items p.start p.count some_left),
  )
