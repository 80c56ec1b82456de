-- ===== src/Puffer.antt =====
-- lib/lib_puffers.c, the `datapuffer_t` part: a ring of `abs_length` pointers.
-- A pointer is an `Option`: `none` is NULL. An `int32_t` is its 32-bit pattern. A function that
-- reads or writes `items` returns `none` where the index is outside the array.
pub mod Window
pub mod Inv
pub mod Fifo
pub mod Refine
pub mod Vacant
pub mod Flow
pub mod Release
pub mod Policies
mod Tests
use devclego.Prelude.{
  Bool, List, Option, [], add32, get_elem?, if◌then◌else◌, le_signed, none, replicate, rounds, set,
  some, sub32, suc, zero, ℕ, ◌++◌, ◌+◌, ◌==◌, ◌∷◌, ◌>>=◌,
}

-- `datapuffer_t`
pub record Puffer {ℓ} (A : Type ℓ) : Type ℓ where
  pub items : List (Option A)
  pub abs_length : ℕ
  pub start : ℕ
  pub end : ℕ
  pub count : ℕ
  pub read : Option A

-- `if(abs_length <= i) i = 0`
abbrev pub wrap_index : ℕ → ℕ → ℕ
wrap_index abs_length i = if le_signed abs_length i then 0 else i

module _ {ℓ} {A : Type ℓ} where
  -- `junk` is what `malloc` leaves in the field `read`, which is not set
  unfoldable pub datapuffer_ctor : (junk : Option A) → ℕ → Puffer A
  datapuffer_ctor junk size = record {
    items = replicate (rounds size) none;
    abs_length = size;
    start = 0;
    end = 0;
    count = 0;
    read = junk;
  }

  unfoldable pub datapuffer_write : Puffer A → Option A → Option (Puffer A)
  datapuffer_write p item = do
    _ ← get_elem? p.items p.end
    some (record p {
      items = set p.items p.end item;
      end = wrap_index p.abs_length (add32 p.end 1);
      count = add32 p.count 1;
    })

  -- The new state, and the pointer that the call returns.
  unfoldable pub datapuffer_read : Puffer A → Option (Puffer A × Option A)
  datapuffer_read p = do
    item ← get_elem? p.items p.start
    some (
      record p {
        items = set p.items p.start none;
        start = wrap_index p.abs_length (add32 p.start 1);
        count = sub32 p.count 1;
        read = item;
      },
      item,
    )

  unfoldable pub datapuffer_peek_first : Puffer A → Option (Option A)
  datapuffer_peek_first p = get_elem? p.items p.start

  unfoldable pub datapuffer_readcapacity : Puffer A → ℕ
  datapuffer_readcapacity p = p.count

  unfoldable pub datapuffer_writecapacity : Puffer A → ℕ
  datapuffer_writecapacity p = sub32 p.abs_length p.count

  unfoldable pub datapuffer_isfull : Puffer A → Bool
  datapuffer_isfull p = p.count == p.abs_length

  unfoldable pub datapuffer_isempty : Puffer A → Bool
  datapuffer_isempty p = p.count == 0

  -- The loop of `datapuffer_clear` with `n` rounds to go. The list holds the arguments of the
  -- calls of `dtor`, in order; `has_dtor` says whether `dtor` is not NULL.
  unfoldable pub clear_loop :
      Bool → (n : ℕ) → Puffer A → List (Option A) → Option (Puffer A × List (Option A))
  clear_loop has_dtor zero p calls = some (p, calls)
  clear_loop has_dtor (suc n) p calls = do
    (p', item) ← datapuffer_read p
    clear_loop has_dtor n p' (if has_dtor then calls ++ item ∷ [] else calls)

  unfoldable pub datapuffer_clear : Bool → Puffer A → Option (Puffer A × List (Option A))
  unfolding clear_loop datapuffer_readcapacity
  datapuffer_clear has_dtor p = clear_loop has_dtor (rounds (datapuffer_readcapacity p)) p []

  -- The loop of `datapuffer_dtor` over `items[index..]` with `n` rounds to go: what `free` gets.
  unfoldable pub dtor_loop : List (Option A) → (n index : ℕ) → List A → Option (List A)
  dtor_loop items zero index freed = some freed
  dtor_loop items (suc n) index freed = do
    item ← get_elem? items index
    dtor_loop items n (index + 1) (elim item [ none ↦ freed | some a ↦ freed ++ a ∷ [] ])

  -- The items that are freed; the array and the struct are freed after them. NULL is accepted.
  unfoldable pub datapuffer_dtor : Option (Puffer A) → Option (List A)
  unfolding dtor_loop
  datapuffer_dtor none = some []
  datapuffer_dtor (some p) = dtor_loop p.items (rounds p.abs_length) 0 []
