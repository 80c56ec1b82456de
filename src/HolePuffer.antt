-- ===== src/HolePuffer.antt =====
-- lib/lib_puffers.c, the `mdatapuffer_t` part: a ring whose items are read at an index that can be
-- moved, so that holes are left behind. NULL is `none`; an access outside the array is a fault, and
-- so is fuel that ran out in a loop, both `none`.
pub mod Capacity
mod Tests
use devclego.Prelude.{
  Bool, List, Option, [], add32, false, get_elem?, if◌then◌else◌, lt_signed, none, replicate,
  rounds, set, some, sub32, suc, true, zero, ℕ, ◌++◌, ◌==◌, ◌∷◌, ◌>>=◌, ◌>>◌,
}

-- `mdatapuffer_t`
pub record HolePuffer : Type 0 where
  pub items : List (Option ℕ)
  pub length : ℕ
  pub end : ℕ
  pub start : ℕ
  pub read_index : ℕ
  pub count : ℕ
  pub plus : ℕ

-- `junk` is what `malloc` leaves in the field `_plus`, which is not set.
unfoldable pub mdatapuffer_ctor : (junk : ℕ) → ℕ → HolePuffer
mdatapuffer_ctor junk items_num = record {
  items = replicate (rounds items_num) none;
  length = items_num;
  end = 0;
  start = 0;
  read_index = 0;
  count = 0;
  plus = junk;
}

abbrev pub bump : ℕ → ℕ → ℕ
bump length i = if add32 i 1 == length then 0 else add32 i 1

unfoldable pub mdatapuffer_write : HolePuffer → Option ℕ → Option HolePuffer
mdatapuffer_write p item = do
  _ ← get_elem? p.items p.end
  some (record p {
    items = set p.items p.end item;
    end = bump p.length p.end;
    count = add32 p.count 1;
  })

-- The do-while loop of `mdatapuffer_read`: the pointer that is read, and the new state.
unfoldable pub read_loop : (fuel : ℕ) → HolePuffer → Option (HolePuffer × Option ℕ)
read_loop zero p = none
read_loop (suc fuel) p =
    let i = if p.read_index == p.length then 0 else p.read_index in
    let p' : HolePuffer = record p { read_index = add32 i 1 } in
    let rest = read_loop fuel p' in
    do
      item ← get_elem? p.items i
      elim item [
        | some a ↦ some (record p' { items = set p.items i none }, some a)
        | none ↦ if add32 i 1 == p.end then some (p', none) else rest
      ]

unfoldable pub mdatapuffer_read : (fuel : ℕ) → HolePuffer → Option (HolePuffer × Option ℕ)
unfolding read_loop
mdatapuffer_read fuel p = do
  (p', item) ← read_loop fuel p
  some (record p' { count = sub32 p'.count 1 }, item)

-- The loop that sets the first readable item.
unfoldable pub start_loop : (fuel : ℕ) → HolePuffer → Option HolePuffer
start_loop zero p = none
start_loop (suc fuel) p =
    let rest = start_loop fuel (record p { start = bump p.length p.start }) in
    do item ← get_elem? p.items p.start; elim item [ some a ↦ some p | none ↦ rest ]

-- The inner loop: on to the next item; false where the index has come to `end`.
unfoldable pub next_loop : (fuel : ℕ) → HolePuffer → Option (HolePuffer × Bool)
next_loop zero p = none
next_loop (suc fuel) p =
    let p' : HolePuffer = record p { read_index = bump p.length p.read_index } in
    let rest = next_loop fuel p' in
    if p'.read_index == p.end then some (p', false) else (do
      item ← get_elem? p.items p'.read_index
      elim item [ some a ↦ some (p', true) | none ↦ rest ])

-- The loop over `not_null` with `n` rounds to go.
unfoldable pub skip_loop : (fuel n : ℕ) → HolePuffer → Option HolePuffer
unfolding next_loop
skip_loop fuel zero p = some p
skip_loop fuel (suc n) p = do
  (p', found) ← next_loop fuel p
  let rest = skip_loop fuel n p' in if found then rest else some p'

unfoldable pub mdatapuffer_setreadindex : (fuel : ℕ) → HolePuffer → ℕ → Option HolePuffer
unfolding start_loop skip_loop
mdatapuffer_setreadindex fuel p plus =
    let p₁ : HolePuffer = record p { plus = plus } in
    if p.count == 0 then some p₁ else (do
      p₂ ← start_loop fuel p₁
      if lt_signed (sub32 p₂.count p₂.plus) 1
          then some p₂
          else skip_loop fuel (rounds plus) (record p₂ { read_index = p₂.start }))

unfoldable pub mdatapuffer_readcapacity : HolePuffer → ℕ
mdatapuffer_readcapacity p = sub32 p.count p.plus

-- The second `return` of the code is never reached.
unfoldable pub mdatapuffer_writecapacity : HolePuffer → ℕ
mdatapuffer_writecapacity p =
    if p.count == 0
    then p.length
    else (if p.start == p.end
        then 0
        else (if lt_signed p.start p.end
            then add32 (add32 (sub32 p.length p.end) p.start) 1
            else sub32 p.start p.end))

-- The loop of `mdatapuffer_clear`: the arguments of the destructor are collected in `calls`.
unfoldable pub hole_clear_loop :
    (fuel n : ℕ) → HolePuffer → List (Option ℕ) → Option (HolePuffer × List (Option ℕ))
unfolding mdatapuffer_read
hole_clear_loop fuel zero p calls = some (p, calls)
hole_clear_loop fuel (suc n) p calls = do
  (p', item) ← mdatapuffer_read fuel p
  hole_clear_loop fuel n p' (calls ++ item ∷ [])

unfoldable pub mdatapuffer_clear :
    (fuel : ℕ) → (has_dtor : Bool) → HolePuffer → Option (HolePuffer × List (Option ℕ))
unfolding mdatapuffer_setreadindex mdatapuffer_readcapacity hole_clear_loop
mdatapuffer_clear fuel has_dtor p = do
  p₁ ← mdatapuffer_setreadindex fuel p 0
  (p₂, calls) ← hole_clear_loop fuel (rounds (mdatapuffer_readcapacity p₁)) p₁ []
  some (record p₂ { read_index = p₂.start }, if has_dtor then calls else [])

unfoldable pub mdatapuffer_reset : (fuel : ℕ) → HolePuffer → Option HolePuffer
unfolding mdatapuffer_clear
mdatapuffer_reset fuel p = do
  (p', _) ← mdatapuffer_clear fuel false p
  some (record p' {
    items = replicate (rounds p'.length) none;
    count = 0;
    read_index = 0;
    end = 0;
    start = 0;
  })
