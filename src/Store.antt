-- ===== src/Store.antt =====
-- Memory that the pointer structures of the program live in: addresses, each with at most one
-- node, and commands that read and write them. `malloc`, which is not the program's, is a parameter
-- of the commands that call it.
pub mod Returns
use devclego.Prelude.{
  List, Option, [], arith, false, if◌then◌else◌, none, refl, some, ℕ, ◌==◌, ◌∷◌, ◌≡◌, ◌≢◌,
}

abbrev pub Ptr : Type 0
Ptr = ℕ

abbrev pub null : Ptr
null = 0

-- The writes so far, the last one first; `none` is a node given back.
abbrev pub Store : Type 0 → Type 0
Store N = List (Ptr × Option N)

module _ {N : Type 0} where
  unfoldable pub get : Store N → Ptr → Option N
  get [] p = none
  get ((q, c) ∷ h) p = if q == p then c else get h p

  unfoldable pub put : Store N → Ptr → Option N → Store N
  put h p c = (p, c) ∷ h

  -- A write is seen at its address and nowhere else.
  pub get-put :
      (h : Store N) (p q : Ptr) (c : Option N) → get (put h p c) q ≡ (if p == q then c else get h q)
  unfolding get put
  get-put h p q c = refl

  pub get-put_self : (h : Store N) (p : Ptr) (c : Option N) → get (put h p c) p ≡ c
  get-put_self h p c = ground (arith, get-put h p p c)

  pub get-put_ne : (h : Store N) (p q : Ptr) (c : Option N) → p ≢ q → get (put h p c) q ≡ get h q
  get-put_ne h p q c ne = ground (arith, get-put h p q c)

-- The end of a run: a result and a store, an access through a bad pointer, or the model's fuel
-- running out in a loop.
pub data Run (N A : Type 0) : Type 0 where
  ok : A → Store N → Run N A
  fault : Run N A
  out_of_fuel : Run N A

abbrev pub Cmd : Type 0 → Type 0 → Type 0
Cmd N A = Store N → Run N A

abbrev pub pure : {N A : Type 0} → A → Cmd N A
pure a h = ok a h

abbrev pub and_then : {N A B : Type 0} → Run N A → (A → Cmd N B) → Run N B
and_then (ok a h) k = k a h
and_then fault k = fault
and_then out_of_fuel k = out_of_fuel

infixl 5 ◌>>=◌ ◌>>◌
abbrev pub ◌>>=◌ : {N A B : Type 0} → Cmd N A → (A → Cmd N B) → Cmd N B
m >>= k = λ h. and_then (m h) k

abbrev pub ◌>>◌ : {N A B : Type 0} → Cmd N A → Cmd N B → Cmd N B
m >> k = m >>= λ _. k

module _ {N : Type 0} where
  -- `*p`
  unfoldable pub load : Ptr → Cmd N N
  load p h = if p == null then fault else elim (get h p) [ none ↦ fault | some n ↦ ok n h ]

  -- `*p = n`
  unfoldable pub store : Ptr → N → Cmd N (Unit {0})
  unfolding load
  store p n = load p >> λ h. ok tt (put h p (some n))

  -- `p->field = v`
  unfoldable pub modify : Ptr → (N → N) → Cmd N (Unit {0})
  unfolding store
  modify p f = do n ← load p; store p (f n)

  -- `free(p)`: NULL is accepted, and an address with no node is a fault
  unfoldable pub free : Ptr → Cmd N (Unit {0})
  free p h =
      if p == null then ok tt h else elim (get h p) [ none ↦ fault | some n ↦ ok tt (put h p none) ]

  -- A node at the address that `malloc` returned. A write through NULL is a fault.
  unfoldable pub create : Ptr → N → Cmd N Ptr
  create p n h = if p == null then fault else ok p (put h p (some n))

  -- Each command at an address that holds a node.
  module _ (h : Store N) (p : Ptr) (n : N) (live : p ≢ null) (holds : get h p ≡ some n) where
    not_null : (p == null) ≡ false
    not_null = ground arith

    pub load-ok : load p h ≡ ok n h
    unfolding load
    load-ok = rw (not_null, holds)

    pub store-ok : (m : N) → store p m h ≡ ok tt (put h p (some m))
    unfolding store
    store-ok m = rw (not_null, holds)

    pub modify-ok : (f : N → N) → modify p f h ≡ ok tt (put h p (some (f n)))
    unfolding modify
    modify-ok f = rw (not_null, holds, not_null, holds)

    pub free-ok : free p h ≡ ok tt (put h p none)
    unfolding free
    free-ok = rw (not_null, holds)

  -- A node that was given back, or that never was, cannot be read.
  pub load-fault : (h : Store N) (p : Ptr) → get h p ≡ none → load p h ≡ fault
  unfolding load
  load-fault h p e = ground arith

  pub create-ok :
      (h : Store N) (p : Ptr) (n : N) → p ≢ null → create p n h ≡ ok p (put h p (some n))
  unfolding create
  create-ok h p n live = ground arith

-- What the C standard says of `malloc` when memory is not exhausted: the address is not NULL and
-- in nobody's use.
pub record IsMalloc {N : Type 0} (malloc : Store N → Ptr) : Type 0 where
  pub live : (h : Store N) → malloc h ≢ null
  pub fresh : (h : Store N) → get h (malloc h) ≡ none
