-- ===== src/Text.antt =====
-- etc/etc_utils.c: strings in place, and the byte order of blocks of bytes. A pointer is the list of
-- the bytes from it to the end of its array; an access behind the end is a fault, `none`. A string
-- ends before its first zero byte. `isspace`, `ntohl` and `htonl` are the C library's. Addresses of
-- the network are left out.
pub mod Trimming
pub mod Paths
pub mod Order
pub mod Blocks
mod Tests
use devclego.Prelude.{
  Bool, List, Option, [], drop, get_elem?, if◌then◌else◌, leb, length, none, rounds, set, some, suc,
  take, zero, ℕ, ◌&&◌, ◌++◌, ◌+◌, ◌/◌, ◌==◌, ◌∷◌, ◌>>=◌, ◌>>◌,
}

-- The C library's `strlen`, and `memmove` to a place before the source in the same array.
unfoldable pub strlen : List ℕ → Option ℕ
strlen [] = none
strlen (c ∷ cs) = let rest = strlen cs in if c == 0 then some 0 else (do n ← rest; some (n + 1))

abbrev pub memmove : (dst src : List ℕ) → ℕ → List ℕ
memmove dst src n = take n src ++ drop n dst

module _ (isspace : ℕ → Bool) where
  -- The loop of `ltrim`: where `newstart` points.
  unfoldable pub skip_spaces : List ℕ → Option (List ℕ)
  skip_spaces [] = none
  skip_spaces (c ∷ cs) = let rest = skip_spaces cs in if isspace c then rest else some (c ∷ cs)

  unfoldable pub ltrim : List ℕ → Option (List ℕ)
  unfolding skip_spaces strlen
  ltrim s = do newstart ← skip_spaces s; n ← strlen newstart; some (memmove s newstart (n + 1))

  -- The loop of `rtrim`, with `end` at the index `e`.
  unfoldable pub back : List ℕ → (e : ℕ) → Option ℕ
  back s zero = some zero
  back s (suc e) = do
    let rest = back s e in (do c ← get_elem? s e; if isspace c then rest else some (suc e))

  unfoldable pub rtrim : List ℕ → Option (List ℕ)
  unfolding strlen back
  rtrim s = do n ← strlen s; e ← back s n; some (set s e 0)

  unfoldable pub trim : List ℕ → Option (List ℕ)
  unfolding ltrim rtrim
  trim s = do s' ← ltrim s; rtrim s'

-- `basename`: the pointer that it returns, or NULL. The loop starts at `c`, with `ret` so far.
abbrev pub slash : ℕ
slash = 47

unfoldable pub basename_loop : List ℕ → (ret : Option (List ℕ)) → Option (Option (List ℕ))
basename_loop [] ret = none
basename_loop (c ∷ []) ret = if c == 0 then some ret else none
basename_loop (c ∷ d ∷ rest) ret =
    let more = basename_loop (d ∷ rest) (if d == slash then some rest else ret) in
    if c == 0 then some ret else more

unfoldable pub basename : List ℕ → Option (Option (List ℕ))
unfolding basename_loop
basename s = basename_loop s none

-- `cpystr_with_def`: the string that is copied to `dest`, if any; NULL is `none`.
unfoldable pub cpystr_with_def : (dest src def : Option (List ℕ)) → Option (List ℕ)
cpystr_with_def none src def = none
cpystr_with_def (some dest) (some src) def = some src
cpystr_with_def (some dest) none def = def

-- Four bytes as they stand in memory.
abbrev pub Quad : Type 0
Quad = ℕ × ℕ × ℕ × ℕ

-- The loop that the four functions share, with `n` rounds to go.
unfoldable pub convert : (Quad → Quad) → (n : ℕ) → List ℕ → Option (List ℕ)
convert f zero bytes = some bytes
convert f (suc n) (a ∷ b ∷ c ∷ d ∷ bytes) =
    let (a', b', c', d') = f (a, b, c, d) in
    (do rest ← convert f n bytes; some (a' ∷ b' ∷ c' ∷ d' ∷ rest))
convert f (suc n) _ = none

-- How often `for(index = 0; index < length; index += 4)` runs.
abbrev pub quads : ℕ → ℕ
quads len = (rounds len + 3) / 4

module _ (ntohl htonl : Quad → Quad) where
  unfoldable pub bytes_ntoh : List ℕ → ℕ → Option (List ℕ)
  unfolding convert
  bytes_ntoh bytes len = convert ntohl (quads len) bytes

  unfoldable pub bytes_hton : List ℕ → ℕ → Option (List ℕ)
  unfolding convert
  bytes_hton bytes len = convert htonl (quads len) bytes

-- `cpy_bytes_ntoh` and `cpy_bytes_hton`: the same to another block.
unfoldable pub cpy_convert : (Quad → Quad) → (n : ℕ) → (dst src : List ℕ) → Option (List ℕ)
cpy_convert f zero dst src = some dst
cpy_convert f (suc n) (w ∷ x ∷ y ∷ z ∷ dst) (a ∷ b ∷ c ∷ d ∷ src) =
    let (a', b', c', d') = f (a, b, c, d) in
    (do rest ← cpy_convert f n dst src; some (a' ∷ b' ∷ c' ∷ d' ∷ rest))
cpy_convert f (suc n) _ _ = none

module _ (ntohl htonl : Quad → Quad) where
  unfoldable pub cpy_bytes_ntoh : (dst src : List ℕ) → ℕ → Option (List ℕ)
  unfolding cpy_convert
  cpy_bytes_ntoh dst src len = cpy_convert ntohl (quads len) dst src

  unfoldable pub cpy_bytes_hton : (dst src : List ℕ) → ℕ → Option (List ℕ)
  unfolding cpy_convert
  cpy_bytes_hton dst src len = cpy_convert htonl (quads len) dst src

-- `memcpy` of `n` bytes between two blocks.
unfoldable pub memcpy : (dst src : List ℕ) → ℕ → Option (List ℕ)
memcpy dst src n =
    if leb n (length dst) && leb n (length src) then some (take n src ++ drop n dst) else none

-- `swap_ip6addr` on two blocks that do not overlap; `ipt` is the array on the stack, and `junk` what
-- stands in it.
unfoldable pub swap_ip6addr : (junk ip1 ip2 : List ℕ) → Option (List ℕ × List ℕ)
unfolding memcpy
swap_ip6addr junk ip1 ip2 = do
  ipt ← memcpy junk ip1 16
  ip1' ← memcpy ip1 ip2 16
  ip2' ← memcpy ip2 ipt 16
  some (ip1', ip2')
