-- ===== src/Text/Blocks.antt =====
-- Copies between blocks.
use devclego.Prelude.{
  List, [], ap, arith, drop, length, length-append, length-take, le→leb, refl, some, suc, take,
  zero, ℕ, ◌*◌, ◌++◌, ◌+◌, ◌∷◌, ◌≡◌, ◌≤◌,
}
use devclego.Text.{
  Quad, convert, cpy_convert, quads, bytes_ntoh, cpy_bytes_ntoh, memcpy, swap_ip6addr,
}

drop_four : (m a b c d : ℕ) (s : List ℕ) → drop (4 * suc m) (a ∷ b ∷ c ∷ d ∷ s) ≡ drop (4 * m) s
drop_four m a b c d s =
    let four : 4 * suc m ≡ suc (suc (suc (suc (4 * m)))) = omega arith in
    ap (λ k. drop k (a ∷ b ∷ c ∷ d ∷ s)) four

data IsLong : List ℕ → Type 0 where
  long : (a b c d : ℕ) (s : List ℕ) → IsLong (a ∷ b ∷ c ∷ d ∷ s)

four-IsLong : (xs : List ℕ) → 4 ≤ length xs → IsLong xs
four-IsLong [] h = absurd (omega (arith, h))
four-IsLong (a ∷ []) h = absurd (omega (arith, h))
four-IsLong (a ∷ b ∷ []) h = absurd (omega (arith, h))
four-IsLong (a ∷ b ∷ c ∷ []) h = absurd (omega (arith, h))
four-IsLong (a ∷ b ∷ c ∷ d ∷ s) h = long a b c d s

-- What the copy of `n` rounds gives, and the conversion in place.
IsCopied : (Quad → Quad) → (n : ℕ) → (dst src : List ℕ) → Type 0
IsCopied f n dst src =
    (out : List ℕ) × (convert f n src ≡ some (out ++ drop (4 * n) src))
    × (cpy_convert f n dst src ≡ some (out ++ drop (4 * n) dst))
    × (length out ≡ 4 * n)

-- One round more.
round-IsCopied :
    (f : Quad → Quad) (n : ℕ) (dst src : List ℕ)
    → IsLong dst
    → IsLong src
    → ((to from : List ℕ)
        → length dst ≡ 4 + length to
        → length src ≡ 4 + length from
        → IsCopied f n to from)
    → IsCopied f (suc n) dst src
unfolding convert cpy_convert IsCopied
round-IsCopied f n _ _ (long w x y z to) (long a b c d from) rounds_left =
    let (out, whole, copied, same) = rounds_left to from (omega arith) (omega arith) in
    let (a', b', c', d') = f (a, b, c, d) in
    (
      a' ∷ b' ∷ c' ∷ d' ∷ out,
      rw (whole, drop_four n a b c d from) refl,
      rw (copied, drop_four n w x y z to) refl,
      omega (arith, same),
    )

cpy_convert-IsCopied :
    (f : Quad → Quad) (n : ℕ) (dst src : List ℕ)
    → 4 * n ≤ length dst
    → 4 * n ≤ length src
    → IsCopied f n dst src
unfolding convert cpy_convert IsCopied
cpy_convert-IsCopied f zero dst src h i = ([], refl, refl, refl)
cpy_convert-IsCopied f (suc n) dst src h i =
    round-IsCopied f n dst src (four-IsLong dst (omega (arith, h)))
      (four-IsLong src (omega (arith, i)))
      (λ to from ed es.
        cpy_convert-IsCopied f n to from (omega (arith, h, ed)) (omega (arith, i, es)))

memcpy-fits :
    (dst src : List ℕ) (n : ℕ)
    → n ≤ length dst
    → n ≤ length src
    → memcpy dst src n ≡ some (take n src ++ drop n dst)
unfolding memcpy
memcpy-fits dst src n h i = rw (le→leb n (length dst) h, le→leb n (length src) i) refl

take_front : (n : ℕ) (xs ys : List ℕ) → n ≤ length xs → take n (take n xs ++ ys) ≡ take n xs
take_front zero xs ys h = refl
take_front (suc n) [] ys h = absurd (omega (arith, h))
take_front (suc n) (x ∷ xs) ys h = ap (◌∷◌ x) (take_front n xs ys (omega (arith, h)))

-- `swap_ip6addr` exchanges the first 16 bytes of two blocks that have as many.
swap_ip6addr_lem :
    (junk ip1 ip2 : List ℕ)
    → length junk ≡ 16
    → 16 ≤ length ip1
    → 16 ≤ length ip2
    → swap_ip6addr junk ip1 ip2 ≡ some (take 16 ip2 ++ drop 16 ip1, take 16 ip1 ++ drop 16 ip2)
unfolding swap_ip6addr
swap_ip6addr_lem junk ip1 ip2 e h i =
    rw (memcpy-fits junk ip1 16 (omega (arith, e)) h, memcpy-fits ip1 ip2 16 h i)
      (rw
        (
          memcpy-fits ip2 (take 16 ip1 ++ drop 16 junk) 16 i
              (omega (arith, h, length-take 16 ip1, length-append (take 16 ip1) (drop 16 junk))),
          take_front 16 ip1 (drop 16 junk) h,
        )
        refl)

-- `cpy_bytes_ntoh` puts into `dst` what `bytes_ntoh` makes of `src`, as far as it goes, and leaves the
-- rest of `dst`, where both blocks have room for the rounds of the loop.
cpy_bytes_ntoh-bytes_ntoh :
    (ntohl htonl : Quad → Quad) (dst src : List ℕ) (len : ℕ)
    → 4 * quads len ≤ length dst
    → 4 * quads len ≤ length src
    → (out : List ℕ) × (bytes_ntoh ntohl htonl src len ≡ some (out ++ drop (4 * quads len) src))
      × (cpy_bytes_ntoh ntohl htonl dst src len ≡ some (out ++ drop (4 * quads len) dst))
      × (length out ≡ 4 * quads len)
unfolding bytes_ntoh cpy_bytes_ntoh IsCopied
cpy_bytes_ntoh-bytes_ntoh ntohl htonl dst src len = cpy_convert-IsCopied ntohl (quads len) dst src
