-- ===== src/Text/Order.antt =====
-- The byte order of a block.
use devclego.Prelude.{
  List, [], ap, arith, length, none, refl, sign, some, suc, zero, ℕ, ◌%◌, ◌*◌, ◌<◌, ◌∙◌, ◌∷◌, ◌≡◌,
  ◌≢◌, ◌≤◌,
}
use devclego.Text.{Quad, convert, quads, bytes_ntoh, bytes_hton}

module _ (f g : Quad → Quad) (undo : (q : Quad) → g (f q) ≡ q) where
  convert-undone :
      (n : ℕ) (bytes : List ℕ)
      → 4 * n ≤ length bytes
      → (mid : List ℕ) × (convert f n bytes ≡ some mid)
        × (convert g n mid ≡ some bytes)
        × (length mid ≡ length bytes)
  unfolding convert
  convert-undone zero bytes h = (bytes, refl, refl, refl)
  convert-undone (suc n) [] h = absurd (omega (arith, h))
  convert-undone (suc n) (a ∷ []) h = absurd (omega (arith, h))
  convert-undone (suc n) (a ∷ b ∷ []) h = absurd (omega (arith, h))
  convert-undone (suc n) (a ∷ b ∷ c ∷ []) h = absurd (omega (arith, h))
  convert-undone (suc n) (a ∷ b ∷ c ∷ d ∷ bytes) h =
      let (mid, there, here, same) = convert-undone n bytes (omega (arith, h)) in
      let (a', b', c', d') = f (a, b, c, d) in
      (
        a' ∷ b' ∷ c' ∷ d' ∷ mid,
        rw there refl,
        rw here (ap (λ q. some (q.0 ∷ q.1 ∷ q.2 ∷ q.3 ∷ bytes)) (undo (a, b, c, d))),
        omega (arith, same),
      )

convert-outside :
    (f : Quad → Quad) (n : ℕ) (bytes : List ℕ) → length bytes < 4 * n → convert f n bytes ≡ none
unfolding convert
convert-outside f zero bytes h = absurd (omega (arith, h))
convert-outside f (suc n) [] h = refl
convert-outside f (suc n) (a ∷ []) h = refl
convert-outside f (suc n) (a ∷ b ∷ []) h = refl
convert-outside f (suc n) (a ∷ b ∷ c ∷ []) h = refl
convert-outside f (suc n) (a ∷ b ∷ c ∷ d ∷ bytes) h =
    rw (convert-outside f n bytes (omega (arith, h))) refl

quads_multiple : (len k : ℕ) → len < sign → len ≡ 4 * k → quads len ≡ k
quads_multiple len k small e = ground (arith, e)

quads_short : (len : ℕ) → len < sign → len % 4 ≢ 0 → len < 4 * quads len
quads_short len small odd = ground arith

module _ (ntohl htonl : Quad → Quad) where
  -- Where `htonl` undoes `ntohl`, `bytes_hton` undoes `bytes_ntoh` on a block whose length is a
  -- multiple of 4 below 2^31, and neither reads outside the block.
  pub bytes_hton-bytes_ntoh :
      ((q : Quad) → htonl (ntohl q) ≡ q)
      → (bytes : List ℕ) (k : ℕ) → length bytes ≡ 4 * k
      → length bytes < sign
      → (mid : List ℕ) × (bytes_ntoh ntohl htonl bytes (length bytes) ≡ some mid)
        × (bytes_hton ntohl htonl mid (length mid) ≡ some bytes)
  unfolding bytes_ntoh bytes_hton
  bytes_hton-bytes_ntoh undo bytes k e small =
      let count = quads_multiple (length bytes) k small e in
      let (mid, there, here, same) = convert-undone ntohl htonl undo k bytes (omega (arith, e)) in
      (
        mid,
        ap (λ n. convert ntohl n bytes) count ∙ there,
        ap (λ l. convert htonl (quads l) mid) same ∙ ap (λ n. convert htonl n mid) count ∙ here,
      )

  -- A block whose length below 2^31 is no multiple of 4 is read behind its end, by both functions.
  pub bytes_ntoh-outside :
      (bytes : List ℕ)
      → length bytes < sign
      → length bytes % 4 ≢ 0
      → (bytes_ntoh ntohl htonl bytes (length bytes) ≡ none)
        × (bytes_hton ntohl htonl bytes (length bytes) ≡ none)
  unfolding bytes_ntoh bytes_hton
  bytes_ntoh-outside bytes small odd =
      let short : length bytes < 4 * quads (length bytes) = quads_short (length bytes) small odd in
      (
        convert-outside ntohl (quads (length bytes)) bytes short,
        convert-outside htonl (quads (length bytes)) bytes short,
      )
