-- ===== src/Text/Trimming.antt =====
-- `trim` against a reference on the characters of the string.
use mathlib.Core.List.{append_assoc}
use devclego.Prelude.{
  Bool, Bool-cases, List, [], ap, arith, drop, false, get_elem?, get_or, if◌then◌else◌, inl, inr,
  length, length-append, length-drop, length-set, length-take, refl, set, some, suc, take, take-suc,
  true, zero, ℕ, ◌++◌, ◌+◌, ◌<◌, ◌==◌, ◌∙◌, ◌∷◌, ◌≡◌, ◌≤◌,
}
use devclego.Text.{strlen, skip_spaces, ltrim, back, rtrim, trim}

-- A string before its zero byte.
unfoldable pub NoNul : List ℕ → Type 0
NoNul [] = Unit
NoNul (c ∷ cs) = ((c == 0) ≡ false) × NoNul cs

-- The string that starts at the beginning of an array.
unfoldable pub text : List ℕ → List ℕ
text [] = []
text (c ∷ cs) = if c == 0 then [] else c ∷ text cs

strlen-NoNul : (w rest : List ℕ) → NoNul w → strlen (w ++ 0 ∷ rest) ≡ some (length w)
unfolding strlen NoNul
strlen-NoNul [] rest h = refl
strlen-NoNul (c ∷ w) rest h = rw (h.0, strlen-NoNul w rest h.1) (ap some (omega arith))

text-set :
    (w rest : List ℕ) (k : ℕ) → NoNul w → k ≤ length w → text (set (w ++ 0 ∷ rest) k 0) ≡ take k w
unfolding text NoNul
text-set [] rest zero h le = refl
text-set [] rest (suc k) h le = absurd (omega (arith, le))
text-set (c ∷ w) rest zero h le = refl
text-set (c ∷ w) rest (suc k) h le = rw (h.0, text-set w rest k h.1 (omega (arith, le))) refl

take-all : (w : List ℕ) (c : ℕ) (rest : List ℕ) → take (length w + 1) (w ++ c ∷ rest) ≡ w ++ c ∷ []
take-all w c rest = go (length w + 1) w (omega arith)
  where
    go : (n : ℕ) (v : List ℕ) → n ≡ length v + 1 → take n (v ++ c ∷ rest) ≡ v ++ c ∷ []
    go zero v e = absurd (omega (arith, e))
    go (suc zero) [] e = refl
    go (suc (suc n)) [] e = absurd (omega (arith, e))
    go (suc n) (d ∷ v) e = ap (◌∷◌ d) (go n v (omega (arith, e)))

take-length : (w : List ℕ) → take (length w) w ≡ w
take-length [] = refl
take-length (c ∷ w) = ap (◌∷◌ c) (take-length w)

get_elem?-before :
    (w rest : List ℕ) (i : ℕ) → i < length w → get_elem? (w ++ rest) i ≡ some (get_or w i 0)
get_elem?-before [] rest i h = absurd (omega (arith, h))
get_elem?-before (c ∷ w) rest zero h = refl
get_elem?-before (c ∷ w) rest (suc i) h = get_elem?-before w rest i (omega (arith, h))

module _ (isspace : ℕ → Bool) where
  -- The reference: the string without the spaces at its start, and without those at its end.
  unfoldable pub without_start : List ℕ → List ℕ
  without_start [] = []
  without_start (c ∷ cs) = let rest = without_start cs in if isspace c then rest else c ∷ cs

  unfoldable pub without_end : List ℕ → List ℕ
  without_end [] = []
  without_end (c ∷ cs) = elim (without_end cs) [
    | [] ↦ if isspace c then [] else c ∷ []
    | d ∷ ds ↦ c ∷ d ∷ ds
  ]

  without_start-NoNul : (w : List ℕ) → NoNul w → NoNul (without_start w)
  unfolding without_start NoNul
  without_start-NoNul [] h = tt
  without_start-NoNul (c ∷ w) h = elim (Bool-cases (isspace c)) [
    | inl e ↦ rw e (without_start-NoNul w h.1)
    | inr e ↦ rw e h
  ]

  skip_spaces_lem :
      isspace 0 ≡ false
      → (w rest : List ℕ) → skip_spaces isspace (w ++ 0 ∷ rest) ≡ some (without_start w ++ 0 ∷ rest)
  unfolding skip_spaces without_start
  skip_spaces_lem z [] rest = rw z refl
  skip_spaces_lem z (c ∷ w) rest = elim (Bool-cases (isspace c)) [
    | inl e ↦ rw e (skip_spaces_lem z w rest)
    | inr e ↦ rw e refl
  ]

  length-without_start : (w : List ℕ) → length (without_start w) ≤ length w
  unfolding without_start
  length-without_start [] = omega arith
  length-without_start (c ∷ w) = ground (arith, length-without_start w)

  ltrim_lem :
      isspace 0 ≡ false
      → (w rest : List ℕ) → NoNul w
      → (rest' : List ℕ) × (ltrim isspace (w ++ 0 ∷ rest) ≡ some (without_start w ++ 0 ∷ rest'))
        × (length (without_start w ++ 0 ∷ rest') ≡ length (w ++ 0 ∷ rest))
  unfolding ltrim
  ltrim_lem z w rest h =
      let v = without_start w in
      (
        drop (length v + 1) (w ++ 0 ∷ rest),
        rw
            (
              skip_spaces_lem z w rest,
              strlen-NoNul v rest (without_start-NoNul w h),
              take-all v 0 rest,
            )
            (ap some (append_assoc v (0 ∷ []) (drop (length v + 1) (w ++ 0 ∷ rest)))),
        omega (
          arith,
          length-without_start w,
          length-append v (0 ∷ drop (length v + 1) (w ++ 0 ∷ rest)),
          length-append w (0 ∷ rest),
          length-drop (length v + 1) (w ++ 0 ∷ rest),
        ),
      )

  without_end-space :
      (u : List ℕ) (c : ℕ) → isspace c ≡ true → without_end (u ++ c ∷ []) ≡ without_end u
  unfolding without_end
  without_end-space [] c e = rw e refl
  without_end-space (x ∷ u) c e = rw (without_end-space u c e) refl

  without_end-other :
      (u : List ℕ) (c : ℕ) → isspace c ≡ false → without_end (u ++ c ∷ []) ≡ u ++ c ∷ []
  unfolding without_end
  without_end-other [] c e = rw e refl
  without_end-other (x ∷ []) c e = rw (e, without_end) refl
  without_end-other (x ∷ y ∷ u) c e = rw (without_end-other (y ∷ u) c e) refl

  without_end-take :
      (w : List ℕ)
      → (length (without_end w) ≤ length w) × (take (length (without_end w)) w ≡ without_end w)
  unfolding without_end
  without_end-take [] = (omega arith, refl)
  without_end-take (c ∷ w) = go (without_end w) refl (without_end-take w)
    where
      go :
          (v : List ℕ)
          → without_end w ≡ v
          → (length (without_end w) ≤ length w) × (take (length (without_end w)) w ≡ without_end w)
          → (length (without_end (c ∷ w)) ≤ length (c ∷ w))
            × (take (length (without_end (c ∷ w))) (c ∷ w) ≡ without_end (c ∷ w))
      go [] e known = elim (Bool-cases (isspace c)) [
        | inl f ↦ rw (e, f) (omega arith, refl)
        | inr f ↦ rw (e, f) (omega arith, refl)
      ]
      go (d ∷ ds) e known =
          let known' = rw e at known in rw e (omega (arith, known'.0), ap (◌∷◌ c) known'.1)

  back_lem :
      (w rest : List ℕ) (n : ℕ)
      → n ≤ length w
      → back isspace (w ++ 0 ∷ rest) n ≡ some (length (without_end (take n w)))
  unfolding back without_end
  back_lem w rest zero h = refl
  back_lem w rest (suc n) h = elim (Bool-cases (isspace (get_or w n 0))) [
    | inl e ↦
        rw
          (
            get_elem?-before w (0 ∷ rest) n (omega (arith, h)),
            e,
            take-suc n w 0 (omega (arith, h)),
            without_end-space (take n w) _ e,
          )
          (back_lem w rest n (omega (arith, h)))
    | inr e ↦
        rw
          (
            get_elem?-before w (0 ∷ rest) n (omega (arith, h)),
            e,
            take-suc n w 0 (omega (arith, h)),
            without_end-other (take n w) _ e,
          )
          (ap some
            (omega (arith, length-append (take n w) (get_or w n 0 ∷ []), length-take n w, h)))
  ]

  rtrim_lem :
      (w rest : List ℕ)
      → NoNul w
      → (s' : List ℕ) × (rtrim isspace (w ++ 0 ∷ rest) ≡ some s')
        × (text s' ≡ without_end w)
        × (length s' ≡ length (w ++ 0 ∷ rest))
  unfolding rtrim
  rtrim_lem w rest h =
      let k = length (without_end w) in
      let (le, prefix) = without_end-take w in
      let all : take (length w) w ≡ w = take-length w in
      (
        set (w ++ 0 ∷ rest) k 0,
        rw (strlen-NoNul w rest h, back_lem w rest (length w) (omega arith), all) refl,
        text-set w rest k h le ∙ prefix,
        length-set (w ++ 0 ∷ rest) k 0,
      )

  -- `trim` of a string gives, in the same array, the string without the spaces at its two ends,
  -- where the zero byte is no space.
  pub trim_lem :
      isspace 0 ≡ false
      → (w rest : List ℕ) → NoNul w
      → (s' : List ℕ) × (trim isspace (w ++ 0 ∷ rest) ≡ some s')
        × (text s' ≡ without_end (without_start w))
        × (length s' ≡ length (w ++ 0 ∷ rest))
  unfolding trim
  trim_lem z w rest h =
      let (rest', left, same) = ltrim_lem z w rest h in
      let (s', right, stands, same') =
        rtrim_lem (without_start w) rest' (without_start-NoNul w h) in
      (s', rw (left, right) refl, stands, same' ∙ same)
