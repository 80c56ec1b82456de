-- ===== src/Puffer/Window.antt =====
-- The entries of a ring of `cap` slots from one index on, going round at `cap`.
use devclego.Prelude.{
  List, Option, [], ap, ap₂, arith, get_or, get_or-set, if◌then◌else◌, length, none, refl, set, suc,
  zero, ℕ, ◌++◌, ◌+◌, ◌-◌, ◌<◌, ◌==◌, ◌∷◌, ◌≡◌, ◌≤◌, ◌⊎◌,
}

unfoldable pub next : ℕ → ℕ → ℕ
next cap h = if h + 1 == cap then 0 else h + 1

-- `i` lies `n` slots behind `h`
pub record IsAhead (cap h n i : ℕ) : Type 0 where
  pub inside : i < cap
  pub distance : (h + n ≡ i) ⊎ (h + n ≡ i + cap)

module _ {ℓ} {A : Type ℓ} (cap : ℕ) where
  unfoldable pub window : List (Option A) → ℕ → ℕ → List (Option A)
  window buf h zero = []
  window buf h (suc n) = get_or buf h none ∷ window buf (next cap h) n

module _ {ℓ} {A : Type ℓ} where
  pub length-window : (cap : ℕ) (buf : List (Option A)) (h n : ℕ) → length (window cap buf h n) ≡ n
  unfolding window
  length-window cap buf h zero = refl
  length-window cap buf h (suc n) = ap suc (length-window cap buf (next cap h) n)

  pub window_first :
      (cap : ℕ) (buf : List (Option A)) (h n : ℕ)
      → 0 < n
      → window cap buf h n ≡ get_or buf h none ∷ window cap buf (next cap h) (n - 1)
  unfolding window
  window_first cap buf h zero p = elim p [ ]
  window_first cap buf h (suc n) p = ap (λ k. window cap buf h (suc k)) (omega arith)

  -- A write at a slot outside the window leaves the window as it was.
  pub window-set_outside :
      (cap : ℕ) (buf : List (Option A)) (h n : ℕ) (i : ℕ) (x : Option A)
      → cap ≤ length buf
      → h < cap
      → i < cap
      → ((h ≤ i) × (h + n ≤ i)) ⊎ ((i < h) × (h + n ≤ i + cap))
      → window cap (set buf i x) h n ≡ window cap buf h n
  unfolding window next
  window-set_outside cap buf h zero i x size hh hi out = refl
  window-set_outside cap buf h (suc n) i x size hh hi out =
      ap₂ ◌∷◌ (ground (arith, get_or-set buf i h x none))
        (window-set_outside cap buf (next cap h) n i x size (ground arith) hi (ground arith))

  -- Writing just behind a window extends it.
  pub window-set_end :
      (cap : ℕ) (buf : List (Option A)) (h n i : ℕ) (x : Option A)
      → cap ≤ length buf
      → h < cap
      → n < cap
      → IsAhead cap h n i
      → window cap (set buf i x) h (suc n) ≡ window cap buf h n ++ x ∷ []
  unfolding window next
  window-set_end cap buf h zero i x size hh hn a = ground (arith, get_or-set buf i h x none)
  window-set_end cap buf h (suc n) i x size hh hn a =
      ap₂ ◌∷◌ (ground (arith, get_or-set buf i h x none))
        (window-set_end cap buf (next cap h) n i x size (ground arith) (omega arith) (ground arith))
