-- ===== src/MaxHeap/Returns.antt =====
-- A run that ends with a result, and what is known of it.
use devclego.Prelude.{}
use devclego.MaxHeap.{Result, ok, ◌>>=◌}

pub data Returns {ℓ κ} {A : Type ℓ} (P : A → Type κ) : Result A → Type (ℓ ⊔ κ) where
  returns : {a : A} → P a → Returns P (ok a)

module _ {ℓ κ} {A : Type ℓ} {P : A → Type κ} where
  pub bind {ℓ' κ'} :
      {B : Type ℓ'} {Q : B → Type κ'} {r : Result A} {f : A → Result B}
      → Returns P r
      → ((a : A) → P a → Returns Q (f a))
      → Returns Q (r >>= f)
  bind (returns p) k = k _ p

  pub mono {κ'} :
      {Q : A → Type κ'} {r : Result A} → Returns P r → ((a : A) → P a → Q a) → Returns Q r
  mono (returns p) k = returns (k _ p)

module _ {ℓ} {A : Type ℓ} where
  out {κ} : {P : A → Type κ} {a : A} → Returns P (ok a) → P a
  out (returns p) = p

  pub both {κ κ'} :
      {P : A → Type κ} {Q : A → Type κ'} {r : Result A}
      → Returns P r
      → Returns Q r
      → Returns (λ a. P a × Q a) r
  both (returns p) q = returns (p, out q)
