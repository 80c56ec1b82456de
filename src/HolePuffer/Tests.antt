-- ===== src/HolePuffer/Tests.antt =====
-- The puffer with holes at concrete states.
use devclego.Prelude.{Option, [], none, refl, some, ℕ, ◌∷◌, ◌≡◌}
use devclego.HolePuffer.{HolePuffer, mdatapuffer_setreadindex}

-- reading behind the first item leaves it where it is
abbrev three : HolePuffer
three = record {
  items = some 7 ∷ some 8 ∷ none ∷ [];
  length = 3;
  end = 2;
  start = 0;
  read_index = 0;
  count = 2;
  plus = 0;
}

abbrev index_of : Option HolePuffer → ℕ
index_of none = 9
index_of (some p) = p.read_index

second : index_of (mdatapuffer_setreadindex 9 three 1) ≡ 1
unfolding mdatapuffer_setreadindex
second = refl
