-- ===== src/Text/Tests.antt =====
-- Small strings and blocks.
use devclego.Prelude.{Bool, List, [], arith, length, none, refl, some, ℕ, ◌==◌, ◌∷◌, ◌≡◌}
use devclego.Text.{Quad, trim, bytes_ntoh, bytes_hton, basename, cpystr_with_def, slash}
use devclego.Text.Trimming.{text, NoNul, without_start, without_end, trim_lem}
use devclego.Text.Order.{bytes_hton-bytes_ntoh, bytes_ntoh-outside}

abbrev is_blank : ℕ → Bool
is_blank c = c == 32

abbrev turn : Quad → Quad
turn (a, b, c, d) = (d, c, b, a)

abbrev padded : List ℕ
padded = 32 ∷ 65 ∷ 32 ∷ 66 ∷ 32 ∷ 32 ∷ []

padded-NoNul : NoNul padded
unfolding NoNul
padded-NoNul = (refl, (refl, (refl, (refl, (refl, (refl, tt))))))

trim_lem_example :
    (s' : List ℕ) × (trim is_blank (32 ∷ 65 ∷ 32 ∷ 66 ∷ 32 ∷ 32 ∷ 0 ∷ 9 ∷ []) ≡ some s')
    × (text s' ≡ without_end is_blank (without_start is_blank padded))
    × (length s' ≡ 8)
trim_lem_example = trim_lem is_blank refl padded (9 ∷ []) padded-NoNul

bytes_hton-bytes_ntoh_example :
    (mid : List ℕ) × (bytes_ntoh turn turn (1 ∷ 2 ∷ 3 ∷ 4 ∷ []) 4 ≡ some mid)
    × (bytes_hton turn turn mid (length mid) ≡ some (1 ∷ 2 ∷ 3 ∷ 4 ∷ []))
bytes_hton-bytes_ntoh_example =
    bytes_hton-bytes_ntoh turn turn (λ q. refl) (1 ∷ 2 ∷ 3 ∷ 4 ∷ []) 1 refl (omega arith)

bytes_ntoh-outside_example :
    (bytes_ntoh turn turn (1 ∷ 2 ∷ 3 ∷ 4 ∷ 5 ∷ []) 5 ≡ none)
    × (bytes_hton turn turn (1 ∷ 2 ∷ 3 ∷ 4 ∷ 5 ∷ []) 5 ≡ none)
bytes_ntoh-outside_example =
    bytes_ntoh-outside turn turn (1 ∷ 2 ∷ 3 ∷ 4 ∷ 5 ∷ []) (omega arith) (omega arith)

-- The path `/a` gives NULL.
basename-root : basename (slash ∷ 97 ∷ 0 ∷ []) ≡ some none
unfolding basename
basename-root = refl

cpystr_with_def-default : cpystr_with_def (some []) none (some (97 ∷ [])) ≡ some (97 ∷ [])
unfolding cpystr_with_def
cpystr_with_def-default = refl
