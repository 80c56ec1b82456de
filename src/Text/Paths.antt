-- ===== src/Text/Paths.antt =====
-- `basename` of a path.
use devclego.Prelude.{List, Option, [], false, none, refl, some, ℕ, ◌++◌, ◌==◌, ◌∷◌, ◌≡◌}
use devclego.Text.{slash, basename_loop, basename}
use devclego.Text.Trimming.{NoNul}

unfoldable pub NoSlash : List ℕ → Type 0
NoSlash [] = Unit
NoSlash (c ∷ cs) = ((c == slash) ≡ false) × NoSlash cs

-- Behind a character that is no zero byte the loop passes a name without a slash.
loop_name :
    (c : ℕ) (name rest : List ℕ) (ret : Option (List ℕ))
    → (c == 0) ≡ false
    → NoNul name
    → NoSlash name
    → basename_loop (c ∷ (name ++ 0 ∷ rest)) ret ≡ some ret
unfolding basename_loop NoNul NoSlash
loop_name c [] [] ret z n s = rw z refl
loop_name c [] (d ∷ rest) ret z n s = rw z refl
loop_name c (d ∷ name) rest ret z n s = rw (z, s.0) (loop_name d name rest ret n.0 n.1 s.1)

loop_path :
    (c : ℕ) (dir name rest : List ℕ) (ret : Option (List ℕ))
    → (c == 0) ≡ false
    → NoNul dir
    → NoNul name
    → NoSlash name
    → basename_loop (c ∷ (dir ++ slash ∷ (name ++ 0 ∷ rest))) ret ≡ some (some (name ++ 0 ∷ rest))
unfolding basename_loop NoNul
loop_path c [] name rest ret z d n s = rw z (loop_name slash name rest _ refl n s)
loop_path c (e ∷ dir) name rest ret z d n s = rw z (loop_path e dir name rest _ d.0 d.1 n s)

-- `basename` gives the part behind the last slash of a path, where a character stands before that
-- slash, and NULL where no slash stands behind the first character.
pub basename_lem :
    (c : ℕ) (dir name rest : List ℕ)
    → (c == 0) ≡ false
    → NoNul dir
    → NoNul name
    → NoSlash name
    → (basename (c ∷ (dir ++ slash ∷ (name ++ 0 ∷ rest))) ≡ some (some (name ++ 0 ∷ rest)))
      × (basename (c ∷ (name ++ 0 ∷ rest)) ≡ some none)
unfolding basename
basename_lem c dir name rest z d n s =
    (loop_path c dir name rest none z d n s, loop_name c name rest none z n s)
