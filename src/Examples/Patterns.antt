-- ===== src/Examples/Patterns.antt =====
-- Patterns and names for drmemd/src/backends/simple/glob.rs.
use drmem.Base.{ℕ, ◌≡◌, refl, true, some, [], ◌∷◌, ◌↔◌, arith}
use drmem.Glob.{Chars, any_one, any_run, step, matches}
use drmem.Glob.Spec.{accepts, Matches, empty, one, here, more, same}
use drmem.Glob.Search.{matches_ends}
use drmem.Glob.Meaning.{matches_exact}

-- `l?mp*` and `lamp:1`
abbrev pattern_lamp : Chars
pattern_lamp = b'l' ∷ any_one ∷ b'm' ∷ b'p' ∷ any_run ∷ []

abbrev name_lamp : Chars
name_lamp = b'l' ∷ b'a' ∷ b'm' ∷ b'p' ∷ b':' ∷ b'1' ∷ []

lamp-Matches : Matches pattern_lamp name_lamp
lamp-Matches = same (ground arith) (ground arith) (
    one (
      same (ground arith) (ground arith)
        (same (ground arith) (ground arith) (more (more (here empty))))))

matches_lamp : matches 10 pattern_lamp name_lamp ≡ some true
unfolding matches step
matches_lamp = refl

matches_ends_example :
    (fuel : ℕ) × (matches fuel pattern_lamp name_lamp ≡ some (accepts pattern_lamp name_lamp))
matches_ends_example = matches_ends pattern_lamp name_lamp

matches_exact_example :
    ((fuel : ℕ) × (matches fuel pattern_lamp name_lamp ≡ some true))
    ↔ Matches pattern_lamp name_lamp
matches_exact_example = matches_exact pattern_lamp name_lamp refl
