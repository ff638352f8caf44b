-- ===== src/Glob/Spec.antt =====
-- What the search of drmemd/src/backends/simple/glob.rs computes, by recursion on the pattern, and
-- a meaning of a pattern in which only `?` and `*` are special.
use drmem.Base.{ℕ, Bool, true, false, ◌||◌, ◌&&◌, ◌≢◌, [], ◌∷◌, ◌==◌, if◌then◌else◌}
use drmem.Glob.{Chars, any_one, any_run}

-- The places of the name where the literal `x` stands, with what is asked of the rest.
unfoldable pub find : (Chars → Bool) → ℕ → Chars → Bool
find rest x [] = false
find rest x (c ∷ n) = (c == x && rest n) || find rest x n

unfoldable mutual
  pub accepts : Chars → Chars → Bool
  accepts [] [] = true
  accepts [] (c ∷ n) = false
  accepts (x ∷ p) [] = x == any_run
  accepts (x ∷ p) (c ∷ n) =
      if x == any_one
      then accepts p n
      else if x == any_run
      then after_wildcard p (c ∷ n)
      else (x == c && accepts p n)

  pub after_wildcard : Chars → Chars → Bool
  after_wildcard [] n = true
  after_wildcard (x ∷ p) [] =
      if x == any_one then false else if x == any_run then after_wildcard p [] else false
  after_wildcard (x ∷ p) (c ∷ n) =
      if x == any_one
      then after_wildcard p n
      else if x == any_run
      then after_wildcard p (c ∷ n)
      else find (accepts p) x (c ∷ n)

-- `?` is any one character and `*` is any run of characters, also of colons. All else stands for
-- itself, brackets and backslashes too, and a run of stars is the same as one star.
pub data Matches : Chars → Chars → Type 0 where
  empty : Matches [] []
  one : {c : ℕ} {p n : Chars} → Matches p n → Matches (any_one ∷ p) (c ∷ n)
  here : {p n : Chars} → Matches p n → Matches (any_run ∷ p) n
  more : {c : ℕ} {p n : Chars} → Matches (any_run ∷ p) n → Matches (any_run ∷ p) (c ∷ n)
  same : {c : ℕ} {p n : Chars} → c ≢ any_one → c ≢ any_run → Matches p n → Matches (c ∷ p) (c ∷ n)
