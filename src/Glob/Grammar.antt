-- ===== src/Glob/Grammar.antt =====
-- Where the patterns of drmemd/src/backends/simple/glob.rs mean something else than patterns of
-- other programs: classes, escapes, several stars, and a star where the name ends.
use drmem.Base.{ℕ, some, Bool, true, ◌≡◌, refl, ◌&&◌, ◌≢◌, [], ◌∷◌, ◌++◌, ◌==◌, arith, ◌↔◌}
use drmem.Base.{not}
use mathlib.Core.Path.{subst, subst₂, ap, ◌∙◌}
use mathlib.Core.Bool.{false≢true}
use drmem.Glob.{Chars, any_one, any_run, matches}
use drmem.Glob.Spec.{accepts, Matches, empty, one, here, more, same}
use drmem.Glob.Search.{matches_ends}
use drmem.Glob.Meaning.{stars_last, matches_exact}

abbrev is_plain : Chars → Bool
is_plain [] = true
is_plain (c ∷ p) = not (c == any_one) && (not (c == any_run) && is_plain p)

plain-Matches : (p : Chars) → is_plain p ≡ true → Matches p p
plain-Matches [] h = empty
plain-Matches (c ∷ p) h = same (ground arith) (ground arith) (plain-Matches p (ground arith))

Matches-plain : {p n : Chars} → Matches p n → is_plain p ≡ true → p ≡ n
Matches-plain empty h = refl
Matches-plain (one d) h = absurd (false≢true h)
Matches-plain (here d) h = absurd (false≢true h)
Matches-plain (more d) h = absurd (false≢true h)
Matches-plain (same {c} a b d) h = ap (λ t. c ∷ t) (Matches-plain d (ground arith))

plain-stars_last : (p : Chars) → is_plain p ≡ true → stars_last p ≡ true
plain-stars_last [] h = refl
plain-stars_last (c ∷ p) h = ground (arith, plain-stars_last p)

-- A pattern without `?` and `*` is met by itself only: a bracket or a backslash has no other
-- meaning, and `l[ae]mp` does not accept `lamp`.
matches_plain :
    (pat name : Chars)
    → is_plain pat ≡ true
    → ((fuel : ℕ) × (matches fuel pat name ≡ some true)) ↔ (pat ≡ name)
matches_plain pat name h =
    let (to, from) = matches_exact pat name (plain-stars_last pat h) in
    (λ r. Matches-plain (to r) h, λ e. from (subst (Matches pat) e (plain-Matches pat h)))

one_star : {p n : Chars} → Matches (any_run ∷ any_run ∷ p) n → Matches (any_run ∷ p) n
one_star (here d) = d
one_star (more d) = more (one_star d)
one_star (same h k d) = absurd (k refl)

-- Two stars at the start of a pattern mean what one star means.
two_stars : (p n : Chars) → Matches (any_run ∷ any_run ∷ p) n ↔ Matches (any_run ∷ p) n
two_stars p n = (one_star, here)

accepts-star_at_end :
    (name rest : Chars) → is_plain name ≡ true → accepts (name ++ any_run ∷ rest) name ≡ true
unfolding accepts
accepts-star_at_end [] rest h = refl
accepts-star_at_end (c ∷ n) rest h = ground (arith, accepts-star_at_end n rest)

not-Matches-nil :
    {p n : Chars} → Matches p n → (x : ℕ) (q : Chars) → p ≡ x ∷ q → n ≡ [] → x ≡ any_run
not-Matches-nil empty x q e f = cc
not-Matches-nil (one d) x q e f = cc
not-Matches-nil (here d) x q e f = cc
not-Matches-nil (more d) x q e f = cc
not-Matches-nil (same h k d) x q e f = cc

Matches-tail :
    {p n : Chars}
    → Matches p n
    → (c : ℕ) (q m : Chars) → c ≢ any_run
    → p ≡ c ∷ q
    → n ≡ c ∷ m
    → Matches q m
Matches-tail empty c q m h e f = cc
Matches-tail (one {p} {n} d) c q m h e f = subst₂ Matches (ground arith) (ground arith) d
Matches-tail (here d) c q m h e f = absurd (h (cc))
Matches-tail (more d) c q m h e f = absurd (h (cc))
Matches-tail (same g k d) c q m h e f = subst₂ Matches (ground arith) (ground arith) d

not-Matches-star :
    (x : ℕ) (rest name : Chars)
    → is_plain name ≡ true
    → x ≢ any_run
    → ¬ Matches (name ++ any_run ∷ x ∷ rest) name
not-Matches-star x rest [] h k (here d) = k (not-Matches-nil d x rest refl refl)
not-Matches-star x rest (c ∷ n) h k d =
    not-Matches-star x rest n (ground arith) k (Matches-tail d c _ _ (ground arith) refl refl)

-- A name of literals that ends where the pattern has a star is accepted whatever follows that
-- star, though it does not match if another character than a star follows: `a*b` accepts `a`.
matches_star_at_end :
    (name : Chars) (x : ℕ) (rest : Chars)
    → is_plain name ≡ true
    → x ≢ any_run
    → ((fuel : ℕ) × (matches fuel (name ++ any_run ∷ x ∷ rest) name ≡ some true))
      × (¬ Matches (name ++ any_run ∷ x ∷ rest) name)
matches_star_at_end name x rest h k =
    let (fuel, e) = matches_ends (name ++ any_run ∷ x ∷ rest) name in
    ((fuel, e ∙ ap some (accepts-star_at_end name (x ∷ rest) h)), not-Matches-star x rest name h k)
