-- ===== src/Glob/Meaning.antt =====
-- What the answers of drmemd/src/backends/simple/glob.rs mean.
use drmem.Base.{
  ℕ, zero, suc, Option, none, ◌≡◌, refl, sym, Bool, true, ◌&&◌, ◌≢◌, some, [], ◌∷◌, ◌++◌,
}
use drmem.Base.{◌==◌, if◌then◌else◌, arith, ◌↔◌, Bool-cases, inl, inr, ==_iff}
use mathlib.Core.Path.{subst, ap, ◌∙◌}
use mathlib.Core.Bool.{false≢true}
use drmem.Glob.{Chars, Fsm, any_one, any_run, matches, process_loop, step}
use drmem.Glob.Spec.{find, accepts, after_wildcard, Matches, empty, one, here, more, same}
use drmem.Glob.Search.{matches_ends}

find_here : (rest : Chars → Bool) (x : ℕ) (n : Chars) → rest n ≡ true → find rest x (x ∷ n) ≡ true
unfolding find
find_here rest x n h = ground arith

find_later :
    (rest : Chars → Bool) (x c : ℕ) (n : Chars) → find rest x n ≡ true → find rest x (c ∷ n) ≡ true
unfolding find
find_later rest x c n h = ground arith

-- A run of wildcards that has been passed can also take one more character.
after_more : (p n : Chars) (c : ℕ) → after_wildcard p n ≡ true → after_wildcard p (c ∷ n) ≡ true
unfolding accepts
after_more [] n c h = refl
after_more (x ∷ p) [] c h = ground (arith, after_more p [] c)
after_more (x ∷ p) (d ∷ n) c h =
    ground (arith, after_more p n d, after_more p (d ∷ n) c, find_later (accepts p) x c (d ∷ n))

mutual
  unfolding accepts

  Matches→accepts : {p n : Chars} → Matches p n → accepts p n ≡ true
  Matches→accepts empty = refl
  Matches→accepts (one d) = Matches→accepts d
  Matches→accepts (here {n = []} d) = refl
  Matches→accepts (here {n = c ∷ n} d) = Matches→after d
  Matches→accepts (more {c} {p} {n} d) = after_more p n c (star→after d)
  Matches→accepts (same {c} {p} {n} h k d) = ground (arith, Matches→accepts d)

  Matches→after : {p n : Chars} → Matches p n → after_wildcard p n ≡ true
  Matches→after empty = refl
  Matches→after (one d) = Matches→after d
  Matches→after (here {n = []} d) = Matches→after d
  Matches→after (here {n = c ∷ n} d) = Matches→after d
  Matches→after (more {c} {p} {n} d) = after_more p n c (star→after d)
  Matches→after (same {c} {p} {n} h k d) =
      ground (arith, find_here (accepts p) c n, Matches→accepts d)

  star→after : {p n : Chars} → Matches (any_run ∷ p) n → after_wildcard p n ≡ true
  star→after (here d) = Matches→after d
  star→after (more {c} {p} {n} d) = after_more p n c (star→after d)
  star→after (same h k d) = absurd (k refl)

-- Every pattern matches some name.
fill : (p : Chars) → (t : Chars) × Matches p t
fill [] = ([], empty)
fill (x ∷ p) =
    let (t, d) = fill p in
    elim (Bool-cases (x == any_one)) [
      | inl e ↦ (0 ∷ t, rw ((==_iff _ _).0 e) (one d))
      | inr e ↦ elim (Bool-cases (x == any_run)) [
        | inl f ↦ (t, rw ((==_iff _ _).0 f) (here d))
        | inr f ↦ (x ∷ t, same (ground arith) (ground arith) d)
      ]
    ]

star_any : (n : Chars) → Matches (any_run ∷ []) n
star_any [] = here empty
star_any (c ∷ n) = more (star_any n)

star_one : {p n : Chars} (c : ℕ) → Matches (any_run ∷ p) n → Matches (any_run ∷ any_one ∷ p) (c ∷ n)
star_one c (here d) = here (one d)
star_one c (more {c = c'} d) = more (star_one c' d)
star_one c (same h k d) = absurd (k refl)

-- A continuation of the name that the pattern matches.
abbrev Extends : Chars → Chars → Type 0
Extends p n = (t : Chars) × Matches p (n ++ t)

find-Extends :
    (rest : Chars → Bool) (x : ℕ) (p : Chars)
    → x ≢ any_one
    → x ≢ any_run
    → ((n : Chars) → rest n ≡ true → Extends p n)
    → (n : Chars) → find rest x n ≡ true
    → Extends (any_run ∷ x ∷ p) n
unfolding find
find-Extends rest x p h k ih [] f = absurd (false≢true f)
find-Extends rest x p h k ih (c ∷ n) f = elim (Bool-cases (c == x && rest n)) [
  | inl e ↦
      let (t, d) = ih n (ground arith) in
      (
        t,
        here (
            subst (λ y. Matches (x ∷ p) (y ∷ n ++ t)) (sym ((==_iff c x).0 (ground arith)))
              (same h k d)),
      )
  | inr e ↦ let (t, d) = find-Extends rest x p h k ih n (rw e at f) in (t, more d)
]

mutual
  unfolding accepts

  accepts→ : (p n : Chars) → accepts p n ≡ true → Extends p n
  accepts→ [] [] h = ([], empty)
  accepts→ [] (c ∷ n) h = absurd (false≢true h)
  accepts→ (x ∷ p) [] h = fill (x ∷ p)
  accepts→ (x ∷ p) (c ∷ n) h = elim (Bool-cases (x == any_one)) [
    | inl e ↦ let (t, d) = accepts→ p n (rw e at h) in (t, rw ((==_iff _ _).0 e) (one d))
    | inr e ↦ elim (Bool-cases (x == any_run)) [
      | inl f ↦ let (t, d) = after→ p (c ∷ n) (rw (e, f) at h) in (t, rw ((==_iff _ _).0 f) d)
      | inr f ↦
          let (t, d) = accepts→ p n (ground arith) in
          (
            t,
            subst (λ y. Matches (x ∷ p) (y ∷ n ++ t)) ((==_iff x c).0 (ground arith))
                (same (ground arith) (ground arith) d),
          )
    ]
  ]

  after→ : (p n : Chars) → after_wildcard p n ≡ true → Extends (any_run ∷ p) n
  after→ [] n h = ([], star_any (n ++ []))
  after→ (x ∷ p) [] h = fill (any_run ∷ x ∷ p)
  after→ (x ∷ p) (c ∷ n) h = elim (Bool-cases (x == any_one)) [
    | inl e ↦ let (t, d) = after→ p n (rw e at h) in (t, rw ((==_iff _ _).0 e) (star_one c d))
    | inr e ↦ elim (Bool-cases (x == any_run)) [
      | inl f ↦
          let (t, d) = after→ p (c ∷ n) (rw (e, f) at h) in (t, rw ((==_iff _ _).0 f) (here d))
      | inr f ↦
          find-Extends (accepts p) x p (ground arith) (ground arith) (accepts→ p) (c ∷ n)
            (rw (e, f) at h)
    ]
  ]

-- If the name matches the pattern, the matcher returns true after some
-- number of rounds.
matches_complete :
    (pat name : Chars) → Matches pat name → (fuel : ℕ) × (matches fuel pat name ≡ some true)
matches_complete pat name d =
    let (fuel, e) = matches_ends pat name in (fuel, e ∙ ap some (Matches→accepts d))

-- A run of `process_loop` that has ended is not changed by more fuel.
process_loop_more :
    (f g : ℕ) (m : Fsm) {b c : Bool} → process_loop f m ≡ some b → process_loop g m ≡ some c → b ≡ c
unfolding process_loop
process_loop_more zero g m h k = cc
process_loop_more (suc f) zero m h k = cc
process_loop_more (suc f) (suc g) m {b} {c} h k =
    go (step m).1 (process_loop_more f g (step m).0) h k
  where
    go :
        (o : Option Bool)
        → (process_loop f (step m).0 ≡ some b → process_loop g (step m).0 ≡ some c → b ≡ c)
        → (elim o [ some r ↦ some r | none ↦ process_loop f (step m).0 ]) ≡ some b
        → (elim o [ some r ↦ some r | none ↦ process_loop g (step m).0 ]) ≡ some c
        → b ≡ c
    go none ih p q = ih p q
    go (some r) ih p q = cc

-- An answer true is given only where some continuation of the name matches the pattern.
matches_sound :
    (fuel : ℕ) (pat name : Chars)
    → matches fuel pat name ≡ some true
    → (t : Chars) × Matches pat (name ++ t)
unfolding matches
matches_sound fuel pat name h =
    let (f, e) = matches_ends pat name in accepts→ pat name (sym (process_loop_more fuel f _ h e))

-- The pattern has no star, or only stars after its first one.
abbrev only_stars : Chars → Bool
only_stars [] = true
only_stars (x ∷ p) = x == any_run && only_stars p

abbrev pub stars_last : Chars → Bool
stars_last [] = true
stars_last (x ∷ p) = if x == any_run then only_stars p else stars_last p

stars_empty : (p : Chars) → only_stars p ≡ true → Matches p []
stars_empty [] h = empty
stars_empty (x ∷ p) h =
    rw ((==_iff x any_run).0 (ground arith)) (here (stars_empty p (ground arith)))

star_then_stars : (p n : Chars) → only_stars p ≡ true → Matches (any_run ∷ p) n
star_then_stars p [] h = here (stars_empty p h)
star_then_stars p (c ∷ n) h = more (star_then_stars p n h)

accepts-stars_last : (p n : Chars) → stars_last p ≡ true → accepts p n ≡ true → Matches p n
unfolding accepts
accepts-stars_last [] [] s h = empty
accepts-stars_last [] (c ∷ n) s h = absurd (false≢true h)
accepts-stars_last (x ∷ p) [] s h = stars_empty (x ∷ p) (ground arith)
accepts-stars_last (x ∷ p) (c ∷ n) s h = elim (Bool-cases (x == any_run)) [
  | inl e ↦
      subst (λ y. Matches (y ∷ p) (c ∷ n)) (sym ((==_iff x any_run).0 e))
        (star_then_stars p (c ∷ n) (ground arith))
  | inr e ↦ elim (Bool-cases (x == any_one)) [
    | inl f ↦
        subst (λ y. Matches (y ∷ p) (c ∷ n)) (sym ((==_iff x any_one).0 f))
          (one (accepts-stars_last p n (ground arith) (ground arith)))
    | inr f ↦
        subst (λ y. Matches (x ∷ p) (y ∷ n)) ((==_iff x c).0 (ground arith))
          (same (ground arith) (ground arith)
            (accepts-stars_last p n (ground arith) (ground arith)))
  ]
]

-- For a pattern in which only stars follow a star, the matcher returns true after some number of
-- rounds exactly if the name matches, in the meaning in which `?` is any one character, a star,
-- or several, is any run of characters, and every other character stands for itself, brackets,
-- backslashes and colons too.
pub matches_exact :
    (pat name : Chars)
    → stars_last pat ≡ true
    → ((fuel : ℕ) × (matches fuel pat name ≡ some true)) ↔ Matches pat name
unfolding matches
matches_exact pat name s = (
  λ r.
      let (f, e) = matches_ends pat name in
      accepts-stars_last pat name s (sym (process_loop_more r.0 f _ r.1 e)),
  matches_complete pat name,
)
