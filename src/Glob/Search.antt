-- ===== src/Glob/Search.antt =====
-- The stack machine of drmemd/src/backends/simple/glob.rs ends, and computes `accepts`.
use drmem.Base.{◌+◌, Option, zero, ◌∙◌}
use drmem.Base.{ℕ, suc, ◌≡◌, refl, Bool, true, false, ◌||◌, none, some}
use drmem.Base.{List, [], ◌∷◌, ◌==◌, if◌then◌else◌, arith, Bool-cases, inl, inr, ap, sym}
use mathlib.Core.Path.{subst}
use drmem.Glob
use drmem.Glob.{Chars, Fsm, Stepped, next_pat_char, next_name_char, step, process_loop, backtrace}
use drmem.Glob.{skip_wildcards, save_matches, then_search, matches, process, is_wildcard, any_one}
use drmem.Glob.{any_run, match_chars}
use drmem.Glob.Spec.{find, accepts, after_wildcard}

abbrev Stack : Type 0
Stack = List (Chars × Chars)

-- The machine with `p` and `n` before it, their first characters read.
abbrev at : Stack → Chars → Chars → Fsm
at st p n =
    next_name_char (
      next_pat_char (record { stack = st; it_pat = p; it_name = n; ch_pat = none; ch_name = none }))

-- The loop of `process` ends with `b`.
abbrev Ends : Fsm → Bool → Type 0
Ends m b = (fuel : ℕ) × (process_loop fuel m ≡ some b)

abbrev EndsAfter : Stepped → Bool → Type 0
EndsAfter (m, some r) b = r ≡ b
EndsAfter (m, none) b = Ends m b

-- Popping the stack ends with `b`.
abbrev Saved : Stack → Bool → Type 0
Saved [] b = false ≡ b
Saved ((p, n) ∷ st) b = Ends (at st p n) b

loop_after :
    (r : Stepped) (b : Bool)
    → EndsAfter r b
    → (fuel : ℕ) × ((elim r.1 [ some b ↦ some b | none ↦ process_loop fuel r.0 ]) ≡ some b)
loop_after (m, some r) b h = (0, ap some h)
loop_after (m, none) b h = h

Ends-step : (m : Fsm) (b : Bool) → EndsAfter (step m) b → Ends m b
unfolding process_loop
Ends-step m b h = let (fuel, e) = loop_after (step m) b h in (suc fuel, e)

backtrace-Ends : (m : Fsm) (b : Bool) → Saved m.stack b → EndsAfter (backtrace m) b
unfolding backtrace
backtrace-Ends m b h = go m.stack h
  where
    go : (st : Stack) → Saved st b → EndsAfter (Glob.resume m st) b
    go [] h = h
    go ((p, n) ∷ st) h = h

-- The stack after the second loop, for the literal `x`.
abbrev pushes : Stack → Chars → ℕ → Chars → Stack
pushes st p x [] = st
pushes st p x (c ∷ n) = pushes (if c == x then (p, n) ∷ st else st) p x n

save_matches-stack :
    (st : Stack) (x : ℕ) (p n : Chars) (c : ℕ)
    → (save_matches n
        (record { stack = st; it_pat = p; it_name = n; ch_pat = some x; ch_name = some c })).stack
      ≡ pushes st p x (c ∷ n)
unfolding save_matches
save_matches-stack st x p [] c = elim (Bool-cases (c == x)) [ inl e ↦ rw e | inr e ↦ rw e ]
save_matches-stack st x p (d ∷ n) c = elim (Bool-cases (c == x)) [
  | inl e ↦ rw e (save_matches-stack ((p, d ∷ n) ∷ st) x p n d)
  | inr e ↦ rw e (save_matches-stack st x p n d)
]

find_or : (a b c : Bool) → (a || b) || c ≡ b || (a || c)
find_or a b c = ground arith

-- What pushing the candidates adds to the outcome, when each of them ends as `rest` says.
pushes-Saved :
    (rest : Chars → Bool) (p : Chars) (x : ℕ)
    → ((n : Chars) (st : Stack) (b : Bool) → Saved st b → Ends (at st p n) (rest n || b))
    → (n : Chars) (st : Stack) (b : Bool) → Saved st b
    → Saved (pushes st p x n) (find rest x n || b)
unfolding find
pushes-Saved rest p x ih [] st b h = h
pushes-Saved rest p x ih (c ∷ n) st b h = elim (Bool-cases (c == x)) [
  | inl e ↦ rw e (
      rw (find_or (rest n) (find rest x n) b)
        (pushes-Saved rest p x ih n ((p, n) ∷ st) (rest n || b) (ih n st b h)))
  | inr e ↦ rw e (pushes-Saved rest p x ih n st b h)
]

-- `step` at a star and a character, once the star is dealt with.
abbrev Searches : Chars → Chars → Bool → Type 0
Searches p n r =
    (w : ℕ) (st : Stack) (b : Bool)
    → is_wildcard (some w) ≡ true
    → Saved st b
    → EndsAfter
        (then_search (
          skip_wildcards p (record {
            stack = st;
            it_pat = p;
            it_name = (Glob.next n).1;
            ch_pat = some w;
            ch_name = (Glob.next n).0;
          })))
        (r || b)

skip_nothing :
    (p : Chars) (m : Fsm) → is_wildcard m.ch_pat ≡ false → skip_wildcards p m ≡ Glob.onward m
unfolding skip_wildcards
skip_nothing [] m e = rw e
skip_nothing (x ∷ p) m e = rw e

search_literal :
    (rest : Chars → Bool) (x : ℕ) (p n : Chars) (st : Stack) (b : Bool)
    → is_wildcard (some x) ≡ false
    → Saved (pushes st p x n) (find rest x n || b)
    → EndsAfter (then_search (skip_wildcards p (at st (x ∷ p) n))) (find rest x n || b)
unfolding then_search
search_literal rest x p [] st b e h =
    rw (skip_nothing p (at st (x ∷ p) []) e) (backtrace-Ends (at st (x ∷ p) []) _ h)
search_literal rest x p (c ∷ n) st b e h = rw (skip_nothing p (at st (x ∷ p) (c ∷ n)) e) (
    backtrace-Ends _ _
      (subst (λ s. Saved s (find rest x (c ∷ n) || b)) (sym (save_matches-stack st x p n c)) h))

mutual
  unfolding accepts step match_chars skip_wildcards then_search find

  search : (p n : Chars) (st : Stack) (b : Bool) → Saved st b → Ends (at st p n) (accepts p n || b)
  search [] [] st b h = Ends-step _ _ refl
  search [] (c ∷ n) st b h = Ends-step _ _ (backtrace-Ends _ b h)
  search (x ∷ p) [] st b h =
      Ends-step _ _ (elim (Bool-cases (x == any_run)) [
        | inl e ↦ rw e refl
        | inr e ↦ rw e (backtrace-Ends _ b h)
      ])
  search (x ∷ p) (c ∷ n) st b h = Ends-step _ _ (elim (Bool-cases (x == any_one)) [
    | inl e ↦ rw e (search p n st b h)
    | inr e ↦ elim (Bool-cases (x == any_run)) [
      | inl e' ↦ rw (e, e') (search_after p (c ∷ n) x st b (ground arith) h)
      | inr e' ↦ elim (Bool-cases (x == c)) [
        | inl e'' ↦ rw (e, e', e'') (search p n st b h)
        | inr e'' ↦ rw (e, e', e'') (backtrace-Ends _ b h)
      ]
    ]
  ])

  search_after : (p n : Chars) → Searches p n (after_wildcard p n)
  search_after [] n w st b e h = rw e refl
  search_after (x ∷ p) [] w st b e h = elim (Bool-cases (x == any_one)) [
    | inl f ↦ rw (e, f) (backtrace-Ends _ b h)
    | inr f ↦ elim (Bool-cases (x == any_run)) [
      | inl f' ↦ rw (e, f, f') (search_after p [] x st b (ground arith) h)
      | inr f' ↦
          rw (e, f, f')
            (search_literal (accepts p) x p [] st b (ground arith)
              (pushes-Saved (accepts p) p x (search p) [] st b h))
    ]
  ]
  search_after (x ∷ p) (c ∷ n) w st b e h = elim (Bool-cases (x == any_one)) [
    | inl f ↦ rw (e, f) (search_after p n x st b (ground arith) h)
    | inr f ↦ elim (Bool-cases (x == any_run)) [
      | inl f' ↦ rw (e, f, f') (search_after p (c ∷ n) x st b (ground arith) h)
      | inr f' ↦
          rw (e, f, f')
            (search_literal (accepts p) x p (c ∷ n) st b (ground arith)
              (pushes-Saved (accepts p) p x (search p) (c ∷ n) st b h))
    ]
  ]

or_none : (a : Bool) → a || false ≡ a
or_none true = refl
or_none false = refl

-- For every pattern and name there is a number of rounds after which the loop of `process` has
-- returned, and the answer is `accepts`, the recursive description of the search.
pub matches_ends :
    (pat name : Chars) → (fuel : ℕ) × (matches fuel pat name ≡ some (accepts pat name))
unfolding matches
matches_ends pat name =
    let (fuel, e) = search pat name [] false refl in
    (fuel, subst (λ b. process_loop fuel (at [] pat name) ≡ some b) (or_none (accepts pat name)) e)

-- More rounds than are needed give the same answer.
process_loop_longer :
    (f g : ℕ) (m : Fsm) {b : Bool} → process_loop f m ≡ some b → process_loop (f + g) m ≡ some b
unfolding process_loop
process_loop_longer zero g m h = cc
process_loop_longer (suc f) g m {b} h =
    let e : suc f + g ≡ suc (f + g) = omega arith in
    ap (λ k. process_loop k m) e ∙ go (step m).1 (process_loop_longer f g (step m).0) h
  where
    go :
        (o : Option Bool)
        → (process_loop f (step m).0 ≡ some b → process_loop (f + g) (step m).0 ≡ some b)
        → (elim o [ some r ↦ some r | none ↦ process_loop f (step m).0 ]) ≡ some b
        → (elim o [ some r ↦ some r | none ↦ process_loop (f + g) (step m).0 ]) ≡ some b
    go none ih p = ih p
    go (some r) ih p = p

pub matches_longer :
    (f g : ℕ) (pat name : Chars) {b : Bool}
    → matches f pat name ≡ some b
    → matches (f + g) pat name ≡ some b
unfolding matches
matches_longer f g pat name h = process_loop_longer f g _ h
