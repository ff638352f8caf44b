-- ===== src/Backend/Simple/Monitor/Window.antt =====
-- Which readings `monitor_device` of drmemd/src/backends/simple.rs passes on, where they
-- are in the order of time.
use drmem.Base.{ℕ, ◌≤◌, ◌≡◌, refl, sym, ap, ◌∙◌, Bool, true, false, ◌&&◌, Option, none, some}
use drmem.Base.{List, [], ◌∷◌, min, max, Bool-cases, inl, inr, arith}
use drmem.Backend.Simple.{Reading}
use drmem.Backend.Simple.Monitor.{
  Entry, received, filter, take_while, after_last, from, until, monitor,
}

and_left : (a b : Bool) → a ≡ false → a && b ≡ false
and_left a b h = ground arith

and_both : (a b c : Bool) → a ≡ true → b ≡ c → a && b ≡ c
and_both a b c h k = ground arith

and_right : (a b : Bool) → b ≡ false → a && b ≡ false
and_right a b h = ground arith

module _ {V : Type 0} where
  -- A reading between the two times, where there are any.
  abbrev pub in_window : Option ℕ → Option ℕ → Reading V → Bool
  in_window none none r = true
  in_window none (some end) r = until end r
  in_window (some start) none r = from start r
  in_window (some start) (some end) r = from (min start end) r && until (max start end) r

  -- In the order of time.
  abbrev pub NotBefore : ℕ → List (Reading V) → Type 0
  NotBefore t [] = Unit {0}
  NotBefore t (r ∷ rs) = (t ≤ r.ts) × NotBefore r.ts rs

  filter-yes :
      (p : Reading V → Bool) (r : Reading V) (rs : List (Reading V))
      → p r ≡ true
      → filter p (r ∷ rs) ≡ r ∷ filter p rs
  unfolding filter
  filter-yes p r rs h = rw h refl

  filter-no :
      (p : Reading V → Bool) (r : Reading V) (rs : List (Reading V))
      → p r ≡ false
      → filter p (r ∷ rs) ≡ filter p rs
  unfolding filter
  filter-no p r rs h = rw h refl

  take_while-yes :
      (p : Reading V → Bool) (r : Reading V) (rs : List (Reading V))
      → p r ≡ true
      → take_while p (r ∷ rs) ≡ r ∷ take_while p rs
  unfolding take_while
  take_while-yes p r rs h = rw h refl

  take_while-no :
      (p : Reading V → Bool) (r : Reading V) (rs : List (Reading V))
      → p r ≡ false
      → take_while p (r ∷ rs) ≡ []
  unfolding take_while
  take_while-no p r rs h = rw h refl

  filter_all : (rs : List (Reading V)) → filter (λ r. true) rs ≡ rs
  unfolding filter
  filter_all [] = refl
  filter_all (r ∷ rs) = ap (λ l. r ∷ l) (filter_all rs)

  filter_none :
      (p : Reading V → Bool) (t : ℕ) (rs : List (Reading V))
      → ((r : Reading V) → t ≤ r.ts → p r ≡ false)
      → NotBefore t rs
      → filter p rs ≡ []
  unfolding filter
  filter_none p t [] h n = refl
  filter_none p t (r ∷ rs) h n =
      filter-no p r rs (h r n.0) ∙ filter_none p r.ts rs (λ q le. h q (omega (arith, le, n.0))) n.1

  until_late : (end : ℕ) (r q : Reading V) → until end r ≡ false → r.ts ≤ q.ts → until end q ≡ false
  until_late end r q h le = ground arith

  -- In the order of time, what is taken until the end is all that is not after it.
  take_while-filter :
      (p : Reading V → Bool) (end t : ℕ) (rs : List (Reading V))
      → NotBefore t rs
      → take_while (until end) (filter p rs) ≡ filter (λ r. p r && until end r) rs
  unfolding filter take_while
  take_while-filter p end t [] n = refl
  take_while-filter p end t (r ∷ rs) n = elim (Bool-cases (p r)) [
    | inr e ↦
        ap (take_while (until end)) (filter-no p r rs e)
        ∙ take_while-filter p end r.ts rs n.1
        ∙ sym (filter-no (λ r. p r && until end r) r rs (and_left (p r) _ e))
    | inl e ↦ elim (Bool-cases (until end r)) [
      | inl f ↦
          ap (take_while (until end)) (filter-yes p r rs e)
          ∙ take_while-yes (until end) r (filter p rs) f
          ∙ ap (λ l. r ∷ l) (take_while-filter p end r.ts rs n.1)
          ∙ sym (filter-yes (λ r. p r && until end r) r rs (and_both (p r) _ true e f))
      | inr f ↦
          ap (take_while (until end)) (filter-yes p r rs e)
          ∙ take_while-no (until end) r (filter p rs) f
          ∙ sym (
              filter-no (λ r. p r && until end r) r rs (and_right (p r) _ f)
              ∙ filter_none (λ r. p r && until end r) r.ts rs
                  (λ q le. and_right (p q) _ (until_late end r q f le)) n.1)
    ]
  ]

  pub monitor-window :
      (start end : Option ℕ) (prev : Option (Reading V)) (es : List (Entry V)) (t : ℕ)
      → NotBefore t (after_last prev (received es))
      → monitor start end prev es ≡ filter (in_window start end) (after_last prev (received es))
  unfolding monitor
  monitor-window none none prev es t n = sym (filter_all _)
  monitor-window none (some end) prev es t n =
      ap (take_while (until end)) (sym (filter_all (after_last prev (received es))))
      ∙ take_while-filter (λ r. true) end t (after_last prev (received es)) n
  monitor-window (some start) none prev es t n = refl
  monitor-window (some start) (some end) prev es t n =
      take_while-filter (from (min start end)) (max start end) t (after_last prev (received es)) n
