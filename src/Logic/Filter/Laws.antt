-- ===== src/Logic/Filter/Laws.antt =====
-- A logic block that waits for the times of its filter sees all that its expressions depend on,
-- drmemd/src/logic/tod.rs.
use drmem.Base.{◌≤◌, ◌≡◌, refl, Bool, false, ◌||◌, Option, none, some, List, [], ◌∷◌}
use drmem.Base.{Bool-cases, inl, inr, arith}
use mathlib.Core.Path.{subst}
use mathlib.Core.Option.{some-injective}
use drmem.Api.Value.{Value}
use drmem.Logic.Expr.{Span, Zone, utc, local, rank}
use drmem.Logic.World.{Floats, Chrono, Solar}
use drmem.Logic.Eval.{Info, time_in}
use drmem.Logic.Reactive.{SameFrom, SameFrom-refl, SameFrom-longer, Agree}
use drmem.Logic.Filter.{TimeFilter, Item, tick, lagged, differs, changed, poll_next, time_filter}

module _ (fl : Floats) (ch : Chrono) where
  open fl use {F}

  abbrev or_else : Option (Info fl ch) → Info fl ch → Info fl ch
  or_else none time = time
  or_else (some t) time = t

  -- The filter and the time of a block whose loop has polled the stream at each of these items.
  unfoldable pub follow :
      TimeFilter fl ch → Info fl ch → List (Item fl ch) → TimeFilter fl ch × Info fl ch
  unfolding poll_next
  follow f time [] = (f, time)
  follow f time (x ∷ items) =
      let (f', o, rest) = poll_next fl ch f (x ∷ []) in follow f' (or_else o time) items

  -- A poll that skips items is a sequence of polls of one item each.
  after :
      TimeFilter fl ch × Option (Info fl ch) × List (Item fl ch)
      → List (Item fl ch)
      → TimeFilter fl ch × Option (Info fl ch) × List (Item fl ch)
  unfolding poll_next
  after (f, none, rest) items = poll_next fl ch f items
  after (f, some t, rest) items = (f, some t, items)

  poll_next-cons :
      (f : TimeFilter fl ch) (x : Item fl ch) (items : List (Item fl ch))
      → poll_next fl ch f (x ∷ items) ≡ after (poll_next fl ch f (x ∷ [])) items
  unfolding poll_next after
  poll_next-cons f lagged items = refl
  poll_next-cons f (tick t) items = elim (Bool-cases (changed fl ch f t)) [
    | inl e ↦ rw e refl
    | inr e ↦ rw e refl
  ]

  abbrev pub moved : Span → Info fl ch → Info fl ch → Bool
  moved s t u = differs fl ch s t.in_utc u.in_utc || differs fl ch s t.in_local u.in_local

  abbrev pub SameBoth : Span → Info fl ch → Info fl ch → Type 0
  SameBoth s t u = (z : Zone) → SameFrom fl ch s (time_in fl ch t z) (time_in fl ch u z)

  -- The clock does not move so far between two times that the field comes round to where it was.
  abbrev pub Steady : Span → List (Item fl ch) → Type 0
  Steady s [] = Unit {0}
  Steady s (tick t ∷ []) = Unit {0}
  Steady s (tick t ∷ tick u ∷ items) =
      (moved s t u ≡ false → SameBoth s t u) × Steady s (tick u ∷ items)
  Steady s (tick t ∷ lagged ∷ items) = Steady s items
  Steady s (lagged ∷ items) = Steady s items

  abbrev pub last_tick : Option (Info fl ch) → List (Item fl ch) → Option (Info fl ch)
  last_tick o [] = o
  last_tick o (tick t ∷ items) = last_tick (some t) items
  last_tick o (lagged ∷ items) = last_tick none items

  SameFrom-trans :
      (s : Span) (t u v : ch.DateTime)
      → SameFrom fl ch s t u
      → SameFrom fl ch s u v
      → SameFrom fl ch s t v
  SameFrom-trans s t u v h k = ground arith

  differs-SameFrom :
      (s : Span) (t u v : ch.DateTime)
      → SameFrom fl ch s t u
      → differs fl ch s u v ≡ differs fl ch s t v
  differs-SameFrom s t u v h = ground arith

  moved-SameBoth :
      (s : Span) (t u v : Info fl ch) → SameBoth s t u → moved s t v ≡ false → moved s u v ≡ false
  moved-SameBoth s t u v h m =
      rw
        (
          differs-SameFrom s t.in_utc u.in_utc v.in_utc (h utc),
          differs-SameFrom s t.in_local u.in_local v.in_local (h local),
        )
        m

  abbrev filter_at : Span → Option (Info fl ch) → TimeFilter fl ch
  filter_at s o = record { field = s; prev = o }

  mutual
    unfolding follow changed

    -- From a time of which the last tick differs in nothing that is watched.
    follow-some :
        (s : Span) (time l u : Info fl ch) (items : List (Item fl ch))
        → SameBoth s time l
        → Steady s (tick l ∷ items)
        → last_tick (some l) items ≡ some u
        → SameBoth s (follow (filter_at s (some time)) time items).1 u
    follow-some s time l u [] h st e = subst (SameBoth s time) (some-injective _ _ e) h
    follow-some s time l u (lagged ∷ items) h st e = follow-none s time u items st e
    follow-some s time l u (tick t ∷ items) h st e = elim (Bool-cases (moved s time t)) [
      | inl m ↦ rw (m, follow) (follow-some s t t u items (λ z. SameFrom-refl fl ch s _) st.1 e)
      | inr m ↦
          rw (m, follow)
            (follow-some s time t u items
              (λ z. SameFrom-trans s _ _ _ (h z) (st.0 (moved-SameBoth s time l t h m) z)) st.1 e)
    ]

    follow-none :
        (s : Span) (time u : Info fl ch) (items : List (Item fl ch))
        → Steady s items
        → last_tick none items ≡ some u
        → SameBoth s (follow (filter_at s none) time items).1 u
    follow-none s time u [] st e = cc
    follow-none s time u (lagged ∷ items) st e = follow-none s time u items st e
    follow-none s time u (tick t ∷ items) st e =
        follow-some s t t u items (λ z. SameFrom-refl fl ch s _) st e

  -- The filter of a block covers what an expression uses.
  abbrev pub Covers : Span → Option Span → Type 0
  Covers s none = Unit {0}
  Covers s (some s') = rank s ≤ rank s'

  -- From any time that the block has, it ends with one that agrees with the last tick.
  pub follow-Agree :
      (inp : List (Option (Value F))) (s : Span) (sun sun' : Option (Solar F)) (time u : Info fl ch)
      → (items : List (Item fl ch)) (o : Option Span) → Covers s o
      → Steady s items
      → last_tick none items ≡ some u
      → Agree fl ch inp inp (follow (time_filter fl ch s) time items).1 u sun sun' o
  unfolding time_filter
  follow-Agree inp s sun sun' time u items none c st l = tt
  follow-Agree inp s sun sun' time u items (some s') c st l =
      λ z. SameFrom-longer fl ch s s' _ _ c (follow-none s time u items st l z)
