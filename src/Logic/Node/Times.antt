-- ===== src/Logic/Node/Times.antt =====
-- A logic block waits for all the time and solar events that its expressions depend on: `needs_time`
-- and `needs_solar` of `Node::init` in drmemd/src/logic.rs, with the filter of drmemd/src/logic/tod.rs.
use drmem.Base.{◌≡◌, refl, sym, Bool, true, false, Option, none, some, List, [], ◌∷◌}
use drmem.Base.{inl, inr, arith}
use mathlib.Core.Path.{subst}
use mathlib.Core.List.Memᴰ
use mathlib.Core.List.{Memᴰ}
use drmem.Api.Value.{Value}
use drmem.Logic.Expr.{Span, sooner, uses_time, uses_solar}
use drmem.Logic.World.{Floats, Chrono, Solar}
use drmem.Logic.Eval.{Info, eval}
use drmem.Logic.Reactive.{Agree, SameSun, eval-same, rank-min_span, or_left, or_right}
use drmem.Logic.Filter.{Item, time_filter}
use drmem.Logic.Filter.Laws.{follow, Steady, last_tick, Covers, follow-Agree}
use drmem.Logic.Node.{Program, needs_time, needs_solar}

module _ (fl : Floats) (ch : Chrono) where
  open fl use {F}

  abbrev AllCover : Option Span → Option Span → Type 0
  AllCover none none = Unit {0}
  AllCover none (some s) = ⊥
  AllCover (some s) o = Covers fl ch s o

  sooner-left : (o o' : Option Span) → AllCover (sooner o o') o
  unfolding sooner
  sooner-left none none = tt
  sooner-left none (some s) = tt
  sooner-left (some s) none = omega arith
  sooner-left (some s) (some s') = (rank-min_span s s').0

  sooner-right : (o o' c : Option Span) → AllCover o' c → AllCover (sooner o o') c
  unfolding sooner
  sooner-right none o' c h = h
  sooner-right (some s) none none h = tt
  sooner-right (some s) none (some c) h = absurd h
  sooner-right (some s) (some s') none h = tt
  sooner-right (some s) (some s') (some c) h = omega (arith, (rank-min_span s s').1, h)

  needs_time-AllCover :
      (p : Program F) (ps : List (Program F))
      → Memᴰ p ps
      → AllCover (needs_time ps) (uses_time p.expr)
  unfolding needs_time
  needs_time-AllCover p [] m = absurd (Memᴰ.not-nil m)
  needs_time-AllCover p (q ∷ qs) m = elim (Memᴰ.cases_cons m) [
    | inl e ↦
        subst (λ r. AllCover (sooner (uses_time q.expr) (needs_time qs)) (uses_time r.expr)) (sym e)
          (sooner-left (uses_time q.expr) (needs_time qs))
    | inr k ↦ sooner-right (uses_time q.expr) (needs_time qs) _ (needs_time-AllCover p qs k)
  ]

  needs_solar-Mem :
      (p : Program F) (ps : List (Program F))
      → Memᴰ p ps
      → uses_solar p.expr ≡ true
      → needs_solar ps ≡ true
  unfolding needs_solar
  needs_solar-Mem p [] m h = absurd (Memᴰ.not-nil m)
  needs_solar-Mem p (q ∷ qs) m h = elim (Memᴰ.cases_cons m) [
    | inl e ↦
        or_left (uses_solar q.expr) (needs_solar qs) (subst (λ r. uses_solar r.expr ≡ true) e h)
    | inr k ↦ or_right (uses_solar q.expr) (needs_solar qs) (needs_solar-Mem p qs k h)
  ]

  -- The time that a block has after these items: it keeps its first where it does not wait for any.
  abbrev pub time_after : Option Span → Info fl ch → List (Item fl ch) → Info fl ch
  time_after none time items = time
  time_after (some s) time items = (follow fl ch (time_filter fl ch s) time items).1

  abbrev pub solar_after : Bool → Option (Solar F) → Option (Solar F)
  solar_after true sun = sun
  solar_after false sun = none

  abbrev pub IsSteady : Option Span → List (Item fl ch) → Type 0
  IsSteady none items = Unit {0}
  IsSteady (some s) items = Steady fl ch s items

  time_after-Agree :
      (inp : List (Option (Value F))) (sun sun' : Option (Solar F)) (time u : Info fl ch)
      → (items : List (Item fl ch)) (w o : Option Span) → AllCover w o
      → IsSteady w items
      → last_tick fl ch none items ≡ some u
      → Agree fl ch inp inp (time_after w time items) u sun sun' o
  time_after-Agree inp sun sun' time u items none none c st l = tt
  time_after-Agree inp sun sun' time u items none (some s) c st l = absurd c
  time_after-Agree inp sun sun' time u items (some s) o c st l =
      follow-Agree fl ch inp s sun sun' time u items o c st l

  solar_after-SameSun :
      (inp : List (Option (Value F))) (t u : Info fl ch) (sun : Option (Solar F)) (w b : Bool)
      → (b ≡ true → w ≡ true)
      → SameSun fl ch inp inp t u (solar_after w sun) sun b
  solar_after-SameSun inp t u sun true b h = λ e. refl
  solar_after-SameSun inp t u sun false b h = λ e. let e' = h e in cc

  -- A block that follows the times of its filter, at the field that `needs_time` gives, and the
  -- sun if `needs_solar` is true, computes for each of its expressions what the last tick and the
  -- sun themselves give. The condition is that the last item is a tick, and that two ticks that
  -- follow each other agree from the watched field on if they agree in it.
  pub needs_time-eval :
      (p : Program F) (ps : List (Program F)) (inp : List (Option (Value F)))
      → (sun : Option (Solar F)) (time u : Info fl ch) (items : List (Item fl ch)) → Memᴰ p ps
      → IsSteady (needs_time ps) items
      → last_tick fl ch none items ≡ some u
      → eval fl ch inp
          (time_after (needs_time ps) time items)
          (solar_after (needs_solar ps) sun)
          p.expr
        ≡ eval fl ch inp u sun p.expr
  needs_time-eval p ps inp sun time u items m st l =
      eval-same fl ch inp inp (time_after (needs_time ps) time items) u
        (solar_after (needs_solar ps) sun) sun p.expr
        (time_after-Agree inp (solar_after (needs_solar ps) sun) sun time u items (needs_time ps)
          (uses_time p.expr) (needs_time-AllCover p ps m) st l)
        (solar_after-SameSun inp (time_after (needs_time ps) time items) u sun (needs_solar ps)
          (uses_solar p.expr) (needs_solar-Mem p ps m))
        (λ k r. refl)
