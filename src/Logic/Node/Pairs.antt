-- ===== src/Logic/Node/Pairs.antt =====
-- Which output each expression of a logic block gets: the sort and the `zip` at the end of
-- `Node::init` of drmemd/src/logic.rs.
use drmem.Base.{
  ℕ, zero, suc, ◌+◌, ◌≤◌, ◌<◌, ◌≡◌, ◌≢◌, ◌⊎◌, refl, sym, ap, ap₂, ◌∙◌, Bool, true, false, some,
}
use drmem.Base.{List, [], ◌∷◌, get_elem?, leb, ltb, if◌then◌else◌, inl, inr, arith, leb→le}
use mathlib.Core.Path.{subst}
use mathlib.Core.List.Memᴰ
use mathlib.Core.Option.{some-injective}
use mathlib.Core.List.{Memᴰ}
use drmem.Logic.Node.{Program, create, insert, sort_by_target, zip, channels, pair_up}
use drmem.Logic.Node.Defs.{NoTarget}

module _ {F : Type 0} where
  -- How many expressions have a smaller target.
  unfoldable pub rank : ℕ → List (Program F) → ℕ
  rank t [] = 0
  rank t (p ∷ ps) = (if ltb p.target t then 1 else 0) + rank t ps

  -- No two have the same target.
  abbrev pub IsDistinct : List (Program F) → Type 0
  IsDistinct [] = Unit {0}
  IsDistinct (p ∷ ps) = NoTarget p.target ps × IsDistinct ps

  abbrev pub Above : ℕ → List (Program F) → Type 0
  Above t [] = Unit {0}
  Above t (p ∷ ps) = (t < p.target) × Above t ps

  abbrev pub IsIncreasing : List (Program F) → Type 0
  IsIncreasing [] = Unit {0}
  IsIncreasing (p ∷ ps) = Above p.target ps × IsIncreasing ps

  pub if-elim :
      (P : List (Program F) → Type 0) (b : Bool) (x y : List (Program F))
      → (b ≡ true → P x)
      → (b ≡ false → P y)
      → P (if b then x else y)
  if-elim P true x y h k = h refl
  if-elim P false x y h k = k refl

  rank-insert :
      (t : ℕ) (p : Program F) (ps : List (Program F)) → rank t (insert p ps) ≡ rank t (p ∷ ps)
  unfolding rank
  rank-insert t p [] = refl
  rank-insert t p (q ∷ qs) =
      if-elim (λ l. rank t l ≡ rank t (p ∷ q ∷ qs)) (leb p.target q.target) _ _ (λ e. refl)
        (λ e. omega (arith, rank-insert t p qs))

  pub rank-sort : (t : ℕ) (ps : List (Program F)) → rank t (sort_by_target ps) ≡ rank t ps
  unfolding rank sort_by_target
  rank-sort t [] = refl
  rank-sort t (p ∷ ps) =
      rank-insert t p (sort_by_target ps)
      ∙ ap (λ n. (if ltb p.target t then 1 else 0) + n) (rank-sort t ps)

  insert-NoTarget :
      (j : ℕ) (p : Program F) (ps : List (Program F))
      → p.target ≢ j
      → NoTarget j ps
      → NoTarget j (insert p ps)
  insert-NoTarget j p [] h k = (h, tt)
  insert-NoTarget j p (q ∷ qs) h k =
      if-elim (NoTarget j) (leb p.target q.target) _ _ (λ e. (h, k))
        (λ e. (k.0, insert-NoTarget j p qs h k.1))

  sort-NoTarget : (j : ℕ) (ps : List (Program F)) → NoTarget j ps → NoTarget j (sort_by_target ps)
  unfolding sort_by_target
  sort-NoTarget j [] h = tt
  sort-NoTarget j (p ∷ ps) h = insert-NoTarget j p (sort_by_target ps) h.0 (sort-NoTarget j ps h.1)

  insert-Above :
      (t : ℕ) (p : Program F) (ps : List (Program F))
      → t < p.target
      → Above t ps
      → Above t (insert p ps)
  insert-Above t p [] h k = (h, tt)
  insert-Above t p (q ∷ qs) h k =
      if-elim (Above t) (leb p.target q.target) _ _ (λ e. (h, k))
        (λ e. (k.0, insert-Above t p qs h k.1))

  Above-below : (t u : ℕ) (ps : List (Program F)) → t < u → Above u ps → Above t ps
  Above-below t u [] h k = tt
  Above-below t u (p ∷ ps) h k = (omega (arith, k.0), Above-below t u ps h k.1)

  insert-IsIncreasing :
      (p : Program F) (ps : List (Program F))
      → NoTarget p.target ps
      → IsIncreasing ps
      → IsIncreasing (insert p ps)
  insert-IsIncreasing p [] h k = (tt, tt)
  insert-IsIncreasing p (q ∷ qs) h k =
      if-elim IsIncreasing (leb p.target q.target) _ _
        (λ e.
          let lt : p.target < q.target = omega (arith, leb→le p.target q.target e, h.0) in
          ((lt, Above-below p.target q.target qs lt k.0), k))
        (λ e.
          let gt : q.target < p.target = ground arith in
          (insert-Above q.target p qs gt k.0, insert-IsIncreasing p qs h.1 k.1))

  pub sort-IsIncreasing : (ps : List (Program F)) → IsDistinct ps → IsIncreasing (sort_by_target ps)
  unfolding sort_by_target
  sort-IsIncreasing [] h = tt
  sort-IsIncreasing (p ∷ ps) h =
      insert-IsIncreasing p (sort_by_target ps) (sort-NoTarget p.target ps h.0)
        (sort-IsIncreasing ps h.1)

  insert-Mem :
      (r p : Program F) (ps : List (Program F)) → (r ≡ p) ⊎ Memᴰ r ps → Memᴰ r (insert p ps)
  insert-Mem r p [] (inl e) = Memᴰ.head e
  insert-Mem r p [] (inr m) = absurd (Memᴰ.not-nil m)
  insert-Mem r p (q ∷ qs) o =
      if-elim (Memᴰ r) (leb p.target q.target) _ _ (λ e. front o)
        (λ e. behind o (insert-Mem r p qs))
    where
      front : (r ≡ p) ⊎ Memᴰ r (q ∷ qs) → Memᴰ r (p ∷ q ∷ qs)
      front (inl e) = Memᴰ.head e
      front (inr m) = Memᴰ.tail m

      behind :
          (r ≡ p) ⊎ Memᴰ r (q ∷ qs)
          → ((r ≡ p) ⊎ Memᴰ r qs → Memᴰ r (insert p qs))
          → Memᴰ r (q ∷ insert p qs)
      behind (inl e) f = Memᴰ.tail (f (inl e))
      behind (inr m) f = elim (Memᴰ.cases_cons m) [
        | inl e ↦ Memᴰ.head e
        | inr n ↦ Memᴰ.tail (f (inr n))
      ]

  pub sort-Mem : (r : Program F) (ps : List (Program F)) → Memᴰ r ps → Memᴰ r (sort_by_target ps)
  unfolding sort_by_target
  sort-Mem r [] m = m
  sort-Mem r (p ∷ ps) m = elim (Memᴰ.cases_cons m) [
    | inl e ↦ insert-Mem r p _ (inl e)
    | inr n ↦ insert-Mem r p _ (inr (sort-Mem r ps n))
  ]

  pub Above-Mem :
      (t : ℕ) (p : Program F) (ps : List (Program F)) → Above t ps → Memᴰ p ps → t < p.target
  Above-Mem t p [] h m = absurd (Memᴰ.not-nil m)
  Above-Mem t p (q ∷ qs) h m = elim (Memᴰ.cases_cons m) [
    | inl e ↦ subst (λ r. t < r.target) (sym e) h.0
    | inr n ↦ Above-Mem t p qs h.1 n
  ]

  rank-smaller :
      (t : ℕ) (p : Program F) (ps : List (Program F))
      → p.target < t
      → rank t (p ∷ ps) ≡ suc (rank t ps)
  unfolding rank
  rank-smaller t p ps h = ground arith

  rank-other :
      (t : ℕ) (p : Program F) (ps : List (Program F)) → t ≤ p.target → rank t (p ∷ ps) ≡ rank t ps
  unfolding rank
  rank-other t p ps h = ground arith

  rank-Above : (t : ℕ) (ps : List (Program F)) → Above t ps → rank t ps ≡ 0
  unfolding rank
  rank-Above t [] h = refl
  rank-Above t (p ∷ ps) h = rank-other t p ps (omega (arith, h.0)) ∙ rank-Above t ps h.1

  -- In increasing order an expression stands where its rank says.
  pub get_elem?-rank :
      (p : Program F) (ps : List (Program F))
      → IsIncreasing ps
      → Memᴰ p ps
      → get_elem? ps (rank p.target ps) ≡ some p
  get_elem?-rank p [] h m = absurd (Memᴰ.not-nil m)
  get_elem?-rank p (q ∷ qs) h m = elim (Memᴰ.cases_cons m) [
    | inl e ↦
        subst (λ r. get_elem? (q ∷ qs) (rank r.target (q ∷ qs)) ≡ some r) (sym e)
          (ap (get_elem? (q ∷ qs))
            (rank-other q.target q qs (omega arith) ∙ rank-Above q.target qs h.0))
    | inr n ↦
        ap (get_elem? (q ∷ qs)) (rank-smaller p.target q qs (Above-Mem q.target p qs h.0 n))
        ∙ get_elem?-rank p qs h.1 n
  ]

  zip-channels :
      (p : Program F) (ps : List (Program F)) (first n i : ℕ)
      → get_elem? ps i ≡ some p
      → i < n
      → get_elem? (zip ps (channels first n)) i ≡ some (p, create (first + i))
  unfolding zip channels
  zip-channels p [] first n i h lt = cc
  zip-channels p (q ∷ ps) first zero i h lt = absurd (omega (arith, lt))
  zip-channels p (q ∷ ps) first (suc n) zero h lt =
      ap₂ (λ r k. some (r, create k)) (some-injective _ _ h) (omega arith)
  zip-channels p (q ∷ ps) first (suc n) (suc i) h lt =
      zip-channels p ps (suc first) n i h (omega (arith, lt))
      ∙ ap (λ k. some (p, create k)) (omega arith)

  -- Where no two expressions have the same target, each is paired with the output whose number is
  -- the number of expressions with a smaller target, if there is such an output: not with its
  -- target, where a smaller output has no expression.
  pub pair_up-rank :
      (p : Program F) (exprs : List (Program F)) (outputs : ℕ)
      → IsDistinct exprs
      → Memᴰ p exprs
      → rank p.target exprs < outputs
      → get_elem? (pair_up exprs outputs) (rank p.target exprs)
        ≡ some (p, create (rank p.target exprs))
  unfolding pair_up
  pair_up-rank p exprs outputs d m lt =
      zip-channels p (sort_by_target exprs) 0 outputs (rank p.target exprs)
        (ap (get_elem? (sort_by_target exprs)) (sym (rank-sort p.target exprs))
          ∙ get_elem?-rank p (sort_by_target exprs) (sort-IsIncreasing exprs d)
              (sort-Mem p exprs m))
        lt
      ∙ ap (λ k. some (p, create k)) (omega arith)
