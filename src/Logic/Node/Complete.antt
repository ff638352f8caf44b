-- ===== src/Logic/Node/Complete.antt =====
-- Where every output of a logic block has one expression, each expression gets its own output.
use drmem.Base.{ℕ, zero, suc, ◌+◌, ◌≤◌, ◌<◌, ◌≡◌, refl, sym, ap, ◌∙◌, some}
use drmem.Base.{List, [], ◌∷◌, length, get_elem?, leb, inl, inr, arith}
use mathlib.Core.Path.{subst}
use mathlib.Core.List.Memᴰ
use mathlib.Core.List.{Memᴰ}
use mathlib.Core.Option.{some-injective}
use drmem.Logic.Node.{Program, create, insert, sort_by_target, pair_up}
use drmem.Logic.Node.Pairs.{
  rank, IsDistinct, Above, IsIncreasing, if-elim, rank-sort, sort-IsIncreasing,
}
use drmem.Logic.Node.Pairs.{sort-Mem, Above-Mem, get_elem?-rank, pair_up-rank}

module _ {F : Type 0} where
  abbrev pub AllBelow : ℕ → List (Program F) → Type 0
  AllBelow n [] = Unit {0}
  AllBelow n (p ∷ ps) = (p.target < n) × AllBelow n ps

  AllBelow-Mem :
      (n : ℕ) (p : Program F) (ps : List (Program F)) → AllBelow n ps → Memᴰ p ps → p.target < n
  AllBelow-Mem n p [] h m = absurd (Memᴰ.not-nil m)
  AllBelow-Mem n p (q ∷ qs) h m = elim (Memᴰ.cases_cons m) [
    | inl e ↦ subst (λ r. r.target < n) (sym e) h.0
    | inr k ↦ AllBelow-Mem n p qs h.1 k
  ]

  length-insert : (p : Program F) (ps : List (Program F)) → length (insert p ps) ≡ suc (length ps)
  length-insert p [] = refl
  length-insert p (q ∷ qs) =
      if-elim (λ l. length l ≡ suc (suc (length qs))) (leb p.target q.target) _ _ (λ e. refl)
        (λ e. ap suc (length-insert p qs))

  length-sort : (ps : List (Program F)) → length (sort_by_target ps) ≡ length ps
  unfolding sort_by_target
  length-sort [] = refl
  length-sort (p ∷ ps) = length-insert p (sort_by_target ps) ∙ ap suc (length-sort ps)

  insert-AllBelow :
      (n : ℕ) (p : Program F) (ps : List (Program F))
      → p.target < n
      → AllBelow n ps
      → AllBelow n (insert p ps)
  insert-AllBelow n p [] h k = (h, tt)
  insert-AllBelow n p (q ∷ qs) h k =
      if-elim (AllBelow n) (leb p.target q.target) _ _ (λ e. (h, k))
        (λ e. (k.0, insert-AllBelow n p qs h k.1))

  sort-AllBelow : (n : ℕ) (ps : List (Program F)) → AllBelow n ps → AllBelow n (sort_by_target ps)
  unfolding sort_by_target
  sort-AllBelow n [] h = tt
  sort-AllBelow n (p ∷ ps) h = insert-AllBelow n p (sort_by_target ps) h.0 (sort-AllBelow n ps h.1)

  -- Increasing targets between `t` and `u` are few.
  few :
      (t u : ℕ) (ps : List (Program F))
      → IsIncreasing ps
      → Above t ps
      → AllBelow u ps
      → t < u
      → t + length ps < u
  few t u [] i a b lt = omega (arith, lt)
  few t u (p ∷ ps) i a b lt = omega (arith, few p.target u ps i.1 i.0 b.1 b.0, a.0)

  -- As many increasing targets as there are places from `k` on stand each at its own.
  at_place :
      (k i : ℕ) (p : Program F) (ps : List (Program F))
      → IsIncreasing ps
      → ((q : Program F) → Memᴰ q ps → k ≤ q.target)
      → AllBelow (k + length ps) ps
      → get_elem? ps i ≡ some p
      → p.target ≡ k + i
  at_place k i p [] inc ge b h = cc
  at_place k zero p (q ∷ qs) inc ge b h =
      let lt = few q.target (k + suc (length qs)) qs inc.1 inc.0 b.1 b.0 in
      ap (λ r. r.target) (sym (some-injective _ _ h)) ∙ omega (arith, lt, ge q (Memᴰ.head refl))
  at_place k (suc i) p (q ∷ qs) inc ge b h =
      at_place (suc k) i p qs inc.1
        (λ r m. omega (arith, Above-Mem q.target r qs inc.0 m, ge q (Memᴰ.head refl)))
        (subst (λ n. AllBelow n qs) (omega arith) b.1) h
      ∙ omega arith

  rank_complete :
      (p : Program F) (exprs : List (Program F))
      → IsDistinct exprs
      → AllBelow (length exprs) exprs
      → Memᴰ p exprs
      → rank p.target exprs ≡ p.target
  rank_complete p exprs d b m =
      let inc = sort-IsIncreasing exprs d in
      let at = get_elem?-rank p (sort_by_target exprs) inc (sort-Mem p exprs m) in
      sym (rank-sort p.target exprs)
      ∙ sym (
          at_place 0 _ p (sort_by_target exprs) inc (λ q n. omega arith)
            (subst (λ n. AllBelow n (sort_by_target exprs)) (sym (length-sort exprs) ∙ omega arith)
              (sort-AllBelow (length exprs) exprs b))
            at
          ∙ omega arith)

  -- Where no two expressions have the same target and there are as many outputs as expressions,
  -- all targets being among them, each expression is paired with the output that is its target.
  pair_up_complete :
      (p : Program F) (exprs : List (Program F))
      → IsDistinct exprs
      → AllBelow (length exprs) exprs
      → Memᴰ p exprs
      → get_elem? (pair_up exprs (length exprs)) p.target ≡ some (p, create p.target)
  pair_up_complete p exprs d b m =
      let e = rank_complete p exprs d b m in
      subst (λ k. get_elem? (pair_up exprs (length exprs)) k ≡ some (p, create k)) e
        (pair_up-rank p exprs (length exprs) d m
          (omega (arith, e, AllBelow-Mem (length exprs) p exprs b m)))
