-- ===== src/Logic/Node/Outputs.antt =====
-- What an output of a logic block sends to its device, `Output::send` of drmemd/src/logic.rs.
use drmem.Base.{◌≡◌, refl, Bool, true, false, Option, none, some, List, [], ◌∷◌}
use drmem.Base.{Bool-cases, inl, inr}
use mathlib.Core.Path.{subst}
use drmem.Api.Value.{Value, value_eq}
use drmem.Logic.Node.{
  Output, Answer, accepted, rejected, dropped, not_accepting, is_prev, answered, send,
}

module _ {F : Type 0} (feq : F → F → Bool) where
  abbrev add_sent :
      Option (Value F) → Answer F → List (Value F × Answer F) → List (Value F × Answer F)
  add_sent none a msgs = msgs
  add_sent (some v) a msgs = (v, a) ∷ msgs

  -- The settings that are tried, with their answers, where the block sends each of these values.
  unfoldable pub sent : Output F → List (Value F × Answer F) → List (Value F × Answer F)
  unfolding send
  sent o [] = []
  sent o ((v, a) ∷ wants) = let (o', msg, done) = send feq o v a in add_sent msg a (sent o' wants)

  abbrev last_accepted : Option (Value F) → Value F → Answer F → Option (Value F)
  last_accepted p v (accepted w) = some v
  last_accepted p v rejected = p
  last_accepted p v dropped = p
  last_accepted p v not_accepting = p

  answered-prev :
      (o : Output F) (v : Value F) (a : Answer F)
      → (answered feq o v a).0.prev ≡ last_accepted o.prev v a
  answered-prev o v (accepted w) = refl
  answered-prev o v rejected = refl
  answered-prev o v dropped = refl
  answered-prev o v not_accepting = refl

  -- No setting repeats the value that the device accepted last.
  abbrev pub NoRepeat : Option (Value F) → List (Value F × Answer F) → Type 0
  NoRepeat p [] = Unit {0}
  NoRepeat p ((v, a) ∷ msgs) = (is_prev feq p v ≡ false) × NoRepeat (last_accepted p v a) msgs

  -- Whatever values a block sends to an output and whatever the driver answers, no setting is
  -- tried whose value equals the one that was accepted last.
  pub sent-NoRepeat :
      (o : Output F) (wants : List (Value F × Answer F)) → NoRepeat o.prev (sent o wants)
  unfolding sent send
  sent-NoRepeat o [] = tt
  sent-NoRepeat o ((v, a) ∷ wants) = elim (Bool-cases (is_prev feq o.prev v)) [
    | inl e ↦ rw (e, sent, send) (sent-NoRepeat o wants)
    | inr e ↦
        rw (e, sent, send)
          (
            e,
            subst (λ p. NoRepeat p (sent (answered feq o v a).0 wants)) (answered-prev o v a)
                (sent-NoRepeat (answered feq o v a).0 wants),
          )
  ]

  -- The result is whether the value is now the one that was accepted last, if it equals itself.
  send-result :
      (o : Output F) (v : Value F) (a : Answer F)
      → value_eq feq v v ≡ true
      → is_prev feq (send feq o v a).0.prev v ≡ (send feq o v a).2
  unfolding send
  send-result o v a h = elim (Bool-cases (is_prev feq o.prev v)) [
    | inl e ↦ rw (e, send) e
    | inr e ↦ rw (e, send) (tried a e)
  ]
    where
      tried :
          (a : Answer F)
          → is_prev feq o.prev v ≡ false
          → is_prev feq (answered feq o v a).0.prev v ≡ (answered feq o v a).1
      tried (accepted w) e = h
      tried rejected e = e
      tried dropped e = e
      tried not_accepting e = e
