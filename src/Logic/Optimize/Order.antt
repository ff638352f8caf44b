-- ===== src/Logic/Optimize/Order.antt =====
-- How the outcomes of an expression and of its optimised form compare, and that the operators of
-- drmemd/src/logic/compile.rs respect this.
use drmem.Base.{◌≡◌, refl, true, ◌⊎◌, inl, inr, arith, ap, ◌∙◌}
use drmem.Base.Int.{ℤ, pos, IsI32, wrap_i32, wrap_i32_of_IsI32, ◌+ℤ◌}
use drmem.Api.Value.{Value, bool, int, flt, str, color}
use drmem.Logic.World.{Floats}
use drmem.Logic.Ops.{Outcome, value, undefined, panic, op_or, op_and, op_if, both}
use drmem.Logic.Ops.{op_coalesce, blend_next, op_blend, Blended, val_add}

-- The optimised form may only turn a panic into something else.
abbrev pub Keeps : {A : Type 0} → Outcome A → Outcome A → Type 0
Keeps o o' = (o ≡ panic) ⊎ (o ≡ o')

-- A Boolean, nothing, or a panic: no value of another type.
abbrev pub IsBoolish : {F : Type 0} → Outcome (Value F) → Type 0
IsBoolish (value (bool b)) = Unit {0}
IsBoolish (value _) = ⊥
IsBoolish _ = Unit {0}

-- An `i32`, nothing, or a panic.
abbrev pub IsIntish : {F : Type 0} → Outcome (Value F) → Type 0
IsIntish (value (int z)) = IsI32 z
IsIntish (value _) = ⊥
IsIntish _ = Unit {0}

+ℤ-zero_left : (z : ℤ) → pos 0 +ℤ z ≡ z
unfolding ◌+ℤ◌
+ℤ-zero_left z = ground arith

+ℤ-zero_right : (z : ℤ) → z +ℤ pos 0 ≡ z
unfolding ◌+ℤ◌
+ℤ-zero_right z = ground arith

module _ (fl : Floats) where
  open fl use {F}

  pub add-zero_left :
      (b : Outcome (Value F)) → IsIntish b → both fl (val_add fl) (value (int (pos 0))) b ≡ b
  unfolding val_add
  add-zero_left (value (int z)) h =
      ap (λ z. value (int z)) (ap wrap_i32 (+ℤ-zero_left z) ∙ wrap_i32_of_IsI32 z h)
  add-zero_left (value (bool z)) h = absurd h
  add-zero_left (value (flt z)) h = absurd h
  add-zero_left (value (str z)) h = absurd h
  add-zero_left (value (color z)) h = absurd h
  add-zero_left undefined h = refl
  add-zero_left panic h = refl

  pub add-zero_right :
      (a : Outcome (Value F)) → IsIntish a → both fl (val_add fl) a (value (int (pos 0))) ≡ a
  unfolding val_add
  add-zero_right (value (int z)) h =
      ap (λ z. value (int z)) (ap wrap_i32 (+ℤ-zero_right z) ∙ wrap_i32_of_IsI32 z h)
  add-zero_right (value (bool z)) h = absurd h
  add-zero_right (value (flt z)) h = absurd h
  add-zero_right (value (str z)) h = absurd h
  add-zero_right (value (color z)) h = absurd h
  add-zero_right undefined h = refl
  add-zero_right panic h = refl

  pub and-Keeps :
      (a a' b b' : Outcome (Value F))
      → Keeps a a'
      → Keeps b b'
      → Keeps (op_and fl a b) (op_and fl a' b')
  unfolding op_and
  and-Keeps (value (bool true)) a' b b' h k = ground arith
  and-Keeps _ a' b b' h k = ground arith

  pub or-Keeps :
      (a a' b b' : Outcome (Value F))
      → Keeps a a'
      → Keeps b b'
      → Keeps (op_or fl a b) (op_or fl a' b')
  unfolding op_or
  or-Keeps (value (bool true)) a' b b' h k = ground arith
  or-Keeps _ a' b b' h k = ground arith

  pub both-Keeps :
      (f : Value F → Value F → Outcome (Value F)) (a a' b b' : Outcome (Value F))
      → Keeps a a'
      → Keeps b b'
      → Keeps (both fl f a b) (both fl f a' b')
  both-Keeps f a a' b b' (inl h) k = rw h (inl refl)
  both-Keeps f panic a' b b' (inr h) k = inl refl
  both-Keeps f undefined a' b b' (inr h) k = rw (← h) (inr refl)
  both-Keeps f (value v) a' b b' (inr h) (inl k) = rw (← h, k) (inl refl)
  both-Keeps f (value v) a' b b' (inr h) (inr k) = rw (← h, k) (inr refl)

  pub if-Keeps :
      (a a' b b' c c' : Outcome (Value F))
      → Keeps a a'
      → Keeps b b'
      → Keeps c c'
      → Keeps (op_if fl a b c) (op_if fl a' b' c')
  unfolding op_if
  if-Keeps (value (bool true)) a' b b' c c' h k l = ground arith
  if-Keeps _ a' b b' c c' h k l = ground arith

  pub coalesce-Keeps :
      (a a' r r' : Outcome (Value F))
      → Keeps a a'
      → Keeps r r'
      → Keeps (op_coalesce fl a r) (op_coalesce fl a' r')
  unfolding op_coalesce
  coalesce-Keeps a a' r r' h k = ground arith

  pub blend_next-Keeps :
      (a a' : Outcome (Value F)) (r r' : Blended fl)
      → Keeps a a'
      → Keeps r r'
      → Keeps (blend_next fl a r) (blend_next fl a' r')
  unfolding blend_next
  blend_next-Keeps a a' r r' h (inl k) = rw k (inl refl)
  blend_next-Keeps a a' panic r' h (inr k) = inl refl
  blend_next-Keeps a a' undefined r' h (inr k) = rw (← k) (inr refl)
  blend_next-Keeps a a' (value v) r' (inl h) (inr k) = rw (← k, h) (inl refl)
  blend_next-Keeps a a' (value v) r' (inr h) (inr k) = rw (← k, h) (inr refl)

  pub op_blend-Keeps : (r r' : Blended fl) → Keeps r r' → Keeps (op_blend fl r) (op_blend fl r')
  unfolding op_blend
  op_blend-Keeps r r' (inl h) = rw h (inl refl)
  op_blend-Keeps r r' (inr h) = rw h (inr refl)
