-- ===== src/Logic/Ops/Laws.antt =====
-- The Boolean operators of drmemd/src/logic/compile.rs as a three-valued logic.
use drmem.Base.{ℕ, ◌-◌, ◌≡◌, Bool, true, false, leb, if◌then◌else◌, arith}
use drmem.Api.Value.{Value, bool}
use drmem.Logic.World.{Floats}
use drmem.Logic.Ops.{Outcome, value, undefined, op_not, op_or, op_and}

-- False, unknown and true.
abbrev pub level : {F : Type 0} → Outcome (Value F) → ℕ
level (value (bool true)) = 2
level (value (bool false)) = 0
level _ = 1

abbrev pub largest : ℕ → ℕ → ℕ
largest a b = if leb a b then b else a

abbrev pub smallest : ℕ → ℕ → ℕ
smallest a b = if leb a b then a else b

-- A Boolean or nothing.
abbrev pub is_truth : {F : Type 0} → Outcome (Value F) → Bool
is_truth (value (bool b)) = true
is_truth undefined = true
is_truth _ = false

module _ (fl : Floats) where
  open fl use {F}

  -- On operands that are Booleans or undefined, the operators are those of Kleene's logic: `or`
  -- is the maximum of false, unknown and true, `and` the minimum, `not` the reversal, and each
  -- gives a Boolean or is undefined.
  pub op-level :
      (a b : Outcome (Value F))
      → is_truth a ≡ true
      → is_truth b ≡ true
      → (level (op_or fl a b) ≡ largest (level a) (level b))
        × (level (op_and fl a b) ≡ smallest (level a) (level b))
        × (level (op_not fl a) ≡ 2 - level a)
        × (is_truth (op_or fl a b) ≡ true)
        × (is_truth (op_and fl a b) ≡ true)
        × (is_truth (op_not fl a) ≡ true)
  unfolding op_or op_and op_not
  op-level a b h k = ground arith
