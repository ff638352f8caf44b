-- ===== src/Logic/Ops.antt =====
-- The operators of logic expressions on values, drmemd/src/logic/compile.rs.
pub mod Laws
use drmem.Base.{ℕ, suc, ◌/◌, ◌%◌, ◌^◌, Bool, true, false, not, ◌&&◌, ◌||◌, Option}
use drmem.Base.{none, some, [], ◌∷◌, ◌==◌, ltb, if◌then◌else◌}
use drmem.Base.Int.{
  ℤ, pos, negsuc, pos_part, sub_ℕ, ◌+ℤ◌, ◌-ℤ◌, ◌*ℤ◌, ltb_ℤ, leb_ℤ, eqb_ℤ, wrap_i32,
}
use drmem.Api.Value.{Text, ColorType, rgba, ccta, Value, bool, int, flt, str, color}
use drmem.Api.Value.{eqb_bool, eqb_text}
use drmem.Logic.World.{Floats}

-- What an evaluation gives: `Some`, `None`, or a panic.
pub data Outcome (A : Type 0) : Type 0 where
  value : A → Outcome A
  undefined : Outcome A
  panic : Outcome A

-- The operator `?`.
infixl 5 ◌>>=◌
abbrev pub ◌>>=◌ : {A B : Type 0} → Outcome A → (A → Outcome B) → Outcome B
value a >>= f = f a
undefined >>= f = undefined
panic >>= f = panic

-- `a < b` on strings compares bytes, whose order in UTF-8 is that of the code points.
abbrev pub ltb_text : Text → Text → Bool
ltb_text [] [] = false
ltb_text [] (b ∷ t) = true
ltb_text (a ∷ s) [] = false
ltb_text (a ∷ s) (b ∷ t) = ltb a b || (a == b && ltb_text s t)

-- Division of `i32` rounds towards zero. The one quotient out of range is a panic.
abbrev tdiv : ℤ → ℤ → ℤ
tdiv (pos a) (pos b) = pos (a / b)
tdiv (pos a) (negsuc b) = sub_ℕ 0 (a / suc b)
tdiv (negsuc a) (pos b) = sub_ℕ 0 (suc a / b)
tdiv (negsuc a) (negsuc b) = pos (suc a / suc b)

abbrev trem_pos : ℤ → ℕ → ℤ
trem_pos (pos a) b = pos (a % b)
trem_pos (negsuc a) b = sub_ℕ 0 (suc a % b)

abbrev bit : Bool → ℤ
bit true = pos 1
bit false = pos 0

module _ (fl : Floats) where
  open fl use {
    F, feq, flt_lt, flt_le, fadd, fsub, fmul, fdiv, frem, of_i32, alpha_byte, rgba_brightness,
    kelvin_to_rgb, blend_temps, blend_rgba,
  }

  abbrev V : Type 0
  V = Outcome (Value F)

  abbrev truth : Bool → V
  truth b = value (bool b)

  abbrev zero_f : F
  zero_f = of_i32 (pos 0)

  unfoldable pub op_not : V → V
  op_not (value (bool b)) = value (bool (not b))
  op_not panic = panic
  op_not _ = undefined

  -- The second argument is evaluated only where the first one does not decide.
  abbrev only_bool : V → V
  only_bool (value (bool b)) = value (bool b)
  only_bool panic = panic
  only_bool _ = undefined

  abbrev only_true : V → V
  only_true (value (bool true)) = value (bool true)
  only_true panic = panic
  only_true _ = undefined

  abbrev only_false : V → V
  only_false (value (bool false)) = value (bool false)
  only_false panic = panic
  only_false _ = undefined

  unfoldable pub op_or : V → V → V
  op_or (value (bool true)) b = value (bool true)
  op_or (value (bool false)) b = only_bool b
  op_or (value v) b = undefined
  op_or undefined b = only_true b
  op_or panic b = panic

  unfoldable pub op_and : V → V → V
  op_and (value (bool false)) b = value (bool false)
  op_and (value (bool true)) b = only_bool b
  op_and (value v) b = undefined
  op_and undefined b = only_false b
  op_and panic b = panic

  unfoldable pub val_eq : Value F → Value F → V
  val_eq (bool a) (bool b) = truth (eqb_bool a b)
  val_eq (int a) (int b) = truth (eqb_ℤ a b)
  val_eq (flt a) (flt b) = truth (feq a b)
  val_eq (int a) (flt b) = truth (feq (of_i32 a) b)
  val_eq (flt a) (int b) = truth (feq a (of_i32 b))
  val_eq (str a) (str b) = truth (eqb_text a b)
  val_eq _ _ = undefined

  unfoldable pub val_lt : Value F → Value F → V
  val_lt (int a) (int b) = truth (ltb_ℤ a b)
  val_lt (flt a) (flt b) = truth (flt_lt a b)
  val_lt (int a) (flt b) = truth (flt_lt (of_i32 a) b)
  val_lt (flt a) (int b) = truth (flt_lt a (of_i32 b))
  val_lt (str a) (str b) = truth (ltb_text a b)
  val_lt _ _ = undefined

  unfoldable pub val_lt_eq : Value F → Value F → V
  val_lt_eq (int a) (int b) = truth (leb_ℤ a b)
  val_lt_eq (flt a) (flt b) = truth (flt_le a b)
  val_lt_eq (int a) (flt b) = truth (flt_le (of_i32 a) b)
  val_lt_eq (flt a) (int b) = truth (flt_le a (of_i32 b))
  val_lt_eq (str a) (str b) = truth (not (ltb_text b a))
  val_lt_eq _ _ = undefined

  -- The eight pairs of types that `+`, `-` and `*` take.
  abbrev arithmetic : (ℤ → ℤ → ℤ) → (F → F → F) → Value F → Value F → V
  arithmetic oi of (int a) (int b) = value (int (oi a b))
  arithmetic oi of (bool a) (int b) = value (int (oi (bit a) b))
  arithmetic oi of (int a) (bool b) = value (int (oi a (bit b)))
  arithmetic oi of (flt a) (flt b) = value (flt (of a b))
  arithmetic oi of (bool a) (flt b) = value (flt (of (of_i32 (bit a)) b))
  arithmetic oi of (flt a) (bool b) = value (flt (of a (of_i32 (bit b))))
  arithmetic oi of (int a) (flt b) = value (flt (of (of_i32 a) b))
  arithmetic oi of (flt a) (int b) = value (flt (of a (of_i32 b)))
  arithmetic oi of _ _ = undefined

  -- A release build wraps.
  unfoldable pub val_add : Value F → Value F → V
  unfolding wrap_i32 ◌+ℤ◌
  val_add = arithmetic (λ a b. wrap_i32 (a +ℤ b)) fadd

  unfoldable pub val_sub : Value F → Value F → V
  unfolding wrap_i32 ◌-ℤ◌
  val_sub = arithmetic (λ a b. wrap_i32 (a -ℤ b)) fsub

  unfoldable pub val_mul : Value F → Value F → V
  unfolding wrap_i32 ◌*ℤ◌
  val_mul = arithmetic (λ a b. wrap_i32 (a *ℤ b)) fmul

  abbrev checked : ℤ → V
  checked q = if ltb (pos_part q) (2 ^ 31) then value (int q) else panic

  unfoldable pub val_div : Value F → Value F → V
  val_div (int a) (int b) = if eqb_ℤ b (pos 0) then undefined else checked (tdiv a b)
  val_div (flt a) (flt b) = if feq b zero_f then undefined else value (flt (fdiv a b))
  val_div (int a) (flt b) = if feq b zero_f then undefined else value (flt (fdiv (of_i32 a) b))
  val_div (flt a) (int b) = if eqb_ℤ b (pos 0) then undefined else value (flt (fdiv a (of_i32 b)))
  val_div _ _ = undefined

  unfoldable pub val_rem : Value F → Value F → V
  val_rem (int a) (int (pos (suc b))) = value (int (trem_pos a (suc b)))
  val_rem (flt a) (flt b) = if flt_lt zero_f b then value (flt (frem a b)) else undefined
  val_rem (int a) (flt b) = if flt_lt zero_f b then value (flt (frem (of_i32 a) b)) else undefined
  val_rem (flt a) (int b) = if ltb_ℤ (pos 0) b then value (flt (frem a (of_i32 b))) else undefined
  val_rem _ _ = undefined

  -- Both arguments, the first one first, each under `?`.
  abbrev pub both : (Value F → Value F → V) → V → V → V
  both f a b = do val_a ← a; val_b ← b; f val_a val_b

  abbrev set_alpha : ℕ → V → V
  set_alpha new (value (color (rgba c))) = value (color (rgba (record c { alpha = new })))
  set_alpha new (value (color (ccta k a))) = value (color (ccta k new))
  set_alpha new panic = panic
  set_alpha new _ = undefined

  -- The alpha is evaluated first.
  unfoldable pub op_with_alpha : V → V → V
  op_with_alpha a (value (flt x)) = set_alpha (alpha_byte x) a
  op_with_alpha a panic = panic
  op_with_alpha a _ = undefined

  -- The byte `a as f64` of a temperature goes through `i32` here: a byte is exact in both.
  unfoldable pub op_brightness : V → V
  op_brightness (value (color (rgba c))) = value (flt (rgba_brightness c))
  op_brightness (value (color (ccta k a))) = value (flt (of_i32 (pos a)))
  op_brightness panic = panic
  op_brightness _ = undefined

  -- A branch is a value of its own: only the chosen one is evaluated.
  unfoldable pub op_if : V → V → V → V
  op_if (value (bool true)) b c = b
  op_if (value (bool false)) b c = c
  op_if panic b c = panic
  op_if _ b c = undefined

  unfoldable pub op_coalesce : V → V → V
  op_coalesce (value v) rest = value v
  op_coalesce undefined rest = rest
  op_coalesce panic rest = panic

  -- `BlendAccumulator`; `value none` is `BlendAccumulator::None`.
  abbrev pub Blended : Type 0
  Blended = Outcome (Option ColorType)

  abbrev over : Option ColorType → ColorType → ColorType
  over none c = c
  over (some (ccta bottom_k bottom_a)) (ccta top_k top_a) =
      let (k, a) = blend_temps top_k top_a bottom_k bottom_a in ccta k a
  over (some (ccta k a)) (rgba top) = rgba (blend_rgba top (kelvin_to_rgb k a))
  over (some (rgba bottom)) (ccta top_k top_a) =
      rgba (blend_rgba (kelvin_to_rgb top_k top_a) bottom)
  over (some (rgba bottom)) (rgba top) = rgba (blend_rgba top bottom)

  abbrev blend_onto : Option ColorType → V → Blended
  blend_onto acc (value (color c)) = value (some (over acc c))
  blend_onto acc undefined = value acc
  blend_onto acc panic = panic
  blend_onto acc (value v) = undefined

  -- A round of the loop, which runs from the last expression to the first.
  unfoldable pub blend_next : V → Blended → Blended
  blend_next v acc = acc >>= λ bottom. blend_onto bottom v

  abbrev blended : Option ColorType → V
  blended none = value (color (rgba (record { red = 0; green = 0; blue = 0; alpha = 0 })))
  blended (some c) = value (color c)

  unfoldable pub op_blend : Blended → V
  op_blend acc = acc >>= blended
