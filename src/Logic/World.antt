-- ===== src/Logic/World.antt =====
-- What the logic of drmemd/src/logic takes from other code: the arithmetic of `f64`, the accessors
-- of chrono's times, and the solar position. All of it is abstract.
use drmem.Base.{ℕ, Bool}
use drmem.Base.Int.{ℤ}
use drmem.Api.Value.{Rgba}

-- `f64`, the conversions to it, and the functions of compile.rs that compute in `f32`.
pub record Floats : Type 1 where
  pub F : Type 0
  pub feq : F → F → Bool
  pub flt_lt : F → F → Bool
  pub flt_le : F → F → Bool
  pub fadd : F → F → F
  pub fsub : F → F → F
  pub fmul : F → F → F
  pub fdiv : F → F → F
  pub frem : F → F → F
  pub of_i32 : ℤ → F
  -- `(alpha.clamp(0.0, 1.0) * 255.0) as u8`
  pub alpha_byte : F → ℕ
  pub rgba_brightness : Rgba → F
  pub kelvin_to_rgb : ℕ → ℕ → Rgba
  pub blend_temps : ℕ → ℕ → ℕ → ℕ → ℕ × ℕ
  pub blend_rgba : Rgba → Rgba → Rgba

-- `chrono::DateTime<Tz>` with `Datelike` and `Timelike`. `DateTime` is that of both zones.
pub record Chrono : Type 1 where
  pub DateTime : Type 0
  pub second_at : DateTime → ℕ
  pub minute_at : DateTime → ℕ
  pub hour_at : DateTime → ℕ
  pub day_at : DateTime → ℕ
  pub month_at : DateTime → ℕ
  pub year_at : DateTime → ℤ
  pub num_days_from_monday : DateTime → ℕ
  pub ordinal0 : DateTime → ℕ

-- `solar::Info`
pub record Solar (F : Type 0) : Type 0 where
  pub elevation_at : F
  pub azimuth_at : F
  pub right_ascension_at : F
  pub declination_at : F
