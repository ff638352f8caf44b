-- ===== src/Examples/World.antt =====
-- A concrete arithmetic and a concrete time for the runs of drmemd/src/logic. The arithmetic is
-- that of natural numbers.
use drmem.Base.{ℕ, ◌+◌, ◌-◌, ◌*◌, ◌/◌, ◌%◌, ◌==◌, ltb, leb, min}
use drmem.Base.Int.{pos, pos_part}
use drmem.Logic.World.{Floats, Chrono}
use drmem.Logic.Eval.{Info}

abbrev divide : ℕ → ℕ → ℕ
divide a b = a / b

abbrev remainder : ℕ → ℕ → ℕ
remainder a b = a % b

abbrev pub numbers : Floats
numbers = record {
  F = ℕ;
  feq = λ a b. a == b;
  flt_lt = ltb;
  flt_le = leb;
  fadd = λ a b. a + b;
  fsub = λ a b. a - b;
  fmul = λ a b. a * b;
  fdiv = divide;
  frem = remainder;
  of_i32 = pos_part;
  alpha_byte = λ a. min a 255;
  rgba_brightness = λ c. 0;
  kelvin_to_rgb = λ k a. record { red = 255; green = 255; blue = 255; alpha = a };
  blend_temps = λ k a l b. (k, a);
  blend_rgba = λ c d. c;
}

-- A time of day in seconds on June 9th, 2024, a Sunday.
abbrev pub clock : Chrono
clock = record {
  DateTime = ℕ;
  second_at = λ t. t % 60;
  minute_at = λ t. t / 60 % 60;
  hour_at = λ t. t / 3600;
  day_at = λ t. 9;
  month_at = λ t. 6;
  year_at = λ t. pos 2024;
  num_days_from_monday = λ t. 6;
  ordinal0 = λ t. 160;
}

abbrev pub at : ℕ → Info numbers clock
at t = record { in_utc = t; in_local = t }
