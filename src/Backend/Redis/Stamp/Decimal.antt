-- ===== src/Backend/Redis/Stamp/Decimal.antt =====
-- Numbers in decimal, which `{}` of `format!` and `parse::<u64>` stand for in
-- drmemd/src/backends/redis.rs.
use drmem.Base.{
  ℕ, zero, suc, ◌+◌, ◌-◌, ◌*◌, ◌/◌, ◌%◌, ◌^◌, ◌<◌, ◌≡◌, refl, Bool, true, false, ◌&&◌, [], ◌∷◌,
  Option, none, some, leb, ◌==◌, if◌then◌else◌, Bool-cases, inl, inr, arith, ◌∙◌, sym, ap,
}
use mathlib.Core.Path.{subst}
use drmem.Api.Value.{Text}

-- The digits of `n` before those in `out`, on fuel.
unfoldable digits : ℕ → ℕ → Text → Text
digits zero n out = out
digits (suc fuel) n out =
    let more = digits fuel (n / 10) ((b'0' + n % 10) ∷ out) in
    if n / 10 == 0 then (b'0' + n % 10) ∷ out else more

unfoldable pub print : ℕ → Text
unfolding digits
print n = digits (suc n) n []

abbrev is_digit : ℕ → Bool
is_digit c = leb b'0' c && leb c b'9'

-- `checked_mul` by ten and `checked_add` of the digit, which fail beyond `u64`.
unfoldable scan : ℕ → Text → Option ℕ
scan n [] = some n
scan n (c ∷ s) =
    let m = n * 10 + (c - b'0') in
    let rest = scan m s in if is_digit c && leb m (2 ^ 64 - 1) then rest else none

abbrev parse_digits : Text → Option ℕ
unfolding scan
parse_digits [] = none
parse_digits s = scan 0 s

-- One `+` may come first.
unfoldable pub parse_u64 : Text → Option ℕ
unfolding parse_digits
parse_u64 [] = none
parse_u64 (c ∷ s) = if c == b'+' then parse_digits s else parse_digits (c ∷ s)

abbrev pub AllDigits : Text → Type 0
AllDigits [] = Unit {0}
AllDigits (c ∷ s) = (is_digit c ≡ true) × AllDigits s

-- One or more digits.
abbrev pub Numeral : Text → Type 0
Numeral t = (c : ℕ) × (s : Text) × (t ≡ c ∷ s) × AllDigits (c ∷ s)

digit : (n : ℕ) → is_digit (b'0' + n % 10) ≡ true
digit n = ground arith

digits-Numeral :
    (fuel n c : ℕ) (out : Text) → AllDigits (c ∷ out) → Numeral (digits fuel n (c ∷ out))
unfolding digits
digits-Numeral zero n c out h = (c, out, refl, h)
digits-Numeral (suc fuel) n c out h = elim (Bool-cases (n / 10 == 0)) [
  | inl e ↦ rw e (b'0' + n % 10, c ∷ out, refl, (digit n, h))
  | inr e ↦ rw e (digits-Numeral fuel (n / 10) (b'0' + n % 10) (c ∷ out) (digit n, h))
]

pub print-Numeral : (n : ℕ) → Numeral (print n)
unfolding print digits
print-Numeral n = elim (Bool-cases (n / 10 == 0)) [
  | inl e ↦ rw e (b'0' + n % 10, [], refl, (digit n, tt))
  | inr e ↦ rw e (digits-Numeral n (n / 10) (b'0' + n % 10) [] (digit n, tt))
]

-- Reading the last digit of `n` behind the digits before it gives `n`.
scan_last : (n : ℕ) (out : Text) → n < 2 ^ 64 → scan (n / 10) ((b'0' + n % 10) ∷ out) ≡ scan n out
unfolding scan
scan_last n out h =
    let e : n / 10 * 10 + (b'0' + n % 10 - b'0') ≡ n = omega arith in
    let d : is_digit (b'0' + n % 10) ≡ true = ground arith in
    let fits : leb n (2 ^ 64 - 1) ≡ true = ground arith in rw (e, d, fits) refl

scan-digits :
    (fuel n : ℕ) (out : Text) → n < fuel → n < 2 ^ 64 → scan 0 (digits fuel n out) ≡ scan n out
unfolding digits
scan-digits zero n out lt h = absurd (omega arith)
scan-digits (suc fuel) n out lt h = elim (Bool-cases (n / 10 == 0)) [
  | inl e ↦
      let z : n / 10 ≡ 0 = ground arith in
      rw e (ap (λ k. scan k ((b'0' + n % 10) ∷ out)) (sym z) ∙ scan_last n out h)
  | inr e ↦ rw e (
      scan-digits fuel (n / 10) ((b'0' + n % 10) ∷ out) (ground arith) (omega arith)
      ∙ scan_last n out h)
]

-- A number below 2 ^ 64 is read back from its print.
pub parse_u64-print : (n : ℕ) → n < 2 ^ 64 → parse_u64 (print n) ≡ some n
unfolding parse_u64 print parse_digits
parse_u64-print n h =
    let (c, s, e, d) = print-Numeral n in
    let no_plus : (c == b'+') ≡ false = ground arith in
    let all : scan 0 (c ∷ s) ≡ some n =
      ap (scan 0) (sym e) ∙ scan-digits (suc n) n [] (omega arith) h in
    subst (λ t. parse_u64 t ≡ some n) (sym e) (rw no_plus all)
