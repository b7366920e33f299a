-- ===== src/Float/Fixed.antt =====
-- A concrete instance of the interface, for tests: signed fixed-point numbers with twelve decimals.
use girasolbot.Prelude.{
  ℕ, ◌+◌, ◌-◌, ◌*◌, ◌/◌, ◌^◌, ◌≡◌, ◌⊎◌, Bool, true, arith, ltb, leb, if◌then◌else◌,
}
use girasolbot.Float.{Float, IsOrdered}

-- The value is `(up - down) / scale`.
pub record Fixed : Type 0 where
  pub up : ℕ
  pub down : ℕ

abbrev scale : ℕ
scale = 10 ^ 12

abbrev norm : ℕ → ℕ → Fixed
norm u d = record { up = u - d; down = d - u }

abbrev fixed_le : Fixed → Fixed → Bool
fixed_le a b = leb (a.up + b.down) (b.up + a.down)

abbrev fixed_lt : Fixed → Fixed → Bool
fixed_lt a b = ltb (a.up + b.down) (b.up + a.down)

abbrev quotient : ℕ → ℕ → ℕ
quotient a b = a * scale / b

abbrev pub fixed : Float
fixed = record {
  F64 = Fixed;
  of_u64 = λ n. norm (n * scale) 0;
  to_u64 = λ a. a.up / scale;
  fadd = λ a b. norm (a.up + b.up) (a.down + b.down);
  fsub = λ a b. norm (a.up + b.down) (a.down + b.up);
  fmul = λ a b.
      norm ((a.up * b.up + a.down * b.down) / scale) ((a.up * b.down + a.down * b.up) / scale);
  fdiv = λ a b.
      norm (quotient a.up b.up + quotient a.down b.down)
        (quotient a.up b.down + quotient a.down b.up);
  fmin = λ a b. if fixed_le a b then a else b;
  fmax = λ a b. if fixed_le a b then b else a;
  fneg = λ a. norm a.down a.up;
  round = λ a. norm ((a.up + scale / 2) / scale * scale) ((a.down + scale / 2) / scale * scale);
  epsilon = norm 0 0;
  flt = fixed_lt;
  fle = fixed_le;
}

fixed_le_trans : (a b c : Fixed) → fixed_le a b ≡ true → fixed_le b c ≡ true → fixed_le a c ≡ true
fixed_le_trans a b c h k = ground arith

fixed_le_self : (a b : Fixed) → fixed_le a b ≡ true → (fixed_le a a ≡ true) × (fixed_le b b ≡ true)
fixed_le_self a b h = (ground arith, ground arith)

fixed_le_total :
    (a b : Fixed)
    → fixed_le a a ≡ true
    → fixed_le b b ≡ true
    → (fixed_le a b ≡ true) ⊎ (fixed_le b a ≡ true)
fixed_le_total a b h k = ground arith

fixed_of_u64_self : (n : ℕ) → fixed_le (norm (n * scale) 0) (norm (n * scale) 0) ≡ true
fixed_of_u64_self n = ground arith

pub fixed-IsOrdered : IsOrdered fixed
fixed-IsOrdered = record {
  le_trans = fixed_le_trans;
  le_self = fixed_le_self;
  le_total = fixed_le_total;
  of_u64_self = fixed_of_u64_self;
}
