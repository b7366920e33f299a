-- ===== src/Float.antt =====
-- The `f64` arithmetic of Rust, as an interface. The code's theorems hold of every instance;
-- the few that rest on the order of the numbers take `IsOrdered`.
pub mod Fixed
use girasolbot.Prelude.{ℕ, ◌≡◌, ◌⊎◌, Bool, true}

pub record Float : Type 1 where
  pub F64 : Type 0
  -- `n as f64`, also for literals; `x as u64`.
  pub of_u64 : ℕ → F64
  pub to_u64 : F64 → ℕ
  pub fadd : F64 → F64 → F64
  pub fsub : F64 → F64 → F64
  pub fmul : F64 → F64 → F64
  pub fdiv : F64 → F64 → F64
  pub fmin : F64 → F64 → F64
  pub fmax : F64 → F64 → F64
  pub fneg : F64 → F64
  pub round : F64 → F64
  -- `f64::EPSILON`
  pub epsilon : F64
  pub flt : F64 → F64 → Bool
  pub fle : F64 → F64 → Bool

-- What IEEE 754 says of the order, NaN included: NaN is the one value that is not `≤` itself, no
-- integer converts to it, and the other values are ordered.
pub record IsOrdered (F : Float) : Type 0 where
  pub le_trans : (a b c : F.F64) → F.fle a b ≡ true → F.fle b c ≡ true → F.fle a c ≡ true
  pub le_self : (a b : F.F64) → F.fle a b ≡ true → (F.fle a a ≡ true) × (F.fle b b ≡ true)
  pub le_total :
      (a b : F.F64) → F.fle a a ≡ true → F.fle b b ≡ true → (F.fle a b ≡ true) ⊎ (F.fle b a ≡ true)
  pub of_u64_self : (n : ℕ) → F.fle (F.of_u64 n) (F.of_u64 n) ≡ true
