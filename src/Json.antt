-- ===== src/Json.antt =====
-- The values of serde_json and what the code reads of them, as an interface.
pub mod Tree
use girasolbot.Prelude.{ℕ, ◌^◌, ◌-◌, Bool, Option, List, String}

pub record Json : Type 1 where
  pub Value : Type 0
  -- `serde_json::from_str`
  pub from_str : String → Option Value
  -- `value.get("field")`
  pub get : Value → String → Option Value
  pub as_u64 : Value → Option ℕ
  pub as_str : Value → Option String
  pub as_array : Value → Option (List Value)
  pub is_null : Value → Bool
  pub is_string : Value → Bool
  pub is_object : Value → Bool

-- `u64::MAX`
abbrev pub u64_max : ℕ
u64_max = 2 ^ 64 - 1
