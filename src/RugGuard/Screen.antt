-- ===== src/RugGuard/Screen.antt =====
-- The screens of src/rug_guard.rs, and its blacklist. A reason stands for the text of a decision.
pub mod Allowed
use girasolbot.Prelude.{
  ℕ, ◌%◌, Bool, true, false, not, ◌&&◌, Option, none, some, List, String, ltb, if◌then◌else◌,
  is_some, Pubkey, length,
}
use girasolbot.Float.{Float}
use girasolbot.Settings.{Settings}
use girasolbot.Position.Ops.{member}

pub record TokenSafetyReport : Type 0 where
  pub mint_authority : Option Pubkey
  pub freeze_authority : Option Pubkey
  pub is_mutable : Option Bool
  pub transfer_fee_bps : Option ℕ
  pub is_token_2022 : Bool
  pub decimals : ℕ
  pub supply : ℕ

pub data Reason : Type 0 where
  mint_authority_active freeze_authority_active metadata_mutable liquidity_unknown : Reason
  fee_above tokens_below price_above liquidity_below liquidity_above not_positive : Reason

pub data ScreenDecision : Type 0 where
  allow : ScreenDecision
  warn reject : Reason → ScreenDecision

abbrev pub unwrap_or : ℕ → Option ℕ → ℕ
unwrap_or d none = d
unwrap_or d (some n) = n

-- `report.is_mutable == Some(true)`
abbrev pub known_mutable : Option Bool → Bool
known_mutable none = false
known_mutable (some b) = b

module _ (F : Float) where
  open F use {F64, of_u64, flt, fle}

  -- The limit is cast to a u16.
  unfoldable pub evaluate_safety : TokenSafetyReport → Settings F → ScreenDecision
  evaluate_safety r s =
      if s.reject_mint_authority && is_some r.mint_authority
      then reject mint_authority_active
      else if s.reject_freeze_authority && is_some r.freeze_authority
      then reject freeze_authority_active
      else if known_mutable r.is_mutable && s.reject_mutable_metadata
      then reject metadata_mutable
      else if s.reject_transfer_fee
          && ltb (s.max_transfer_fee_bps % 65536) (unwrap_or 0 r.transfer_fee_bps)
      then reject fee_above
      else if known_mutable r.is_mutable
      then warn metadata_mutable
      else allow

  liquidity_gate : Settings F → Option F64 → ScreenDecision → ScreenDecision
  liquidity_gate s none later = later
  liquidity_gate s (some liquidity) later =
      if flt liquidity s.min_liquidity_sol
      then reject liquidity_below
      else if flt (of_u64 0) s.max_liquidity_sol && flt s.max_liquidity_sol liquidity
      then reject liquidity_above
      else later

  unfoldable pub check_safer_sniping_gates :
      F64 → ℕ → Option F64 → F64 → Settings F → ScreenDecision
  unfolding liquidity_gate
  check_safer_sniping_gates sol_amount token_amount liquidity_sol price s =
      let last =
        if fle sol_amount (of_u64 0)
        then reject not_positive
        else if is_some liquidity_sol
        then allow
        else warn liquidity_unknown in
      let gated = liquidity_gate s liquidity_sol last in
      if not s.enable_safer_sniping
      then allow
      else if ltb 0 s.min_tokens_threshold && ltb token_amount s.min_tokens_threshold
      then reject tokens_below
      else if flt (of_u64 0) s.max_sol_per_token && flt s.max_sol_per_token price
      then reject price_above
      else gated

-- The blacklist: its entries, and a reload with what reading the file returned, where a failure
-- keeps the entries.
unfoldable pub reload_from_file : List String → Option (List String) → List String
reload_from_file entries none = entries
reload_from_file entries (some fresh) = fresh

abbrev pub blacklisted : List String → String → Bool
blacklisted entries mint = member mint entries
