-- ===== src/RugGuard/Screen/Allowed.antt =====
-- When the screens of src/rug_guard.rs let a token pass.
use girasolbot.Prelude.{
  ℕ, ◌%◌, ◌≡◌, arith, Bool, true, false, not, ◌&&◌, ◌||◌, leb, Option, none, some, is_some,
}
use girasolbot.Float.{Float}
use girasolbot.Settings.{Settings}
use girasolbot.RugGuard.Screen.{
  TokenSafetyReport, ScreenDecision, allow, warn, reject, unwrap_or, known_mutable, evaluate_safety,
  liquidity_gate, check_safer_sniping_gates,
}

-- A token that is not rejected.
abbrev pub passes : ScreenDecision → Bool
passes allow = true
passes (warn r) = true
passes (reject r) = false

abbrev pub silent : ScreenDecision → Bool
silent allow = true
silent (warn r) = false
silent (reject r) = false

module _ (F : Float) where
  open F use {F64, of_u64, flt, fle}

  -- Every enabled check holds of a report; the limit of the fee is taken modulo 65536.
  abbrev pub is_safe : TokenSafetyReport → Settings F → Bool
  is_safe r s =
      (not s.reject_mint_authority || not (is_some r.mint_authority))
      && (not s.reject_freeze_authority || not (is_some r.freeze_authority))
      && (not s.reject_mutable_metadata || not (known_mutable r.is_mutable))
      && (not s.reject_transfer_fee
          || leb (unwrap_or 0 r.transfer_fee_bps) (s.max_transfer_fee_bps % 65536))

  -- `evaluate_safety` lets a token pass exactly when every enabled check holds, the fee being
  -- compared with the limit modulo 65536. A token that passes is allowed without a warning exactly
  -- when its metadata are not known to be mutable.
  pub evaluate_safety-passes :
      (r : TokenSafetyReport) (s : Settings F)
      → (passes (evaluate_safety F r s) ≡ is_safe r s)
        × (silent (evaluate_safety F r s) ≡ (is_safe r s && not (known_mutable r.is_mutable)))
  unfolding evaluate_safety
  evaluate_safety-passes r s = (ground arith, ground arith)

  abbrev pub within : Settings F → Option F64 → Bool
  within s none = true
  within s (some l) =
      not (flt l s.min_liquidity_sol)
      && not (flt (of_u64 0) s.max_liquidity_sol && flt s.max_liquidity_sol l)

  abbrev pub gates_hold : F64 → ℕ → Option F64 → F64 → Settings F → Bool
  gates_hold sol_amount tokens liquidity price s =
      not (fle sol_amount (of_u64 0))
      && leb s.min_tokens_threshold tokens
      && not (flt (of_u64 0) s.max_sol_per_token && flt s.max_sol_per_token price)
      && within s liquidity

  -- The gates let an amount pass exactly when they are disabled or all hold: the amount is positive,
  -- the tokens reach the minimum, the price stays under the maximum, if set, and a known liquidity
  -- is inside its bounds, the upper one if set. Without a warning it passes exactly when the gates
  -- are disabled or all hold of a known liquidity.
  pub check_safer_sniping_gates-passes :
      (sol_amount : F64) (tokens : ℕ) (liquidity : Option F64) (price : F64) (s : Settings F)
      → let d = check_safer_sniping_gates F sol_amount tokens liquidity price s in
        let hold = gates_hold sol_amount tokens liquidity price s in
        (passes d ≡ (not s.enable_safer_sniping || hold))
        × (silent d ≡ (not s.enable_safer_sniping || (hold && is_some liquidity)))
  unfolding check_safer_sniping_gates liquidity_gate
  check_safer_sniping_gates-passes sol_amount tokens none price s = (ground arith, ground arith)
  check_safer_sniping_gates-passes sol_amount tokens (some x) price s = (ground arith, ground arith)
