-- ===== src/Settings/Validated.antt =====
-- What settings that pass `Settings::validate` are like.
use girasolbot.Prelude.{
  ℕ, ◌+◌, ◌≡◌, refl, Bool, true, false, Option, none, some, List, [], ◌∷◌, arith, All, length, ◌≤◌,
}
use girasolbot.Float.{Float}
use girasolbot.Settings.{
  Settings, Level, Invalid, check_levels, bad_tp, bad_sl, validate, validate_levels, first_error,
  refuse_if, checks, Checked, no_tp_level, too_many_tp_levels, tp_sum, no_sl_level,
  too_many_sl_levels, sl_sum, tp_trigger, tp_sell, sl_trigger, sl_sell, max_holded_coins,
}

module _ (F : Float) where
  open F use {F64, of_u64, fadd, fle, flt}

  abbrev pub IsGood : (F64 → Bool) → Level F → Type 0
  IsGood bad l =
      (bad l.trigger_percent ≡ false)
      × (fle l.sell_percent (of_u64 0) ≡ false)
      × (flt (of_u64 100) l.sell_percent ≡ false)

  check_levels-IsGood :
      (bad : F64 → Bool) (on_trigger on_sell : ℕ → Invalid) (i : ℕ) (levels : List (Level F))
      (sum : F64)
      → (check_levels F bad on_trigger on_sell i levels sum).0 ≡ none
      → All (IsGood bad) levels
  unfolding check_levels
  check_levels-IsGood bad a b i [] sum e = tt
  check_levels-IsGood bad a b i (l ∷ rest) sum e =
      ground (arith, check_levels-IsGood bad a b (i + 1) rest (fadd sum l.sell_percent))

  validate_levels-none : (c : Checked F) (e : Invalid) → validate_levels F c e ≡ none → c.0 ≡ none
  unfolding validate_levels
  validate_levels-none (none, sum) e h = refl
  validate_levels-none (some x, sum) e h = cc

  first_error-none :
      (checks : List (Option Invalid)) → first_error F checks ≡ none → All (λ c. c ≡ none) checks
  unfolding first_error
  first_error-none [] h = tt
  first_error-none (none ∷ rest) h = (refl, first_error-none rest h)
  first_error-none (some e ∷ rest) h = cc

  refuse_if-none : (b : Bool) (e : Invalid) → refuse_if F b e ≡ none → b ≡ false
  unfolding refuse_if
  refuse_if-none false e h = refl
  refuse_if-none true e h = cc

  pub record IsValidated (s : Settings F) : Type 0 where
    pub tp : All (IsGood (bad_tp F)) s.tp_levels
    pub sl : All (IsGood (bad_sl F)) s.sl_levels
    pub tp_count : (1 ≤ length s.tp_levels) × (length s.tp_levels ≤ 4)
    pub sl_count : (1 ≤ length s.sl_levels) × (length s.sl_levels ≤ 4)
    pub positions : 1 ≤ s.max_holded_coins

  -- Settings that pass have one to four levels of each kind; every take-profit trigger is not `≤ 0`,
  -- every stop-loss trigger not `≥ 0`, every level sells more than 0 and at most 100 percent, and
  -- at least one position may be held.
  pub validate-IsValidated :
      (s : Settings F) (p k u : Bool) → validate F s p k u ≡ none → IsValidated s
  unfolding validate
  validate-IsValidated s p k u h =
      let c = first_error-none (checks F s p k u) h in
      record {
        tp =
            check_levels-IsGood (bad_tp F) tp_trigger tp_sell 0 s.tp_levels (of_u64 0)
              (validate_levels-none _ tp_sum c.1.1.0);
        sl =
            check_levels-IsGood (bad_sl F) sl_trigger sl_sell 0 s.sl_levels (of_u64 0)
              (validate_levels-none _ sl_sum c.1.1.1.1.1.0);
        tp_count =
            ground
              (arith, refuse_if-none _ no_tp_level c.0, refuse_if-none _ too_many_tp_levels c.1.0);
        sl_count = ground (
          arith,
          refuse_if-none _ no_sl_level c.1.1.1.0,
          refuse_if-none _ too_many_sl_levels c.1.1.1.1.0,
        );
        positions = ground (arith, refuse_if-none _ max_holded_coins c.1.1.1.1.1.1.1.1.1.0);
      }
