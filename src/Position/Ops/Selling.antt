-- ===== src/Position/Ops/Selling.antt =====
-- What `update_after_sell` of src/position_monitor.rs does to each key of the positions.

use girasolbot.Prelude.{
  ℕ, ◌-◌, ◌≡◌, refl, sym, ap, ◌∙◌, inl, inr, true, false, List, [], ◌∷◌, ◌++◌, eq_refl, Option,
  none, some, String, not, arith, str_eq, eq_iff, leb, ◌==◌, if◌then◌else◌, Option-cases, ◌≤◌, ◌<◌,
  Bool, ◌||◌, ◌&&◌, Bool-cases, ==→eq,
}
use girasolbot.Prelude.Dict
use girasolbot.Prelude.Dict.{Dict, get-insert, get-remove}
use girasolbot.Float.{Float}
use girasolbot.Position.State.{
  SellReason, take_profit, stop_loss, trailing_stop, rug_detected, mirror_sell, Holding,
  PositionMonitor,
}
use girasolbot.Position.Ops.{
  contains_index, push_level, mark_level, sold, settle, persist, update_after_sell, has_position,
}

module _ (F : Float) where
  -- The position that is left of a holding once `n` tokens are sold: none at 0.
  abbrev pub left_over : ℕ → SellReason F → ℕ → Holding F → Option (Holding F)
  left_over n why i h = if leb h.amount n then none else some (sold F n why i h)

  sold-amount :
      (n : ℕ) (why : SellReason F) (i : ℕ) (h : Holding F)
      → (sold F n why i h).amount ≡ h.amount - n
  unfolding sold mark_level
  sold-amount n (take_profit x) i h = refl
  sold-amount n (stop_loss x) i h = refl
  sold-amount n (trailing_stop x) i h = refl
  sold-amount n (rug_detected x) i h = refl
  sold-amount n mirror_sell i h = refl

  get-settle :
      (ps : Dict (Holding F)) (mint : String) (h : Holding F) (k : String)
      → Dict.get (settle F ps mint (some h)) k
        ≡ (if str_eq mint k then (if h.amount == 0 then none else some h) else Dict.get ps k)
  unfolding settle
  get-settle ps mint h k = ground (arith, get-remove ps mint k, get-insert ps mint k h)

  left_over_lem :
      (n : ℕ) (why : SellReason F) (i : ℕ) (h : Holding F)
      → (if (sold F n why i h).amount == 0 then none else some (sold F n why i h))
        ≡ left_over n why i h
  left_over_lem n why i h = ground (arith, sold-amount n why i h)

  get-settle-absent :
      (ps : Dict (Holding F)) (mint : String) (k : String)
      → Dict.get ps mint ≡ none
      → Dict.get (settle F ps mint none) k ≡ (if str_eq mint k then none else Dict.get ps k)
  unfolding settle
  get-settle-absent ps mint k e = ground (arith, eq_iff mint k)

  pub get-update_after_sell :
      (m : PositionMonitor F) (mint : String) (n : ℕ) (why : SellReason F) (i : ℕ) (k : String)
      → (Dict.get (update_after_sell F m mint n why i).positions k ≡ (
          if str_eq mint k
          then elim (Dict.get m.positions mint) [ none ↦ none | some h ↦ left_over n why i h ]
          else Dict.get m.positions k))
        × ((update_after_sell F m mint n why i).file
            ≡ (update_after_sell F m mint n why i).positions)
  unfolding update_after_sell settle persist
  get-update_after_sell m mint n why i k = elim (Option-cases (Dict.get m.positions mint)) [
    | inl e ↦ (rw e (get-settle-absent m.positions mint k e), refl)
    | inr (h, e) ↦
        (rw (e, ← left_over_lem n why i h) (get-settle m.positions mint (sold F n why i h) k), refl)
  ]

  -- A sale never opens a position.
  pub update_after_sell-opens_none :
      (m : PositionMonitor F) (mint : String) (n : ℕ) (why : SellReason F) (i : ℕ) (k : String)
      → has_position F m k ≡ false
      → has_position F (update_after_sell F m mint n why i) k ≡ false
  update_after_sell-opens_none m mint n why i k e =
      ground (arith, eq_iff mint k, (get-update_after_sell m mint n why i k).0)

  -- A sale removes the position exactly when it is of all that is held.
  pub has_position-update_after_sell :
      (m : PositionMonitor F) (mint : String) (n : ℕ) (why : SellReason F) (i : ℕ) (h : Holding F)
      → Dict.get m.positions mint ≡ some h
      → has_position F (update_after_sell F m mint n why i) mint ≡ not (leb h.amount n)
  has_position-update_after_sell m mint n why i h e =
      grind (arith, e, (get-update_after_sell m mint n why i mint).0, eq_refl mint)

  contains_index-snoc : (levels : List ℕ) (i : ℕ) → contains_index (levels ++ i ∷ []) i ≡ true
  contains_index-snoc [] i = ground arith
  contains_index-snoc (l ∷ levels) i = ground (arith, contains_index-snoc levels i)

  contains_index-push_level :
      (levels : List ℕ) (i : ℕ) → contains_index (push_level F levels i) i ≡ true
  unfolding push_level
  contains_index-push_level levels i = ground (arith, contains_index-snoc levels i)

  left_over-sold :
      (n : ℕ) (why : SellReason F) (i : ℕ) (o : Option (Holding F)) (h : Holding F)
      → (elim o [ none ↦ none | some x ↦ left_over n why i x ]) ≡ some h
      → (x : Holding F) × (h ≡ sold F n why i x)
  left_over-sold n why i none h e = cc
  left_over-sold n why i (some x) h e = (x, ground (arith, e))

  remains :
      (m : PositionMonitor F) (mint : String) (n : ℕ) (why : SellReason F) (i : ℕ) (h : Holding F)
      → Dict.get (update_after_sell F m mint n why i).positions mint ≡ some h
      → (elim (Dict.get m.positions mint) [ none ↦ none | some x ↦ left_over n why i x ]) ≡ some h
  remains m mint n why i h e =
      let after = (get-update_after_sell m mint n why i mint).0 in
      let own : (if str_eq mint mint
            then elim (Dict.get m.positions mint) [ none ↦ none | some x ↦ left_over n why i x ]
            else Dict.get m.positions mint)
          ≡ (elim (Dict.get m.positions mint) [ none ↦ none | some x ↦ left_over n why i x ]) =
        rw (eq_refl mint) refl in
      sym own ∙ sym after ∙ e

  -- What is left of a position after a take-profit or a stop-loss was sold lists its level among
  -- those that have fired.
  pub update_after_sell-lists_level :
      (m : PositionMonitor F) (mint : String) (n : ℕ) (pnl : F.F64) (i : ℕ) (h h' : Holding F)
      → Dict.get (update_after_sell F m mint n (take_profit pnl) i).positions mint ≡ some h
      → Dict.get (update_after_sell F m mint n (stop_loss pnl) i).positions mint ≡ some h'
      → (contains_index h.triggered_tp_levels i ≡ true)
        × (contains_index h'.triggered_sl_levels i ≡ true)
  unfolding sold mark_level
  update_after_sell-lists_level m mint n pnl i h h' e e' =
      let kept =
        left_over-sold n (take_profit pnl) i (Dict.get m.positions mint) h
          (remains m mint n (take_profit pnl) i h e) in
      let kept' =
        left_over-sold n (stop_loss pnl) i (Dict.get m.positions mint) h'
          (remains m mint n (stop_loss pnl) i h' e') in
      (
        rw kept.1 (contains_index-push_level kept.0.triggered_tp_levels i),
        rw kept'.1 (contains_index-push_level kept'.0.triggered_sl_levels i),
      )

  abbrev pub is_profit : SellReason F → Bool
  is_profit (take_profit _) = true
  is_profit _ = false

  abbrev pub is_loss : SellReason F → Bool
  is_loss (stop_loss _) = true
  is_loss _ = false

  -- What a sale of `n` tokens leaves of a position: nothing where that is all of it; else the rest of
  -- the tokens, with no sell in flight and with the level among those that have fired, and all else as
  -- it was.
  abbrev pub IsLeftOf : ℕ → SellReason F → ℕ → Option (Holding F) → Option (Holding F) → Type 0
  IsLeftOf n why i none after = after ≡ none
  IsLeftOf n why i (some h) none = h.amount ≤ n
  IsLeftOf n why i (some h) (some h') =
      (n < h.amount)
      × (h'.amount ≡ h.amount - n)
      × (h'.pending_sell ≡ false)
      × ((j : ℕ)
          → contains_index h'.triggered_tp_levels j
            ≡ (contains_index h.triggered_tp_levels j || is_profit why && i == j))
      × ((j : ℕ)
          → contains_index h'.triggered_sl_levels j
            ≡ (contains_index h.triggered_sl_levels j || is_loss why && i == j))
      × (record h' {
        amount = h.amount;
        pending_sell = h.pending_sell;
        triggered_tp_levels = h.triggered_tp_levels;
        triggered_sl_levels = h.triggered_sl_levels;
      }
          ≡ h)

  contains_index-append :
      (levels : List ℕ) (i j : ℕ)
      → contains_index (levels ++ i ∷ []) j ≡ (contains_index levels j || i == j)
  contains_index-append [] i j = ground arith
  contains_index-append (l ∷ levels) i j = ground (arith, contains_index-append levels i j)

  contains_index-eq :
      (levels : List ℕ) (i j : ℕ)
      → contains_index levels i ≡ true
      → contains_index levels j ≡ (contains_index levels j || i == j)
  contains_index-eq levels i j h = elim (Bool-cases (i == j)) [
    | inl same ↦ let here = ==→eq i j same in let there = rw here at h in ground arith
    | inr other ↦ ground arith
  ]

  contains_index-pushed :
      (levels : List ℕ) (i j : ℕ)
      → contains_index (push_level F levels i) j ≡ (contains_index levels j || i == j)
  unfolding push_level
  contains_index-pushed levels i j = elim (Bool-cases (contains_index levels i)) [
    | inl old ↦ rw old (contains_index-eq levels i j old)
    | inr new ↦ rw new (contains_index-append levels i j)
  ]

  sold-IsLeftOf :
      (n : ℕ) (why : SellReason F) (i : ℕ) (h : Holding F)
      → n < h.amount
      → IsLeftOf n why i (some h) (some (sold F n why i h))
  unfolding sold mark_level
  sold-IsLeftOf n (take_profit x) i h less =
      (less, refl, refl, contains_index-pushed h.triggered_tp_levels i, λ j. ground arith, refl)
  sold-IsLeftOf n (stop_loss x) i h less =
      (less, refl, refl, λ j. ground arith, contains_index-pushed h.triggered_sl_levels i, refl)
  sold-IsLeftOf n (trailing_stop x) i h less =
      (less, refl, refl, λ j. ground arith, λ j. ground arith, refl)
  sold-IsLeftOf n (rug_detected x) i h less =
      (less, refl, refl, λ j. ground arith, λ j. ground arith, refl)
  sold-IsLeftOf n mirror_sell i h less =
      (less, refl, refl, λ j. ground arith, λ j. ground arith, refl)

  left_over-IsLeftOf :
      (n : ℕ) (why : SellReason F) (i : ℕ) (before : Option (Holding F))
      → IsLeftOf n why i before (elim before [ none ↦ none | some h ↦ left_over n why i h ])
  left_over-IsLeftOf n why i none = refl
  left_over-IsLeftOf n why i (some h) = elim (Bool-cases (leb h.amount n)) [
    | inl all ↦ let le : h.amount ≤ n = ground arith in rw all le
    | inr some_left ↦ rw some_left (sold-IsLeftOf n why i h (ground arith))
  ]

  -- A completed sale leaves every other mint alone, and of the mint's own position: nothing, where all
  -- of it is sold or there was none; else the rest of the tokens, with the mark of a sell in flight
  -- taken off, with the level among those that have fired if it is a take-profit or a stop-loss, and
  -- all else unchanged. The file holds the same positions.
  pub update_after_sell-IsSale :
      (m : PositionMonitor F) (mint : String) (n : ℕ) (why : SellReason F) (i : ℕ) (k : String)
      → let after = update_after_sell F m mint n why i in
        IsLeftOf n why i (Dict.get m.positions mint) (Dict.get after.positions mint)
        × (Dict.get after.positions k
            ≡ (if str_eq mint k then Dict.get after.positions mint else Dict.get m.positions k))
        × (after.file ≡ after.positions)
  update_after_sell-IsSale m mint n why i k =
      let before = Dict.get m.positions mint in
      let after = update_after_sell F m mint n why i in
      let left : Option (Holding F) = elim before [ none ↦ none | some h ↦ left_over n why i h ] in
      let own : Dict.get after.positions mint ≡ left =
        (get-update_after_sell m mint n why i mint).0 ∙ rw (eq_refl mint) refl in
      let other = get-update_after_sell m mint n why i k in
      (
        rw own (left_over-IsLeftOf n why i before),
        other.0 ∙ ap (λ x. if str_eq mint k then x else Dict.get m.positions k) (sym own),
        other.1,
      )
