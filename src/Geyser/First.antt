-- ===== src/Geyser/First.antt =====
-- src/geyser_listener.rs: the scan of the instructions against the list of all that they are found
-- to be.
use girasolbot.Prelude.{
  ◌≡◌, refl, sym, ◌∙◌, Bool, true, false, Option, none, some, List, [], ◌∷◌, ◌++◌, take, filter_map,
  if◌then◌else◌, Bool-cases, inl, inr, arith,
}
use mathlib.Core.List.{append-nil}
use girasolbot.Float.{Float}
use girasolbot.CopyEngine.Fetch.{DetectedBuy, DetectedSell}
use girasolbot.Geyser.{Instruction, Scan, nothing_found, take_buy, take_sell, scan}

module _ (F : Float) where
  -- The first buy and the first sell of the list, the sell where there is a channel for it.
  abbrev pub first_of :
      Bool
      → (Instruction → Option (DetectedBuy F) × Option (DetectedSell F))
      → List Instruction
      → List (DetectedBuy F) × List (DetectedSell F)
  first_of mirrors check ixs = (
    take 1 (filter_map (λ ix. (check ix).0) ixs),
    (if mirrors then take 1 (filter_map (λ ix. (check ix).1) ixs) else []),
  )

  unless {ℓ} : {A : Type ℓ} → Bool → List A → List A
  unless found xs = if found then [] else xs

  sells_of {ℓ} : {A : Type ℓ} → Bool → List A → List A
  sells_of mirrors xs = if mirrors then take 1 xs else []

  take_sell-buys :
      (mirrors : Bool) (o : Option (DetectedSell F)) (s : Scan F)
      → ((take_sell F mirrors o s).buys ≡ s.buys)
        × ((take_sell F mirrors o s).found_buy ≡ s.found_buy)
  unfolding take_sell
  take_sell-buys mirrors none s = (refl, refl)
  take_sell-buys mirrors (some x) s = ground arith

  take_buy-sells :
      (o : Option (DetectedBuy F)) (s : Scan F)
      → ((take_buy F o s).sells ≡ s.sells) × ((take_buy F o s).found_sell ≡ s.found_sell)
  unfolding take_buy
  take_buy-sells none s = (refl, refl)
  take_buy-sells (some b) s = ground arith

  buys_step :
      (o : Option (DetectedBuy F)) (s : Scan F) (rest : List (DetectedBuy F))
      → ((take_buy F o s).buys ++ unless (take_buy F o s).found_buy (take 1 rest))
        ≡ s.buys ++ unless s.found_buy (take 1 (elim o [ some y ↦ y ∷ rest | none ↦ rest ]))
  unfolding take_buy unless
  buys_step none s rest = refl
  buys_step (some b) s rest = elim (Bool-cases s.found_buy) [
    | inl found ↦ rw found refl
    | inr fresh ↦ rw (fresh, append-nil (s.buys ++ b ∷ [])) refl
  ]

  sells_step :
      (mirrors : Bool) (o : Option (DetectedSell F)) (s : Scan F) (rest : List (DetectedSell F))
      → ((take_sell F mirrors o s).sells
          ++ unless (take_sell F mirrors o s).found_sell (sells_of mirrors rest))
        ≡ s.sells
          ++ unless s.found_sell (sells_of mirrors (elim o [ some y ↦ y ∷ rest | none ↦ rest ]))
  unfolding take_sell unless sells_of
  sells_step mirrors none s rest = refl
  sells_step true (some x) s rest = elim (Bool-cases s.found_sell) [
    | inl found ↦ rw found refl
    | inr fresh ↦ rw (fresh, append-nil (s.sells ++ x ∷ [])) refl
  ]
  sells_step false (some x) s rest = elim (Bool-cases s.found_sell) [
    | inl found ↦ rw found refl
    | inr fresh ↦ rw fresh refl
  ]

  nothing {ℓ} : {A : Type ℓ} → (mirrors : Bool) → ◌≡◌ {A = List A} (if mirrors then [] else []) []
  nothing true = refl
  nothing false = refl

  nil_step {ℓ} :
      {A : Type ℓ}
      → (xs : List A) (found : Bool) (none_left : List A) → none_left ≡ []
      → xs ≡ xs ++ unless found none_left
  unfolding unless
  nil_step xs true none_left h = sym (append-nil xs)
  nil_step xs false none_left h = rw h (sym (append-nil xs))

  scan-rest :
      (mirrors : Bool) (check : Instruction → Option (DetectedBuy F) × Option (DetectedSell F))
      (ixs : List Instruction) (s : Scan F)
      → ((scan F mirrors check ixs s).buys
          ≡ s.buys ++ unless s.found_buy (first_of mirrors check ixs).0)
        × ((scan F mirrors check ixs s).sells
            ≡ s.sells ++ unless s.found_sell (first_of mirrors check ixs).1)
  unfolding scan unless sells_of
  scan-rest mirrors check [] s =
      (nil_step s.buys s.found_buy [] refl, nil_step s.sells s.found_sell _ (nothing mirrors))
  scan-rest mirrors check (ix ∷ ixs) s =
      let bought = take_buy F (check ix).0 s in
      let next = take_sell F mirrors (check ix).1 bought in
      let kept_buys = take_sell-buys mirrors (check ix).1 bought in
      let kept_sells = take_buy-sells (check ix).0 s in
      let (buys, sells) = scan-rest mirrors check ixs next in
      (
        buys
            ∙ rw (kept_buys.0, kept_buys.1) refl
            ∙ buys_step (check ix).0 s (filter_map (λ i. (check i).0) ixs),
        sells
            ∙ sells_step mirrors (check ix).1 bought (filter_map (λ i. (check i).1) ixs)
            ∙ rw (kept_sells.0, kept_sells.1) refl,
      )

  -- From a scan in which nothing is found.
  pub scan-first :
      (mirrors : Bool) (check : Instruction → Option (DetectedBuy F) × Option (DetectedSell F))
      (ixs : List Instruction)
      → let s = scan F mirrors check ixs (nothing_found F) in
        (s.buys, s.sells) ≡ first_of mirrors check ixs
  unfolding unless
  scan-first mirrors check ixs =
      let (buys, sells) = scan-rest mirrors check ixs (nothing_found F) in rw (buys, sells) refl
