-- ===== src/Geyser/Stream/Single.antt =====
-- src/geyser_listener.rs: how many messages one update sends.
use girasolbot.Prelude.{
  ℕ, ◌≡◌, refl, ◌≤◌, Bool, true, false, ◌||◌, Option, none, some, List, [], ◌∷◌, String, Bytes,
  Pubkey, length, filter_map, length-take, if◌then◌else◌, Bool-cases, Option-cases, inl, inr, arith,
}
use girasolbot.Prelude.Options.{unwrap_or}
use mathlib.Core.Option
use girasolbot.Float.{Float}
use girasolbot.CopyEngine.Types.{
  DexType, pump_fun, pump_fun_amm, raydium_v4, raydium_cpmm, jupiter, unknown,
}
use girasolbot.CopyEngine.Fetch.{DetectedBuy, DetectedSell}
use girasolbot.Prelude.Dict.{Dict}
use girasolbot.Geyser.{
  ProgramIds, Instruction, SubscribeUpdateTransactionInfo, detect_dex, build_account_keys,
  message_of, find_target_index, find_program_index, every_instruction, sol_delta_of, nothing_found,
  scan,
}
use girasolbot.Geyser.Pump.{
  check_instruction, check_pumpswap_ix, parse_pump_from_proto, parse_pumpswap_from_proto,
}
use girasolbot.Geyser.First.{first_of, scan-first}
use girasolbot.Geyser.Swap.{
  first_swap, raydium_program_bytes, swap_between, parse_raydium_from_proto,
}
use girasolbot.Geyser.Stream.{
  SubscribeUpdate, sent_by, listed, signature_of, parse_as, on_transaction, on_update,
}

module _ (F : Float) where
  -- One buy at most, and one sell at most, which is sent only where there is a channel for it.
  unfoldable pub IsSingle : Bool → List (DetectedBuy F) × List (DetectedSell F) → Type 0
  IsSingle mirrors sent =
      (length sent.0 ≤ 1) × (length sent.1 ≤ 1) × (sent.1 ≡ (if mirrors then sent.1 else []))

  nothing-IsSingle : (mirrors : Bool) → IsSingle mirrors ([], [])
  unfolding IsSingle
  nothing-IsSingle true = (omega arith, omega arith, refl)
  nothing-IsSingle false = (omega arith, omega arith, refl)

  first_of-IsSingle :
      (mirrors : Bool) (check : Instruction → Option (DetectedBuy F) × Option (DetectedSell F))
      (ixs : List Instruction)
      → IsSingle mirrors (first_of F mirrors check ixs)
  unfolding IsSingle
  first_of-IsSingle true check ixs = (
    omega (arith, length-take 1 (filter_map (λ ix. (check ix).0) ixs)),
    omega (arith, length-take 1 (filter_map (λ ix. (check ix).1) ixs)),
    refl,
  )
  first_of-IsSingle false check ixs =
      (omega (arith, length-take 1 (filter_map (λ ix. (check ix).0) ixs)), omega arith, refl)

  scan-IsSingle :
      (mirrors : Bool) (check : Instruction → Option (DetectedBuy F) × Option (DetectedSell F))
      (ixs : List Instruction)
      → IsSingle mirrors (sent_by (scan F mirrors check ixs (nothing_found F)))
  unfolding sent_by
  scan-IsSingle mirrors check ixs =
      rw (scan-first F mirrors check ixs) (first_of-IsSingle mirrors check ixs)

  listed-length {ℓ} : {A : Type ℓ} (o : Option A) → length (listed o) ≤ 1
  unfolding listed
  listed-length none = omega arith
  listed-length (some a) = omega arith

  -- What is sent of a swap: no sell where there is no channel for it.
  Kept : Bool → Option (DetectedBuy F) × Option (DetectedSell F) → Type 0
  Kept mirrors sent = sent.1 ≡ (if mirrors then sent.1 else none)

  neither : (mirrors : Bool) → Kept mirrors (none, none)
  unfolding Kept
  neither true = refl
  neither false = refl

  Kept-IsSingle :
      (mirrors : Bool) (sent : Option (DetectedBuy F) × Option (DetectedSell F))
      → Kept mirrors sent
      → IsSingle mirrors (listed sent.0, listed sent.1)
  unfolding IsSingle Kept listed
  Kept-IsSingle true sent kept = (listed-length sent.0, listed-length sent.1, refl)
  Kept-IsSingle false sent kept = (listed-length sent.0, listed-length sent.1, rw kept refl)

  module _ (encode : Bytes → String) (set_order : List String → List String) where
    first_swap-Kept :
        (tx : String × ℕ × DexType) (mirrors : Bool) (amm_pool : Option String)
        (pre_map post_map : Dict ℕ) (delta : F.F64 × F.F64) (mints : List String)
        → Kept mirrors
            (first_swap F encode set_order tx mirrors amm_pool pre_map post_map delta mints)
    unfolding first_swap Kept
    first_swap-Kept tx true amm_pool pre_map post_map delta mints = refl
    first_swap-Kept tx false amm_pool pre_map post_map delta [] = refl
    first_swap-Kept tx false amm_pool pre_map post_map delta (mint ∷ mints) =
        ground (arith, first_swap-Kept tx false amm_pool pre_map post_map delta mints)

    parse_raydium-Kept :
        (ids : ProgramIds) (mirrors : Bool) (tx_info : SubscribeUpdateTransactionInfo)
        (keys : List Pubkey) (target : Pubkey) (sig : String) (slot : ℕ) (dex : DexType)
        → Kept mirrors (
            parse_raydium_from_proto F encode set_order ids mirrors tx_info keys target sig slot
              dex)
    unfolding parse_raydium_from_proto swap_between
    parse_raydium-Kept ids mirrors tx_info keys target sig slot dex =
        elim (Option-cases tx_info.meta) [
          | inl absent ↦ rw absent (neither mirrors)
          | inr (meta, has_meta) ↦ elim (Option-cases (find_target_index keys target)) [
            | inl absent ↦ rw (has_meta, absent) (neither mirrors)
            | inr (idx, at) ↦ elim (Option-cases (raydium_program_bytes ids dex)) [
              | inl absent ↦ rw (has_meta, at, absent) (neither mirrors)
              | inr (program, of_dex) ↦
                  rw (has_meta, at, of_dex) (first_swap-Kept (sig, slot, dex) mirrors _ _ _ _ _)
            ]
          ]
        ]

    parse_as-IsSingle :
        (ids : ProgramIds) (mirrors : Bool) (target : Pubkey) (slot : ℕ)
        (tx_info : SubscribeUpdateTransactionInfo) (keys : List Pubkey) (dex : DexType)
        → IsSingle mirrors (parse_as F encode set_order ids mirrors target slot tx_info keys dex)
    unfolding parse_as parse_pump_from_proto parse_pumpswap_from_proto
    parse_as-IsSingle ids mirrors target slot tx_info keys pump_fun =
        elim (Option-cases (find_program_index ids keys pump_fun)) [
          | inl absent ↦ rw absent (nothing-IsSingle mirrors)
          | inr (idx, at) ↦ elim (Option-cases (message_of tx_info)) [
            | inl absent ↦ rw (at, absent) (nothing-IsSingle mirrors)
            | inr (msg, there) ↦
                rw (at, there)
                  (scan-IsSingle mirrors
                    (check_instruction F encode (signature_of encode tx_info.signature) slot keys
                      (sol_delta_of F tx_info keys target) idx)
                    (every_instruction tx_info msg))
          ]
        ]
    parse_as-IsSingle ids mirrors target slot tx_info keys pump_fun_amm =
        elim (Option-cases (find_program_index ids keys pump_fun_amm)) [
          | inl absent ↦ rw absent (nothing-IsSingle mirrors)
          | inr (idx, at) ↦ elim (Option-cases (message_of tx_info)) [
            | inl absent ↦ rw (at, absent) (nothing-IsSingle mirrors)
            | inr (msg, there) ↦
                rw (at, there)
                  (scan-IsSingle mirrors
                    (check_pumpswap_ix F encode (signature_of encode tx_info.signature) slot keys
                      (sol_delta_of F tx_info keys target) idx)
                    (every_instruction tx_info msg))
          ]
        ]
    parse_as-IsSingle ids mirrors target slot tx_info keys raydium_v4 = Kept-IsSingle mirrors _ (
        parse_raydium-Kept ids mirrors tx_info keys target (signature_of encode tx_info.signature)
          slot raydium_v4)
    parse_as-IsSingle ids mirrors target slot tx_info keys raydium_cpmm = Kept-IsSingle mirrors _ (
        parse_raydium-Kept ids mirrors tx_info keys target (signature_of encode tx_info.signature)
          slot raydium_cpmm)
    parse_as-IsSingle ids mirrors target slot tx_info keys jupiter = nothing-IsSingle mirrors
    parse_as-IsSingle ids mirrors target slot tx_info keys (unknown id) = nothing-IsSingle mirrors

    on_transaction-IsSingle :
        (ids : ProgramIds) (mirrors : Bool) (target : Pubkey) (slot : ℕ)
        (tx_info : SubscribeUpdateTransactionInfo)
        → IsSingle mirrors (on_transaction F encode set_order ids mirrors target slot tx_info)
    unfolding on_transaction
    on_transaction-IsSingle ids mirrors target slot tx_info =
        elim (Bool-cases (unwrap_or (Option.map (λ meta. meta.failed) tx_info.meta) false)) [
          | inl failed ↦ rw failed (nothing-IsSingle mirrors)
          | inr fine ↦ elim (Option-cases (build_account_keys tx_info)) [
            | inl missing ↦ rw (fine, missing) (nothing-IsSingle mirrors)
            | inr (keys, built) ↦
                rw (fine, built)
                  (parse_as-IsSingle ids mirrors target slot tx_info keys (detect_dex ids keys))
          ]
        ]

    -- One update of the stream, whatever it holds, sends one buy at most and one sell at most, and
    -- no sell where there is no channel for sells.
    pub on_update-IsSingle :
        (ids : ProgramIds) (mirrors : Bool) (target : Pubkey) (update : SubscribeUpdate)
        → IsSingle mirrors (on_update F encode set_order ids mirrors target update)
    unfolding on_update
    on_update-IsSingle ids mirrors target update = elim (Bool-cases (update.pong || update.slot)) [
      | inl other ↦ rw other (nothing-IsSingle mirrors)
      | inr ours ↦ elim (Option-cases update.transaction) [
        | inl missing ↦ rw (ours, missing) (nothing-IsSingle mirrors)
        | inr (tx_update, sent) ↦ elim (Option-cases tx_update.transaction) [
          | inl missing ↦ rw (ours, sent, missing) (nothing-IsSingle mirrors)
          | inr (tx_info, whole) ↦
              rw (ours, sent, whole)
                (on_transaction-IsSingle ids mirrors target tx_update.slot tx_info)
        ]
      ]
    ]
