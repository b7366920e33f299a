-- ===== src/Geyser/Stream.antt =====
-- src/geyser_listener.rs: one update of the loop of `connect_and_stream`.
pub mod Single
use girasolbot.Prelude.{
  ℕ, Bool, true, false, ◌||◌, Option, none, some, List, [], ◌∷◌, String, Bytes, Pubkey,
  if◌then◌else◌,
}
use girasolbot.Prelude.Options.{◌>>=◌, unwrap_or}
use mathlib.Core.Option
use girasolbot.Float.{Float}
use girasolbot.CopyEngine.Types.{
  DexType, pump_fun, pump_fun_amm, raydium_v4, raydium_cpmm, jupiter, unknown,
}
use girasolbot.CopyEngine.Fetch.{DetectedBuy, DetectedSell}
use girasolbot.Geyser.{
  ProgramIds, SubscribeUpdateTransactionInfo, detect_dex, build_account_keys, Scan,
}
use girasolbot.Geyser.Pump.{parse_pump_from_proto, parse_pumpswap_from_proto}
use girasolbot.Geyser.Swap.{parse_raydium_from_proto}

pub record SubscribeUpdateTransaction : Type 0 where
  pub slot : ℕ
  pub transaction : Option SubscribeUpdateTransactionInfo

-- `pong` and `slot` say whether the field is present.
pub record SubscribeUpdate : Type 0 where
  pub pong : Bool
  pub slot : Bool
  pub transaction : Option SubscribeUpdateTransaction

sent_by : {F : Float} → Scan F → List (DetectedBuy F) × List (DetectedSell F)
sent_by s = (s.buys, s.sells)

listed {ℓ} : {A : Type ℓ} → Option A → List A
listed none = []
listed (some a) = a ∷ []

signature_of : (Bytes → String) → Bytes → String
signature_of encode [] = "unknown"
signature_of encode (b ∷ bs) = encode (b ∷ bs)

module _ (F : Float) (encode : Bytes → String) (set_order : List String → List String) where
  abbrev pub Messages : Type 0
  Messages = List (DetectedBuy F) × List (DetectedSell F)

  parse_as :
      ProgramIds
      → Bool
      → Pubkey
      → ℕ
      → SubscribeUpdateTransactionInfo
      → List Pubkey
      → DexType
      → Messages
  unfolding sent_by listed signature_of parse_pump_from_proto parse_pumpswap_from_proto
      parse_raydium_from_proto
  parse_as ids mirrors target slot tx_info keys pump_fun = sent_by (
      parse_pump_from_proto F encode (signature_of encode tx_info.signature) slot ids mirrors
        tx_info keys target)
  parse_as ids mirrors target slot tx_info keys pump_fun_amm = sent_by (
      parse_pumpswap_from_proto F encode (signature_of encode tx_info.signature) slot ids mirrors
        tx_info keys target)
  parse_as ids mirrors target slot tx_info keys raydium_v4 =
      let sent =
        parse_raydium_from_proto F encode set_order ids mirrors tx_info keys target
          (signature_of encode tx_info.signature) slot raydium_v4 in
      (listed sent.0, listed sent.1)
  parse_as ids mirrors target slot tx_info keys raydium_cpmm =
      let sent =
        parse_raydium_from_proto F encode set_order ids mirrors tx_info keys target
          (signature_of encode tx_info.signature) slot raydium_cpmm in
      (listed sent.0, listed sent.1)
  parse_as ids mirrors target slot tx_info keys jupiter = ([], [])
  parse_as ids mirrors target slot tx_info keys (unknown id) = ([], [])

  unfoldable pub on_transaction :
      ProgramIds → Bool → Pubkey → ℕ → SubscribeUpdateTransactionInfo → Messages
  unfolding parse_as build_account_keys detect_dex
  on_transaction ids mirrors target slot tx_info =
      if unwrap_or (Option.map (λ meta. meta.failed) tx_info.meta) false
      then ([], [])
      else elim (build_account_keys tx_info) [
        | none ↦ ([], [])
        | some keys ↦ parse_as ids mirrors target slot tx_info keys (detect_dex ids keys)
      ]

  -- The messages that are sent on one update of the stream.
  unfoldable pub on_update : ProgramIds → Bool → Pubkey → SubscribeUpdate → Messages
  unfolding on_transaction
  on_update ids mirrors target update =
      if update.pong || update.slot then ([], []) else elim update.transaction [
        | none ↦ ([], [])
        | some tx_update ↦ elim tx_update.transaction [
          | none ↦ ([], [])
          | some tx_info ↦ on_transaction ids mirrors target tx_update.slot tx_info
        ]
      ]
