-- ===== src/PumpfunParser.antt =====
-- src/pumpfun_parser.rs: the readers of the pump.fun accounts.
pub mod Layout
use girasolbot.Prelude.{
  ℕ, zero, suc, ◌+◌, ◌*◌, Bool, Option, none, some, List, [], ◌∷◌, String, ltb, if◌then◌else◌,
  Bytes, Pubkey, length, slice, drop, replicate, bytes_eq,
}
use girasolbot.Chain.{Result, ok, err, Chain}

abbrev pub default_key : Pubkey
default_key = replicate 32 0

abbrev pub global_fee_recipient_offset : ℕ
global_fee_recipient_offset = 41

abbrev pub global_fee_recipients_offset : ℕ
global_fee_recipients_offset = 162

abbrev pub global_fee_recipients_count : ℕ
global_fee_recipients_count = 7

abbrev pub bonding_curve_creator_offset : ℕ
bonding_curve_creator_offset = 49

abbrev pub bonding_curve_min_len : ℕ
bonding_curve_min_len = 81

abbrev pub pump_fee_recipient : String
pump_fee_recipient = "CebN5WGQ4jvEPvsVU4EoHEpgzq1VV7AbicfhtW4xC9iM"

unfoldable pub pubkey_from_bytes : Bytes → Option Pubkey
pubkey_from_bytes bs = if bytes_eq bs default_key then none else some bs

unfoldable pub read_pubkey_at : Bytes → ℕ → Option Pubkey
unfolding pubkey_from_bytes
read_pubkey_at bs offset =
    if ltb (length bs) (offset + 32)
    then none
    else pubkey_from_bytes (slice bs offset (offset + 32))

infixl 5 ◌or_else◌
abbrev pub ◌or_else◌ : Option Pubkey → Option Pubkey → Option Pubkey
none or_else b = b
some k or_else b = some k

-- The first of `count` consecutive entries that holds a key.
unfoldable pub first_entry : Bytes → ℕ → ℕ → Option Pubkey
unfolding read_pubkey_at
first_entry bs offset zero = none
first_entry bs offset (suc count) =
    read_pubkey_at bs offset or_else first_entry bs (offset + 32) count

first_key : List Bytes → Option Pubkey
unfolding pubkey_from_bytes
first_key [] = none
first_key (k ∷ ks) = pubkey_from_bytes k or_else first_key ks

-- The two fields of `GlobalBorsh` that the reader uses.
pub record GlobalBorsh : Type 0 where
  pub fee_recipient : Bytes
  pub fee_recipients : List Bytes

decoded_fee_recipient : Option GlobalBorsh → Option Pubkey
unfolding pubkey_from_bytes first_key
decoded_fee_recipient none = none
decoded_fee_recipient (some g) =
    pubkey_from_bytes g.fee_recipient or_else first_key g.fee_recipients

or_canonical : Option Pubkey → Result Pubkey → Result Pubkey
or_canonical none canonical = canonical
or_canonical (some k) canonical = ok k

-- `decode_global` and `decode_creator` are the derived borsh decoders of `GlobalBorsh` and, for its
-- creator, of `BondingCurveBorsh`.
module _ (chain : Chain) (decode_global : Bytes → Option GlobalBorsh)
    (decode_creator : Bytes → Option Bytes) where
  unfoldable pub parse_fee_recipient_from_global : Bytes → Result Pubkey
  unfolding read_pubkey_at first_entry decoded_fee_recipient or_canonical
  parse_fee_recipient_from_global bs =
      let structured =
        if ltb 8 (length bs) then decoded_fee_recipient (decode_global (drop 8 bs)) else none in
      or_canonical
        (read_pubkey_at bs global_fee_recipient_offset
          or_else first_entry bs global_fee_recipients_offset global_fee_recipients_count
          or_else structured)
        (chain.from_str pump_fee_recipient)

  decoded_creator : Option Bytes → Option Pubkey
  unfolding pubkey_from_bytes
  decoded_creator none = none
  decoded_creator (some k) = pubkey_from_bytes k

  unfoldable pub parse_creator_from_bonding_curve : Bytes → Option Pubkey
  unfolding read_pubkey_at decoded_creator
  parse_creator_from_bonding_curve bs =
      if ltb (length bs) bonding_curve_min_len
      then none
      else (read_pubkey_at bs bonding_curve_creator_offset
          or_else decoded_creator (decode_creator (drop 8 bs)))
