-- ===== src/RugGuard/Parsers.antt =====
-- The account parsers of src/rug_guard.rs. Offsets stay below the length of an account, so no sum
-- of theirs leaves the usize, and the `checked_add`s never fail.
pub mod Fee
use girasolbot.Prelude.{
  ℕ, zero, suc, ◌+◌, ◌*◌, ◌^◌, Bool, true, false, not, Option, none, some, List, [], ◌∷◌, ltb, leb,
  ◌==◌, if◌then◌else◌, ◌||◌, Bytes, Pubkey, length, slice, get_elem?, get_or, from_le_bytes,
}

infixl 5 ◌>>=◌
abbrev ◌>>=◌ {ℓ} : {A B : Type ℓ} → Option A → (A → Option B) → Option B
none >>= f = none
some a >>= f = f a

-- The tag of a `COption`, then the key.
unfoldable pub parse_coption_pubkey : Bytes → Option Pubkey
parse_coption_pubkey bs = if from_le_bytes (slice bs 0 4) == 1 then some (slice bs 4 36) else none

pub record SplMint : Type 0 where
  pub mint_authority : Option Pubkey
  pub decimals : ℕ
  pub supply : ℕ
  pub freeze_authority : Option Pubkey

-- `none` for the error that the data is too short.
unfoldable pub parse_spl_mint : Bytes → Option SplMint
unfolding parse_coption_pubkey
parse_spl_mint bs =
    if ltb (length bs) 82
    then none
    else some (record {
      mint_authority = parse_coption_pubkey (slice bs 0 36);
      decimals = get_or bs 44 0;
      supply = from_le_bytes (slice bs 36 44);
      freeze_authority = parse_coption_pubkey (slice bs 46 82);
    })

pub data Scan : Type 0 where
  out_of_fuel : Scan
  done : Option ℕ → Scan

-- The bytes of the value of the extension at an offset.
abbrev pub value_length : Bytes → ℕ → ℕ
value_length bs offset = from_le_bytes (slice bs (offset + 2) (offset + 4))

-- The loop over the extensions, from an offset: its body, given what the later passes find.
unfoldable pub visit : Bytes → ℕ → Scan → Scan
visit bs offset rest =
    let value_start = offset + 4 in
    let value_end = value_start + value_length bs offset in
    let bps_start = value_start + 106 in
    if ltb (length bs) (offset + 4)
    then done none
    else if ltb (length bs) value_end
    then done none
    else if from_le_bytes (slice bs offset (offset + 2)) == 1
    then if ltb value_end (bps_start + 2)
      then done none
      else done (some (from_le_bytes (slice bs bps_start (bps_start + 2))))
    else rest

unfoldable pub scan_extensions : ℕ → Bytes → ℕ → Scan
scan_extensions zero bs offset = out_of_fuel
scan_extensions (suc fuel) bs offset =
    visit bs offset (scan_extensions fuel bs (offset + 4 + value_length bs offset))

-- The transfer fee of a Token-2022 mint; fuel for one step per byte.
unfoldable pub parse_token2022_transfer_fee_bps : Bytes → Scan
unfolding scan_extensions
parse_token2022_transfer_fee_bps bs =
    if ltb (length bs) 166 || not (get_or bs 165 0 == 1)
    then done none
    else scan_extensions (length bs) bs 166

-- The value, and the offset after it.
unfoldable pub read_u32 : Bytes → ℕ → Option (ℕ × ℕ)
read_u32 bs offset =
    if ltb (length bs) (offset + 4)
    then none
    else some (from_le_bytes (slice bs offset (offset + 4)), offset + 4)

-- The offset after `n` strings, each with its length before it.
unfoldable pub skip_strings : ℕ → Bytes → ℕ → Option ℕ
unfolding read_u32
skip_strings zero bs offset = some offset
skip_strings (suc n) bs offset = do
  (string_len, start) ← read_u32 bs offset
  let next = start + string_len
  let rest = skip_strings n bs next
  if ltb (length bs) next then none else rest

skip_creators : Bytes → ℕ → ℕ → Option ℕ
unfolding read_u32
skip_creators bs offset zero = some offset
skip_creators bs offset (suc zero) = do
  (count, start) ← read_u32 bs offset
  let next = start + count * 34
  if ltb (length bs) next then none else some next
skip_creators bs offset (suc (suc n)) = none

unfoldable pub parse_metaplex_is_mutable : Bytes → Option Bool
unfolding skip_strings skip_creators
parse_metaplex_is_mutable bs = do
  version ← get_elem? bs 0
  after ← if version == 4 then skip_strings 3 bs 65 else none
  tag ← get_elem? bs (after + 2)
  next ← skip_creators bs (after + 3) tag
  value ← get_elem? bs (next + 1)
  some (not (value == 0))
