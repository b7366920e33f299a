-- ===== src/TxBuilder/Recognized.antt =====
-- The instructions of src/tx_builder.rs, read by the parser of src/shreds_listener.rs.
use girasolbot.Prelude.{
  ℕ, ◌≡◌, false, some, List, [], ◌∷◌, ◌++◌, Bytes, Pubkey, length, get_elem?, to_le_bytes,
}
use girasolbot.Float.{Float}
use girasolbot.Chain.{Chain, AccountMeta, readonly, Instruction}
use girasolbot.CopyEngine.Types.{buy_discriminator, sell_discriminator}
use girasolbot.Shreds.Parse.{ResolvedKeys, get_key}

-- The indexes of a message that stand for some accounts.
abbrev pub IsCompiled : ResolvedKeys → List ℕ → List AccountMeta → Type 0
IsCompiled r [] [] = Unit
IsCompiled r (i ∷ is) (m ∷ ms) = (get_key r i ≡ some m.pubkey) × IsCompiled r is ms
IsCompiled r [] (m ∷ ms) = ⊥
IsCompiled r (i ∷ is) [] = ⊥

-- What the parser needs of an instruction: so many accounts, the mint as the third, and the data.
abbrev pub IsTrade : Pubkey → ℕ → Bytes → Instruction → Type 0
IsTrade mint count bytes i =
    (get_elem? i.accounts 2 ≡ some (readonly mint false))
    × (length i.accounts ≡ count)
    × (i.data_bytes ≡ bytes)

-- The data of a buy, whose last byte says that the volume is not tracked, and of a sell.
abbrev pub buy_bytes : ℕ → ℕ → Bytes
buy_bytes a b = buy_discriminator ++ (to_le_bytes 8 a ++ (to_le_bytes 8 b ++ 0 ∷ []))

abbrev pub sell_bytes : ℕ → ℕ → Bytes
sell_bytes a b = sell_discriminator ++ (to_le_bytes 8 a ++ to_le_bytes 8 b)
