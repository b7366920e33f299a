-- ===== src/Chain.antt =====
-- What the instruction builders take from the Solana crates and the RPC: addresses, instructions
-- and the calls that read the chain, as an interface, and the results of fallible code.
use mathlib.Core.Path.{subst}
use girasolbot.Prelude.{◌≡◌, refl, ℕ, Bool, true, false, List, String, Bytes, Pubkey}

pub data Error : Type 0 where
  bad_key rpc_failed undecodable bad_instruction no_key : Error
  too_small : ℕ → ℕ → Error

pub data Result {ℓ} (A : Type ℓ) : Type ℓ where
  ok : A → Result A
  err : Error → Result A

infixl 5 ◌>>=◌
abbrev pub ◌>>=◌ {ℓ κ} : {A : Type ℓ} {B : Type κ} → Result A → (A → Result B) → Result B
ok a >>= f = f a
err e >>= f = err e

pub record AccountMeta : Type 0 where
  pub pubkey : Pubkey
  pub is_signer : Bool
  pub is_writable : Bool

-- `AccountMeta::new` and `AccountMeta::new_readonly`.
abbrev pub writable : Pubkey → Bool → AccountMeta
writable k signer = record { pubkey = k; is_signer = signer; is_writable = true }

abbrev pub readonly : Pubkey → Bool → AccountMeta
readonly k signer = record { pubkey = k; is_signer = signer; is_writable = false }

pub record Instruction : Type 0 where
  pub program_id : Pubkey
  pub accounts : List AccountMeta
  pub data_bytes : Bytes

-- The functions of the crates and of the RPC node that the builders call.
pub record Chain : Type 0 where
  -- `Pubkey::from_str`
  pub from_str : String → Result Pubkey
  -- `get_associated_token_address` of a wallet and a mint, and with a token program.
  pub ata : Pubkey → Pubkey → Pubkey
  pub ata_with_program : Pubkey → Pubkey → Pubkey → Pubkey
  -- `create_associated_token_account_idempotent` of payer, wallet, mint and token program.
  pub create_ata : Pubkey → Pubkey → Pubkey → Pubkey → Instruction
  pub transfer : Pubkey → Pubkey → ℕ → Instruction
  pub sync_native : Pubkey → Pubkey → Result Instruction
  -- `close_account` of token program, account, destination and owner, with no signers.
  pub close_account : Pubkey → Pubkey → Pubkey → Pubkey → Result Instruction
  -- The bytes of an account, and the amount of a token account, as the RPC node answers.
  pub account_data : String → Result Bytes
  pub token_balance : Pubkey → Result ℕ

-- A property of the value of a computation, where it returns one.
abbrev pub Yields {ℓ κ} : {A : Type ℓ} → (A → Type κ) → Result A → Type κ
Yields P (ok a) = P a
Yields P (err e) = Unit

pub Yields-bind {ℓ κ μ} :
    {A : Type ℓ} {B : Type κ} (P : B → Type μ) (r : Result A) (f : A → Result B)
    → ((a : A) → r ≡ ok a → Yields P (f a))
    → Yields P (r >>= f)
Yields-bind P (ok a) f h = h a refl
Yields-bind P (err e) f h = tt

pub Yields→ {ℓ κ} :
    {A : Type ℓ} (P : A → Type κ) (r : Result A) (a : A) → Yields P r → r ≡ ok a → P a
Yields→ P (ok x) a h e = let same : x ≡ a = cc in subst P same h
Yields→ P (err x) a h e = cc
