-- ===== src/ApiKeyVault/File.antt =====
-- src/api_key_vault.rs: the layouts of the vault file, their parser, the reading of one entry and
-- the migration of the two older layouts.
pub mod Migration
use girasolbot.Prelude.{
  ℕ, ◌^◌, ◌%◌, ◌≡◌, Bool, false, ◌&&◌, Option, none, some, List, [], ◌∷◌, String, str_eq, Bytes,
  ◌==◌, if◌then◌else◌, is_some, true,
}
use girasolbot.Prelude.Options.{◌>>=◌, unwrap_or}
use girasolbot.Prelude.Dict
use girasolbot.Prelude.Dict.{Dict}
use girasolbot.Json.{Json}
use girasolbot.ApiKeyVault.Cipher.{
  Crypto, SlotBlobV2, encrypt_v2, decrypt_v2, decrypt_legacy_sha256, decrypt_legacy_scrypt,
}

abbrev pub vault_version_v2 : ℕ
vault_version_v2 = 2

abbrev pub vault_version_v1 : ℕ
vault_version_v1 = 1

pub record ScryptParamsV2 : Type 0 where
  pub n : ℕ
  pub r : ℕ
  pub p : ℕ

abbrev pub default_params : ScryptParamsV2
default_params = record { n = 16384; r = 8; p = 1 }

abbrev pub same_params : ScryptParamsV2 → ScryptParamsV2 → Bool
same_params a b = a.n == b.n && a.r == b.r && a.p == b.p

pub record VaultFileV2 : Type 0 where
  pub version : ℕ
  pub kdf : String
  pub kdf_params : ScryptParamsV2
  pub salt : String
  pub slots : Dict SlotBlobV2

-- `entries` is the field `data` of the source.
pub record VaultFileV1Rust : Type 0 where
  pub version : ℕ
  pub salts : Dict String
  pub entries : Dict String

pub record VaultFileV1Ts : Type 0 where
  pub version : ℕ
  pub salt : String
  pub entries : Dict String

pub data VaultFileAny : Type 0 where
  v2 : VaultFileV2 → VaultFileAny
  v1_rust : VaultFileV1Rust → VaultFileAny
  v1_ts : VaultFileV1Ts → VaultFileAny

-- The derived decoders and the encoder of serde_json.
pub record Formats (j : Json) : Type 0 where
  pub to_v2 : j.Value → Option VaultFileV2
  pub to_v1_rust : j.Value → Option VaultFileV1Rust
  pub to_v1_ts : j.Value → Option VaultFileV1Ts
  pub to_string_pretty : VaultFileV2 → Option String

-- The tests of `parse` on a file of the second format.
unfoldable pub supported : VaultFileV2 → Bool
supported v = str_eq v.kdf "scrypt" && same_params v.kdf_params default_params

-- Every file of the second format can be written, and reads back as what it was.
pub record FormatsLaws (j : Json) (f : Formats j) : Type 0 where
  pub writes : (v : VaultFileV2) → is_some (f.to_string_pretty v) ≡ true
  pub reads_back :
      (v : VaultFileV2) (text : String)
      → f.to_string_pretty v ≡ some text
      → (raw : j.Value) × (j.from_str text ≡ some raw)
        × (f.to_v2 raw ≡ some v)
        × ((j.get raw "version" >>= j.as_u64) ≡ some v.version)

-- The results of the calls of `random_bytes`: for a secret, a salt, the nonce of the entry that is
-- set, and the nonce of each entry that is migrated.
pub record Draws : Type 0 where
  pub new_secret : Bytes
  pub new_salt : Bytes
  pub new_iv : Bytes
  pub migrated_iv : String → Bytes

module _ (j : Json) (f : Formats j) where
  parse_v2 : j.Value → Option VaultFileAny
  unfolding supported
  parse_v2 raw = do v ← f.to_v2 raw; if supported v then some (v2 v) else none

  parse_v1 : j.Value → Option VaultFileAny
  parse_v1 raw =
      if unwrap_or (do salts ← j.get raw "salts"; some (j.is_object salts)) false
      then (do v ← f.to_v1_rust raw; some (v1_rust v))
      else if unwrap_or (do salt ← j.get raw "salt"; some (j.is_string salt)) false
      then (do v ← f.to_v1_ts raw; some (v1_ts v))
      else none

  -- The version is read `as u32`.
  unfoldable pub parse : String → Option VaultFileAny
  unfolding parse_v2 parse_v1
  parse text = do
    raw ← j.from_str text
    let version = unwrap_or (j.get raw "version" >>= j.as_u64) 0 % 2 ^ 32 in
        if version == vault_version_v2
        then parse_v2 raw
        else if version == vault_version_v1
        then parse_v1 raw
        else none

module _ (c : Crypto) where
  unfoldable pub empty_v2 : Bytes → VaultFileV2
  empty_v2 salt = record {
    version = vault_version_v2;
    kdf = "scrypt";
    kdf_params = default_params;
    salt = c.hex_encode salt;
    slots = [];
  }

  unfoldable pub read_slot : VaultFileAny → String → String → Option String
  read_slot (v2 v) secret slot = do blob ← Dict.get v.slots slot; decrypt_v2 c secret blob v.salt
  read_slot (v1_rust v) secret slot = do
    blob ← Dict.get v.entries slot
    salt_hex ← Dict.get v.salts slot
    salt ← c.hex_decode salt_hex
    decrypt_legacy_sha256 c secret blob salt
  read_slot (v1_ts v) secret slot = do
    blob ← Dict.get v.entries slot
    decrypt_legacy_scrypt c secret blob v.salt

  insert_some : Dict SlotBlobV2 → String → Option SlotBlobV2 → Dict SlotBlobV2
  insert_some slots slot none = slots
  insert_some slots slot (some blob) = Dict.insert slots slot blob

  -- One pass of either migration loop, with what the older entry decrypted to.
  unfoldable pub migrate_slot :
      Draws → String → String → Dict SlotBlobV2 → String → Option String → Dict SlotBlobV2
  unfolding insert_some
  migrate_slot d secret salt slots slot none = slots
  migrate_slot d secret salt slots slot (some plain) =
      insert_some slots slot (encrypt_v2 c (d.migrated_iv slot) secret plain salt)

  -- `old slot blob` decrypts an entry of the older layout.
  unfoldable pub migrate_slots :
      Draws
      → String
      → String
      → (String → String → Option String)
      → Dict SlotBlobV2
      → Dict String
      → Dict SlotBlobV2
  unfolding migrate_slot
  migrate_slots d secret salt old slots [] = slots
  migrate_slots d secret salt old slots ((slot, blob) ∷ rest) =
      migrate_slots d secret salt old (migrate_slot d secret salt slots slot (old slot blob)) rest

  unfoldable pub old_rust : String → Dict String → String → String → Option String
  old_rust secret salts slot blob = do
    salt_hex ← Dict.get salts slot
    salt ← c.hex_decode salt_hex
    decrypt_legacy_sha256 c secret blob salt

  unfoldable pub migrate : Draws → String → VaultFileAny → VaultFileV2
  unfolding migrate_slots empty_v2 old_rust
  migrate d secret (v2 v) = v
  migrate d secret (v1_rust v) =
      let e = empty_v2 d.new_salt in
      record e { slots = migrate_slots d secret e.salt (old_rust secret v.salts) [] v.entries }
  migrate d secret (v1_ts v) =
      let e = empty_v2 d.new_salt in
      record e {
        slots =
            migrate_slots d secret e.salt (λ slot blob. decrypt_legacy_scrypt c secret blob v.salt)
              [] v.entries;
      }
