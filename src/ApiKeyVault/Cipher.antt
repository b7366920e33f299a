-- ===== src/ApiKeyVault/Cipher.antt =====
-- src/api_key_vault.rs: the keys derived from the secret, and the encryption of an entry. Each
-- error of these functions is only logged or dropped by their callers, so it is `none` here.
pub mod Entries
use girasolbot.Prelude.{
  ℕ, zero, suc, ◌+◌, ◌-◌, ◌≡◌, Bool, true, Option, none, some, List, [], ◌∷◌, ◌++◌, String, Bytes,
  length, take, drop, is_some, to_le_bytes,
}
use girasolbot.Prelude.Options.{◌>>=◌}
use girasolbot.Prelude.Texts.{chars, split_on}

-- The functions of hex, sha2, scrypt and aes_gcm, and the conversions between texts and bytes.
pub record Crypto : Type 0 where
  pub hex_encode : Bytes → String
  pub hex_decode : String → Option Bytes
  pub as_bytes : String → Bytes
  pub from_utf8 : Bytes → Option String
  pub sha256 : Bytes → Bytes
  -- `scrypt` of log2 N, r, p, the passphrase and the salt; `none` where the parameters are refused.
  pub scrypt : ℕ → ℕ → ℕ → Bytes → Bytes → Option Bytes
  -- AES-256-GCM of a key and a nonce; the tag is at the end of what is encrypted.
  pub encrypt : Bytes → Bytes → Bytes → Option Bytes
  pub decrypt : Bytes → Bytes → Bytes → Option Bytes

-- What the crates promise.
pub record CryptoLaws (c : Crypto) : Type 0 where
  pub hex : (b : Bytes) → c.hex_decode (c.hex_encode b) ≡ some b
  pub utf8 : (s : String) → c.from_utf8 (c.as_bytes s) ≡ some s
  pub decrypts :
      (key nonce plain out : Bytes)
      → c.encrypt key nonce plain ≡ some out
      → c.decrypt key nonce out ≡ some plain
  pub encrypts : (key nonce plain : Bytes) → is_some (c.encrypt key nonce plain) ≡ true
  pub valid_parameters : (pass salt : Bytes) → is_some (c.scrypt 14 8 1 pass salt) ≡ true

-- One encrypted entry of the second format: nonce, ciphertext and tag in hex.
pub record SlotBlobV2 : Type 0 where
  pub iv : String
  pub ct : String
  pub tag : String

module _ (c : Crypto) where
  open c use {hex_encode, hex_decode, as_bytes, from_utf8, sha256, scrypt, encrypt, decrypt}

  unfoldable pub scrypt_32 : Bytes → Bytes → Option Bytes
  scrypt_32 passphrase salt = scrypt 14 8 1 passphrase salt

  unfoldable pub derive_key_v2 : String → String → Option Bytes
  unfolding scrypt_32
  derive_key_v2 secret salt_hex = do salt ← hex_decode salt_hex; scrypt_32 (as_bytes secret) salt

  -- The last 16 bytes of what is encrypted are the tag.
  unfoldable pub split_tag : Bytes → Bytes → SlotBlobV2
  split_tag iv out =
      let body = length out - 16 in
      record {
        iv = hex_encode iv;
        ct = hex_encode (take body out);
        tag = hex_encode (drop body out);
      }

  -- `iv` is the draw of `random_bytes(12)`.
  unfoldable pub encrypt_v2 : Bytes → String → String → String → Option SlotBlobV2
  unfolding derive_key_v2 split_tag
  encrypt_v2 iv secret plain salt_hex = do
    key ← derive_key_v2 secret salt_hex
    out ← encrypt key iv (as_bytes plain)
    some (split_tag iv out)

  -- A nonce that is not of 12 bytes is outside of the model: there the source panics.
  unfoldable pub decrypt_v2 : String → SlotBlobV2 → String → Option String
  unfolding derive_key_v2
  decrypt_v2 secret blob salt_hex = do
    key ← derive_key_v2 secret salt_hex
    iv ← hex_decode blob.iv
    tag ← hex_decode blob.tag
    ct ← hex_decode blob.ct
    plain ← decrypt key iv (ct ++ tag)
    from_utf8 plain

  -- `left` rounds of the stretching, from round `i` on.
  unfoldable pub stretch : ℕ → ℕ → Bytes → Bytes
  stretch zero i block = block
  stretch (suc left) i block = stretch left (i + 1) (sha256 (block ++ to_le_bytes 4 i))

  unfoldable pub derive_key_v1_rust : String → Bytes → Bytes
  unfolding stretch
  derive_key_v1_rust secret salt =
      stretch 4096 0 (sha256 (as_bytes "girasol-vault-v1" ++ as_bytes secret ++ salt))

  three_parts : List String → Option (String × String × String)
  three_parts (iv ∷ tag ∷ ct ∷ []) = some (iv, tag, ct)
  three_parts _ = none

  -- "iv:tag:ct" in hex.
  unfoldable pub decrypt_v1_blob : Bytes → String → Option String
  unfolding three_parts split_on chars
  decrypt_v1_blob key blob = do
    (iv_hex, tag_hex, ct_hex) ← three_parts (split_on 58 [] (chars blob))
    iv ← hex_decode iv_hex
    tag ← hex_decode tag_hex
    ct ← hex_decode ct_hex
    plain ← decrypt key iv (ct ++ tag)
    from_utf8 plain

  unfoldable pub decrypt_legacy_sha256 : String → String → Bytes → Option String
  unfolding derive_key_v1_rust decrypt_v1_blob
  decrypt_legacy_sha256 secret blob salt = decrypt_v1_blob (derive_key_v1_rust secret salt) blob

  unfoldable pub decrypt_legacy_scrypt : String → String → String → Option String
  unfolding scrypt_32 decrypt_v1_blob
  decrypt_legacy_scrypt secret blob salt_hex = do
    salt ← hex_decode salt_hex
    key ← scrypt_32 (as_bytes secret) salt
    decrypt_v1_blob key blob
