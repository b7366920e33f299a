-- ===== src/ApiKeyVault/Cipher/Entries.antt =====
-- An entry that was encrypted decrypts to the key, under the same secret and salt.
use mathlib.Core.Path.{subst}
use girasolbot.Prelude.{◌≡◌, some, String, Bytes, take-drop}
use girasolbot.Prelude.Options.{bind-some, is_some-value}
use girasolbot.ApiKeyVault.Cipher.{
  Crypto, CryptoLaws, SlotBlobV2, derive_key_v2, split_tag, encrypt_v2, decrypt_v2,
}

module _ (c : Crypto) (laws : CryptoLaws c) where
  decrypt_v2-split_tag :
      (iv key out : Bytes) (secret plain salt : String)
      → derive_key_v2 c secret salt ≡ some key
      → c.encrypt key iv (c.as_bytes plain) ≡ some out
      → decrypt_v2 c secret (split_tag c iv out) salt ≡ some plain
  unfolding decrypt_v2 split_tag
  decrypt_v2-split_tag iv key out secret plain salt ek eo =
      simp (ek, laws.hex, take-drop, laws.decrypts key iv _ out eo, laws.utf8)

  pub decrypt_v2-encrypt_v2 :
      (iv : Bytes) (secret plain salt : String) (blob : SlotBlobV2)
      → encrypt_v2 c iv secret plain salt ≡ some blob
      → decrypt_v2 c secret blob salt ≡ some plain
  unfolding encrypt_v2
  decrypt_v2-encrypt_v2 iv secret plain salt blob h =
      let (key, ek, h1) = bind-some (derive_key_v2 c secret salt) _ blob h in
      let (out, eo, h2) = bind-some (c.encrypt key iv (c.as_bytes plain)) _ blob h1 in
      let same : split_tag c iv out ≡ blob = cc in
      subst (λ b. decrypt_v2 c secret b salt ≡ some plain) same
        (decrypt_v2-split_tag iv key out secret plain salt ek eo)

  pub encrypt_v2-succeeds :
      (iv : Bytes) (secret plain salt : String) (bytes : Bytes)
      → c.hex_decode salt ≡ some bytes
      → (blob : SlotBlobV2) × (encrypt_v2 c iv secret plain salt ≡ some blob)
  unfolding encrypt_v2 derive_key_v2
  encrypt_v2-succeeds iv secret plain salt bytes h =
      let (key, ek) =
        is_some-value (c.scrypt 14 8 1 (c.as_bytes secret) bytes) (laws.valid_parameters _ bytes) in
      let (out, eo) =
        is_some-value (c.encrypt key iv (c.as_bytes plain)) (laws.encrypts key iv _) in
      (split_tag c iv out, simp (h, ek, eo))
