-- ===== src/ApiKeyVault/File/Migration.antt =====
-- The migration of an older file keeps what every slot reads as.
use girasolbot.Prelude.{
  ◌≡◌, refl, is_some, true, Option, none, some, [], ◌∷◌, String, Bytes, str_eq, if◌then◌else◌,
  arith, eq_iff, ◌∙◌, sym, ap, Bool-cases, inl, inr,
}
use girasolbot.Prelude.Options.{◌>>=◌, ◌or_else◌, or_else-none}
use girasolbot.Prelude.Dict
use girasolbot.Prelude.Dict.{Dict, get-insert, HasUniqueKeys}
use girasolbot.ApiKeyVault.Cipher.{
  Crypto, CryptoLaws, SlotBlobV2, encrypt_v2, decrypt_v2, decrypt_legacy_scrypt,
}
use girasolbot.ApiKeyVault.Cipher.Entries.{decrypt_v2-encrypt_v2, encrypt_v2-succeeds}
use girasolbot.ApiKeyVault.File.{
  VaultFileAny, v2, v1_rust, v1_ts, Draws, read_slot, migrate_slot, migrate_slots, old_rust,
  migrate, empty_v2, supported, vault_version_v2,
}

-- A file as the vault writes it: the second format with its own parameters and a salt in hex, or an
-- older one, each of whose maps has one entry for a key.
abbrev pub IsFile : Crypto → VaultFileAny → Type 0
IsFile c (v2 v) =
    (v.version ≡ vault_version_v2) × (supported v ≡ true) × (is_some (c.hex_decode v.salt) ≡ true)
IsFile c (v1_rust v) = HasUniqueKeys v.entries
IsFile c (v1_ts v) = HasUniqueKeys v.entries

module _ (c : Crypto) (laws : CryptoLaws c) (d : Draws) (secret salt : String) where
  -- What a map of entries holds for a slot.
  unfoldable pub entry_of : Dict SlotBlobV2 → String → Option String
  entry_of slots k = do blob ← Dict.get slots k; decrypt_v2 c secret blob salt

  pub entry_of-insert :
      (slots : Dict SlotBlobV2) (slot k plain : String) (iv : Bytes) (blob : SlotBlobV2)
      → encrypt_v2 c iv secret plain salt ≡ some blob
      → entry_of (Dict.insert slots slot blob) k
        ≡ (if str_eq slot k then some plain else entry_of slots k)
  unfolding entry_of
  entry_of-insert slots slot k plain iv blob h = grind (
    arith,
    get-insert slots slot k blob,
    decrypt_v2-encrypt_v2 c laws iv secret plain salt blob h,
  )

  module _ (bytes : Bytes) (decodes : c.hex_decode salt ≡ some bytes) where
    entry_of-migrate_slot :
        (slots : Dict SlotBlobV2) (slot k : String) (o : Option String)
        → entry_of (migrate_slot c d secret salt slots slot o) k
          ≡ (if str_eq slot k then o or_else entry_of slots k else entry_of slots k)
    unfolding migrate_slot
    entry_of-migrate_slot slots slot k none = ground arith
    entry_of-migrate_slot slots slot k (some plain) =
        let (blob, e) =
          encrypt_v2-succeeds c laws (d.migrated_iv slot) secret plain salt bytes decodes in
        rw e (entry_of-insert slots slot k plain (d.migrated_iv slot) blob e)

    entry_of-migrate_slots :
        (old : String → String → Option String) (slots : Dict SlotBlobV2) (m : Dict String)
        (k : String)
        → HasUniqueKeys m
        → entry_of (migrate_slots c d secret salt old slots m) k
          ≡ ((do blob ← Dict.get m k; old k blob) or_else entry_of slots k)
    unfolding migrate_slots Dict.get
    entry_of-migrate_slots old slots [] k u = refl
    entry_of-migrate_slots old slots ((slot, blob) ∷ m) k u =
        let next = migrate_slot c d secret salt slots slot (old slot blob) in
        let here = entry_of-migrate_slot slots slot k (old slot blob) in
        let later = entry_of-migrate_slots old next m k u.1 in
        later ∙ elim (Bool-cases (str_eq slot k)) [
          | inl e ↦
              let same : slot ≡ k = (eq_iff slot k).0 e in
              let absent : Dict.get m k ≡ none = rw (sym same) u.0 in
              rw (here, e, absent) (ap (λ s. old s blob or_else entry_of slots k) same)
          | inr e ↦ rw (here, e) refl
        ]

    -- From an empty map, each slot reads as it did.
    pub entry_of-migrated :
        (old : String → String → Option String) (m : Dict String) (k : String)
        → HasUniqueKeys m
        → entry_of (migrate_slots c d secret salt old [] m) k ≡ (do blob ← Dict.get m k; old k blob)
    unfolding entry_of Dict.get
    entry_of-migrated old m k u = entry_of-migrate_slots old [] m k u ∙ or_else-none _

-- A migrated file reads as the file did, at every slot.
pub read_slot-migrate :
    (c : Crypto) (laws : CryptoLaws c) (d : Draws) (secret : String) (file : VaultFileAny)
    (k : String)
    → IsFile c file
    → read_slot c (v2 (migrate c d secret file)) secret k ≡ read_slot c file secret k
unfolding migrate read_slot entry_of old_rust empty_v2
read_slot-migrate c laws d secret (v2 v) k u = refl
read_slot-migrate c laws d secret (v1_rust v) k u =
    entry_of-migrated c laws d secret (c.hex_encode d.new_salt) d.new_salt (laws.hex _)
      (old_rust c secret v.salts) v.entries k u
read_slot-migrate c laws d secret (v1_ts v) k u =
    entry_of-migrated c laws d secret (c.hex_encode d.new_salt) d.new_salt (laws.hex _)
      (λ slot blob. decrypt_legacy_scrypt c secret blob v.salt) v.entries k u

pub migrate-IsFile :
    (c : Crypto) (laws : CryptoLaws c) (d : Draws) (secret : String) (file : VaultFileAny)
    → IsFile c file
    → IsFile c (v2 (migrate c d secret file))
unfolding migrate empty_v2 supported
migrate-IsFile c laws d secret (v2 v) h = h
migrate-IsFile c laws d secret (v1_rust v) h = (refl, refl, simp (laws.hex))
migrate-IsFile c laws d secret (v1_ts v) h = (refl, refl, simp (laws.hex))
