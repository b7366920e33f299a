-- ===== src/ApiKeyVault/Store/Refinement.antt =====
-- The vault as a map from slots to keys: what `set_api_key` does to what `get_api_key` reads.
use mathlib.Core.Path.{subst}
use girasolbot.Prelude.{
  ◌≡◌, refl, sym, ap, ◌∙◌, true, false, Option, none, some, String, str_eq, if◌then◌else◌, arith,
  inl, inr, Bool-cases,
}
use girasolbot.Prelude.Options.{◌>>=◌, ◌or_else◌, is_some-value}
use girasolbot.Prelude.Texts.{trim, is_empty}
use girasolbot.Prelude.Dict
use girasolbot.Prelude.Dict.{get-remove}
use girasolbot.Json.{Json}
use girasolbot.ApiKeyVault.Slots.{ApiKeySlot, find_slot}
use girasolbot.ApiKeyVault.Cipher.{Crypto, CryptoLaws, SlotBlobV2, encrypt_v2}
use girasolbot.ApiKeyVault.Cipher.Entries.{encrypt_v2-succeeds}
use girasolbot.ApiKeyVault.File.{
  VaultFileV2, VaultFileAny, v2, Formats, FormatsLaws, Draws, parse, read_slot, migrate, supported,
}
use girasolbot.ApiKeyVault.File.Migration.{
  IsFile, entry_of, entry_of-insert, read_slot-migrate, migrate-IsFile,
}
use girasolbot.ApiKeyVault.Store.{
  Disk, Io, complete, Answer, done, known_secret, non_empty, load, load_secret, save, set_entry,
  set_api_key, from_vault, get_api_key, load_or_migrate,
}

abbrev pub AllWrites : Io → Type 0
AllWrites io = (io.dir_ok ≡ true) × (io.temp ≡ complete) × (io.rename_ok ≡ true)

-- The abstract view: what the map of keys holds after a write of `value` to `slot`.
abbrev pub updated : String → String → Option String → String → Option String
updated slot value before k =
    if str_eq slot k then (if is_empty (trim value) then none else some (trim value)) else before

module _ (j : Json) (f : Formats j) (c : Crypto) (io : Io) (d : Draws) where
  -- What the vault holds for a slot under the secret at hand.
  abbrev pub in_vault : Disk → String → Option String
  in_vault disk k = from_vault j f c io d (load_secret j f c io d disk) k

module _ (j : Json) (f : Formats j) (flaws : FormatsLaws j f) (c : Crypto) (laws : CryptoLaws c)
    (io : Io) (d : Draws) where
  parse-written :
      (v : VaultFileV2) (text : String)
      → IsFile c (v2 v)
      → f.to_string_pretty v ≡ some text
      → parse j f text ≡ some (v2 v)
  unfolding parse
  parse-written v text h e =
      let (raw, er, ev, en) = flaws.reads_back v text e in simp (er, ev, en, h.0, h.1)

  written : Disk → String → Disk
  written disk text = record disk { vault_file = some text; temp_file = none }

  save-written :
      (disk : Disk) (v : VaultFileV2) (text : String)
      → AllWrites io
      → f.to_string_pretty v ≡ some text
      → save j f c io d disk v ≡ (written disk text, done)
  unfolding save written
  save-written disk v text ok e = grind arith

  load-written :
      (disk : Disk) (v : VaultFileV2) (text : String)
      → IsFile c (v2 v)
      → f.to_string_pretty v ≡ some text
      → load j f c io d (written disk text) ≡ v2 v
  unfolding load written
  load-written disk v text h e = rw (parse-written v text h e) refl

  -- What an operation leaves: it is done, the next load gives the file, and the secret is the same.
  abbrev Leaves : Disk → VaultFileV2 → Disk × Answer → Type 0
  Leaves disk v r =
      (r.1 ≡ done) × (load j f c io d r.0 ≡ v2 v) × (known_secret r.0 ≡ known_secret disk)

  save-Leaves :
      (disk : Disk) (v : VaultFileV2)
      → AllWrites io
      → IsFile c (v2 v)
      → Leaves disk v (save j f c io d disk v)
  unfolding written
  save-Leaves disk v ok h =
      let (text, e) = is_some-value (f.to_string_pretty v) (flaws.writes v) in
      subst (Leaves disk v) (sym (save-written disk v text ok e))
        (refl, load-written disk v text h e, refl)

  abbrev IsUpdate : VaultFileAny → String → String → String → VaultFileV2 → Type 0
  IsUpdate file secret slot value w =
      IsFile c (v2 w)
      × ((k : String)
          → read_slot c (v2 w) secret k ≡ updated slot value (read_slot c file secret k) k)

  removed-IsUpdate :
      (file : VaultFileAny) (secret slot value : String)
      → IsFile c file
      → is_empty (trim value) ≡ true
      → let v = migrate c d secret file in
        IsUpdate file secret slot value (record v { slots = Dict.remove v.slots slot })
  unfolding read_slot supported
  removed-IsUpdate file secret slot value h empty =
      let v = migrate c d secret file in
      (
        migrate-IsFile c laws d secret file h,
        λ k.
            let same = read_slot-migrate c laws d secret file k h in
            let removed = get-remove v.slots slot k in
            elim (Bool-cases (str_eq slot k)) [
              | inl e ↦ rw (removed, e, empty) refl
              | inr e ↦ rw (removed, e) same
            ],
      )

  inserted-IsUpdate :
      (file : VaultFileAny) (secret slot value : String) (blob : SlotBlobV2)
      → IsFile c file
      → is_empty (trim value) ≡ false
      → let v = migrate c d secret file in
        encrypt_v2 c d.new_iv secret (trim value) v.salt ≡ some blob
        → IsUpdate file secret slot value (record v { slots = Dict.insert v.slots slot blob })
  unfolding read_slot entry_of supported
  inserted-IsUpdate file secret slot value blob h full encrypted =
      let v = migrate c d secret file in
      (
        migrate-IsFile c laws d secret file h,
        λ k.
            let same = read_slot-migrate c laws d secret file k h in
            let inserted =
              entry_of-insert c laws d secret v.salt v.slots slot k (trim value) d.new_iv blob
                encrypted in
            elim (Bool-cases (str_eq slot k)) [
              | inl e ↦ inserted ∙ rw (e, full) refl
              | inr e ↦ inserted ∙ rw (e) same
            ],
      )

  set_entry-removes :
      (disk : Disk) (secret slot value : String)
      → is_empty (trim value) ≡ true
      → let v = migrate c d secret (load j f c io d disk) in
        set_entry j f c io d disk secret slot value
        ≡ save j f c io d disk (record v { slots = Dict.remove v.slots slot })
  unfolding set_entry load_or_migrate
  set_entry-removes disk secret slot value empty = rw empty refl

  set_entry-inserts :
      (disk : Disk) (secret slot value : String) (blob : SlotBlobV2)
      → is_empty (trim value) ≡ false
      → let v = migrate c d secret (load j f c io d disk) in
        encrypt_v2 c d.new_iv secret (trim value) v.salt ≡ some blob
        → set_entry j f c io d disk secret slot value
          ≡ save j f c io d disk (record v { slots = Dict.insert v.slots slot blob })
  unfolding set_entry load_or_migrate
  set_entry-inserts disk secret slot value blob full e = rw (full, e) refl

  -- A write that meets no error leaves an updated file.
  set_entry-updates :
      (disk : Disk) (secret slot value : String)
      → AllWrites io
      → IsFile c (load j f c io d disk)
      → (w : VaultFileV2) × IsUpdate (load j f c io d disk) secret slot value w
        × Leaves disk w (set_entry j f c io d disk secret slot value)
  set_entry-updates disk secret slot value ok h =
      let file = load j f c io d disk in
      let v = migrate c d secret file in
      let sound = migrate-IsFile c laws d secret file h in
      elim (Bool-cases (is_empty (trim value))) [
        | inl empty ↦
            let w = record v { slots = Dict.remove v.slots slot } in
            let update = removed-IsUpdate file secret slot value h empty in
            (
              w,
              update,
              subst (Leaves disk w) (sym (set_entry-removes disk secret slot value empty))
                  (save-Leaves disk w ok update.0),
            )
        | inr full ↦
            let (bytes, decodes) = is_some-value (c.hex_decode v.salt) sound.2 in
            let (blob, e) =
              encrypt_v2-succeeds c laws d.new_iv secret (trim value) v.salt bytes decodes in
            let w = record v { slots = Dict.insert v.slots slot blob } in
            let update = inserted-IsUpdate file secret slot value blob h full e in
            (
              w,
              update,
              subst (Leaves disk w) (sym (set_entry-inserts disk secret slot value blob full e))
                  (save-Leaves disk w ok update.0),
            )
      ]

  load_secret-known :
      (disk : Disk) (secret : String)
      → known_secret disk ≡ some secret
      → load_secret j f c io d disk ≡ (disk, some secret)
  unfolding load_secret
  load_secret-known disk secret e = grind arith

  set_api_key-set_entry :
      (disk : Disk) (slot value secret : String) (s : ApiKeySlot)
      → find_slot slot ≡ some s
      → known_secret disk ≡ some secret
      → set_api_key j f c io d disk slot value ≡ set_entry j f c io d disk secret slot value
  unfolding set_api_key
  set_api_key-set_entry disk slot value secret s es e =
      grind (arith, load_secret-known disk secret e)

  in_vault-known :
      (disk : Disk) (secret k : String)
      → known_secret disk ≡ some secret
      → in_vault j f c io d disk k ≡ read_slot c (load j f c io d disk) secret k
  unfolding from_vault
  in_vault-known disk secret k e = rw (load_secret-known disk secret e) refl

  -- With a secret in place and no write that fails, `set_api_key` on a slot of the catalog is done,
  -- and is the update of a map: what `get_api_key` returns for every slot afterwards is the new key
  -- without white space for that slot, what the vault held before for any other, and the variable of
  -- the environment where the vault holds nothing, as it does for a slot set to a blank text. That
  -- holds whatever the layout of the file before; the file afterwards is again one of the vault's.
  pub set_api_key-updates :
      (env : String → Option String) (disk : Disk) (slot value secret : String) (s : ApiKeySlot)
      → find_slot slot ≡ some s
      → known_secret disk ≡ some secret
      → AllWrites io
      → IsFile c (load j f c io d disk)
      → let after = set_api_key j f c io d disk slot value in
        (after.1 ≡ done)
        × ((k : String)
            → (get_api_key j f c io d env after.0 k).1 ≡ (
                updated slot value (in_vault j f c io d disk k) k
                or_else (do found ← find_slot k; non_empty (env found.env_var))))
        × (known_secret after.0 ≡ some secret)
        × IsFile c (load j f c io d after.0)
  unfolding get_api_key
  set_api_key-updates env disk slot value secret s es e ok h =
      let (w, update, left) = set_entry-updates disk secret slot value ok h in
      let same = set_api_key-set_entry disk slot value secret s es e in
      let (finished, loaded, kept) = subst (Leaves disk w) (sym same) left in
      let after = (set_api_key j f c io d disk slot value).0 in
      let still : known_secret after ≡ some secret = kept ∙ e in
      (
        finished,
        λ k.
            let reads : in_vault j f c io d after k
                ≡ updated slot value (in_vault j f c io d disk k) k =
              in_vault-known after secret k still
              ∙ ap (λ file. read_slot c file secret k) loaded
              ∙ update.1 k
              ∙ ap (λ before. updated slot value before k) (sym (in_vault-known disk secret k e)) in
            ap (λ o. o or_else (do found ← find_slot k; non_empty (env found.env_var))) reads,
        still,
        subst (IsFile c) (sym loaded) update.0,
      )
