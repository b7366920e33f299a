-- ===== src/ApiKeyVault/Store/Failure.antt =====
-- What `set_api_key` leaves alone where it fails.
use girasolbot.Prelude.{◌≡◌, refl, false, Option, none, some, String, arith}
use girasolbot.Json.{Json}
use girasolbot.ApiKeyVault.Cipher.{Crypto}
use girasolbot.ApiKeyVault.File.{VaultFileV2, Formats, Draws}
use girasolbot.ApiKeyVault.Store.{
  Disk, Io, is_done, load_secret, save, set_entry, set_with, set_api_key,
}

module _ (j : Json) (f : Formats j) (c : Crypto) (io : Io) (d : Draws) where
  save-failed :
      (disk : Disk) (v : VaultFileV2)
      → is_done (save j f c io d disk v).1 ≡ false
      → (save j f c io d disk v).0.vault_file ≡ disk.vault_file
  unfolding save
  save-failed disk v h = ground arith

  set_entry-failed :
      (disk : Disk) (secret slot value : String)
      → is_done (set_entry j f c io d disk secret slot value).1 ≡ false
      → (set_entry j f c io d disk secret slot value).0.vault_file ≡ disk.vault_file
  unfolding set_entry
  set_entry-failed disk secret slot value h = ground (arith, save-failed disk)

  set_with-failed :
      (r : Disk × Option String) (slot value : String)
      → is_done (set_with j f c io d r slot value).1 ≡ false
      → (set_with j f c io d r slot value).0.vault_file ≡ r.0.vault_file
  unfolding set_with
  set_with-failed (disk, some secret) slot value h = set_entry-failed disk secret slot value h
  set_with-failed (disk, none) slot value h = refl

  load_secret-vault_file :
      (disk : Disk) → (load_secret j f c io d disk).0.vault_file ≡ disk.vault_file
  unfolding load_secret
  load_secret-vault_file disk = ground arith

  -- A call of `set_api_key` that is not done leaves the vault file as it was, whichever step of it
  -- failed, also where the write of the new text is cut off and leaves a part of it in its file.
  pub set_api_key-failed :
      (disk : Disk) (slot value : String)
      → is_done (set_api_key j f c io d disk slot value).1 ≡ false
      → (set_api_key j f c io d disk slot value).0.vault_file ≡ disk.vault_file
  unfolding set_api_key
  set_api_key-failed disk slot value h =
      ground (
        arith,
        load_secret-vault_file disk,
        set_with-failed (load_secret j f c io d disk) slot value,
      )
