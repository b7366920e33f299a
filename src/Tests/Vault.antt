-- ===== src/Tests/Vault.antt =====
-- Tests of the key vault.

use girasolbot.Prelude.{
  ◌≡◌, refl, true, some, none, Option, [], ◌∷◌, String, replicate, str_eq, if◌then◌else◌,
}
use girasolbot.Prelude.Options.{◌>>=◌, ◌or_else◌}
use girasolbot.Prelude.Texts.{trim, collect, chars}
use girasolbot.ApiKeyVault.Slots.{find_slot, ApiKeySlot, find_in, tips, solana}
use girasolbot.ApiKeyVault.Cipher.{encrypt_v2}
use girasolbot.ApiKeyVault.File.{Draws, empty_v2, supported}
use girasolbot.ApiKeyVault.File.Migration.{IsFile}
use girasolbot.ApiKeyVault.Store.{
  Disk, Io, complete, broken, done, non_empty, load, known_secret, set_api_key, get_api_key,
  mask_secret,
}
use girasolbot.ApiKeyVault.Store.Refinement.{set_api_key-updates, updated, in_vault}
use girasolbot.ApiKeyVault.Store.Failure.{set_api_key-failed}
use girasolbot.ApiKeyVault.Store.Masked.{mask_secret-hides}
use girasolbot.Tests.Toy.Files.{json, formats, formats_laws, crypto, crypto_laws}

abbrev draws : Draws
draws = record {
  new_secret = replicate 32 7;
  new_salt = replicate 32 5;
  new_iv = replicate 12 3;
  migrated_iv = λ slot. replicate 12 2;
}

abbrev io : Io
io = record { dir_ok = true; secret = complete; temp = complete; rename_ok = true }

abbrev full_disk : Io
full_disk = record { dir_ok = true; secret = complete; temp = broken (some "{"); rename_ok = true }

abbrev disk : Disk
disk = record {
  passphrase = some " pass ";
  secret_file = none;
  vault_file = none;
  temp_file = none;
}

abbrev old_disk : Disk
old_disk = record disk { vault_file = some "old" }

abbrev env : String → Option String
env name = if str_eq name "HELIUS_API_KEY" then some "shared" else none

trimmed : trim "  a key \n" ≡ "a key"
unfolding trim
trimmed = refl

abbrev jito : ApiKeySlot
jito = record {
  id = "jito";
  label = "Jito Block Engine";
  purpose = "SWQoS submission via block engine (config swqos_jito_url)";
  signup_url = "https://jito.wtf";
  pricing = tips;
  env_var = "SNIPER_JITO_URL";
  placeholder = "https://<region>.mainnet.block-engine.jito.wtf";
  network = solana;
}

jito_found : find_slot "jito" ≡ some jito
unfolding find_in
jito_found = refl

secret_found : known_secret disk ≡ some "pass"
unfolding non_empty trim
secret_found = refl

disk-IsFile : IsFile crypto (load json formats crypto io draws disk)
unfolding load crypto empty_v2 supported
disk-IsFile = (refl, refl, refl)

set_api_key-updates_example :
    let after = set_api_key json formats crypto io draws disk "jito" " key " in
    (after.1 ≡ done)
    × ((k : String)
        → (get_api_key json formats crypto io draws env after.0 k).1 ≡ (
            updated "jito" " key " (in_vault json formats crypto io draws disk k) k
            or_else (do found ← find_slot k; non_empty (env found.env_var))))
    × (known_secret after.0 ≡ some "pass")
    × IsFile crypto (load json formats crypto io draws after.0)
set_api_key-updates_example =
    set_api_key-updates json formats formats_laws crypto crypto_laws io draws env disk "jito"
      " key " "pass" jito jito_found secret_found (refl, refl, refl) disk-IsFile

set_api_key-failed_example :
    (set_api_key json formats crypto full_disk draws old_disk "jito" "key").0.vault_file
    ≡ some "old"
unfolding set_api_key find_in non_empty trim encrypt_v2 crypto formats
set_api_key-failed_example =
    set_api_key-failed json formats crypto full_disk draws old_disk "jito" "key" refl

masked : mask_secret " abcdefghij " ≡ "ab…ghij"
unfolding collect trim chars
masked = mask_secret-hides "a" "b" "g" "h" "i" "j" ("c" ∷ "d" ∷ "e" ∷ "f" ∷ []) " abcdefghij " refl
