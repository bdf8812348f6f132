-- ===== src/Config/Migrate/Tests.antt =====
-- Witnesses for the properties of the migration: a list with a password in the clear and a key of
-- the store's own.
use tui_ssh_client.Prelude.{◌≡◌, refl, true, false, [], ◌∷◌, none, some, All, ◌⊎◌}
use tui_ssh_client.Config.Writes.{and_then, become, states, stop}
use tui_ssh_client.Prelude.Text.{Text, codes, text_eq, has_prefix, split, join}
use tui_ssh_client.Config.VaultFile.Sample.{sample, sample-Promises}
use tui_ssh_client.Config.VaultFile.{
  write_cipher, save_secrets, load_secrets, loaded, versioned, encrypt,
}
use tui_ssh_client.Model.Server.{auth_password, Server}
use tui_ssh_client.Config.Migrate.Scan.{over, last_password, entries}
use tui_ssh_client.Config.Migrate.Kept.{migrate_keeps_secrets}
use tui_ssh_client.Config.Migrate.Gone.{migrate_leaves_none}
use tui_ssh_client.Config.Store.{holding, owns_key, load, save}
use tui_ssh_client.Config.Migrate.{
  Home, MigrateCalls, Plaintext, migrate, move_if, move_secrets, start, back_up, fill, has_bytes,
  seal_vault, after_seal, any, finish_move, rewrite_list, rewrite, after_save, decoded, remove_keys,
  unmark,
}
use tui_ssh_client.Config.Migrate.Find.{
  scan_plaintext, scan_all, scan_entry, take_password, take_key,
}
use tui_ssh_client.Prelude.Dict.{lookup, insert}
use tui_ssh_client.Vault.Secrets.{Secrets, password, or_empty}
use tui_ssh_client.Config.Migrate.Steps.{IsCleanList}
use tui_ssh_client.Prelude.Path.{join_path, clean}
use tui_ssh_client.Config.Fixture.{web, system, vault_calls}

abbrev key_path : Text
key_path = codes "/home/u/.config/ssh-client/keys/k1.pem"

abbrev old_web : Server
old_web = record web { auth = auth_password; password = codes "secret"; key_path = key_path }

abbrev home : Home
home = record {
  listing = holding (old_web ∷ []);
  backup = none;
  vault = none;
  key_files = (key_path, codes "PEM") ∷ [];
  warned = true;
}

abbrev calls : MigrateCalls
calls = record {
  read = true;
  bytes = true;
  write_backup = true;
  chmod_backup = true;
  vault = vault_calls;
  list = system;
  decodes = true;
  removes = λ p. true;
  unmarks = true;
}

abbrev found : Plaintext
found = record {
  passwords = (codes "s1", codes "secret") ∷ [];
  keys = (codes "s1", codes "PEM") ∷ [];
  key_files = (codes "s1", key_path) ∷ [];
}

abbrev none_yet : Secrets
none_yet = record { version = 1; passwords = []; keys = []; key_pass = []; github = none }

abbrev pass : Text
pass = codes "passphrase"

scanned : scan_plaintext system (λ p. true) home ≡ (found, none)
unfolding scan_plaintext scan_all scan_entry take_password take_key owns_key join_path clean text_eq
    has_prefix split join lookup insert
scanned = refl

-- The key file is not removed, and the move stops there.
abbrev stuck : MigrateCalls
stuck = record calls { removes = λ p. false }

migrate_keeps_secrets_example :
    All
      (λ x.
        (x.listing ≡ home.listing) × (x.key_files ≡ home.key_files) × (x.vault ≡ home.vault)
        ⊎ (t : Secrets) × (load_secrets sample true pass x.vault ≡ loaded t)
          × (password t (codes "s1")
              ≡ over
                  (last_password (codes "s1") (entries home.listing))
                  (password none_yet (codes "s1")))
          × (or_empty (lookup (codes "s1") t.keys)
              ≡ over
                  (lookup (codes "s1") found.keys)
                  (or_empty (lookup (codes "s1") none_yet.keys))))
      (states (migrate sample stuck found (some none_yet) pass home))
migrate_keeps_secrets_example =
    migrate_keeps_secrets system (λ p. true) sample stuck none_yet pass home found (codes "s1")
      sample-Promises scanned refl

went_through : (migrate sample calls found (some none_yet) pass home).err ≡ none
unfolding migrate move_if move_secrets start back_up seal_vault after_seal save_secrets write_cipher
    encrypt finish_move rewrite_list rewrite after_save decoded load save remove_keys unmark any
    become stop and_then sample
went_through = refl

migrate_leaves_none_example :
    IsCleanList found (migrate sample calls found (some none_yet) pass home).now.listing
    × All
        (λ e.
          lookup e.1 (migrate sample calls found (some none_yet) pass home).now.key_files ≡ none)
        found.key_files
    × (load_secrets sample true pass
          (migrate sample calls found (some none_yet) pass home).now.vault
        ≡ loaded (versioned (fill found none_yet)))
    × ((has_bytes calls home.listing ≡ false)
        ⊎ ((migrate sample calls found (some none_yet) pass home).now.backup ≡ some home.listing))
unfolding any
migrate_leaves_none_example =
    migrate_leaves_none sample calls found none_yet pass home sample-Promises refl went_through
