-- ===== src/Config/Migrate.antt =====
-- internal/config/migrate.go: ScanPlaintext and Migrate, the move of secrets that are in the clear
-- into the vault. Inject is in Vault/Secrets.
pub mod Find
pub mod Scan
pub mod Trace
pub mod Steps
pub mod Kept
pub mod Gone
pub mod Tests
use tui_ssh_client.Prelude.{
  ℕ, ◌≡◌, Bool, true, false, not, ◌&&◌, ◌||◌, List, [], ◌∷◌, Option, none, some, map, length,
  if◌then◌else◌,
}
use tui_ssh_client.Config.Writes.{Writes, and_then, become, stop}
use tui_ssh_client.Prelude.Text.{Text, is_empty}
use tui_ssh_client.Prelude.Dict.{Dict, lookup, insert, erase}
use tui_ssh_client.Model.Server.{Server}
use tui_ssh_client.Vault.Secrets.{Secrets, set_password, set_key}
use tui_ssh_client.Config.Store.{
  ServersFile, absent, blank, unparsable, holding, Disk, System, StoreError, Result, failed, ok,
  load, stored, save, owns_key,
}
use tui_ssh_client.Config.VaultFile.{Outside, VaultCalls, VaultError, save_secrets}

-- The files: the list, with the passwords that an old one has in the clear, the copy of it, the
-- vault, the private keys by their paths, and the mark that the warning was shown.
pub record Home : Type 0 where
  pub listing : ServersFile
  pub backup : Option ServersFile
  pub vault : Option Text
  pub key_files : Dict Text
  pub warned : Bool

pub record Plaintext : Type 0 where
  pub passwords : Dict Text
  pub keys : Dict Text
  pub key_files : Dict Text

pub data MigrateError : Type 0 where
  list_not_read list_not_parsed nothing_to_fill not_backed_up backup_not_protected : MigrateError
  key_not_read key_not_removed : Text → MigrateError
  not_sealed : VaultError → MigrateError
  list_failed : StoreError → MigrateError

abbrev pub no_plaintext : Plaintext
no_plaintext = record { passwords = []; keys = []; key_files = [] }

abbrev filled : Dict Text → Bool
filled [] = false
filled (e ∷ m) = true

-- (p Plaintext) Any
unfoldable pub any : Plaintext → Bool
any p = filled p.passwords || filled p.keys

-- Whether each call succeeds: `bytes` whether a blank file has any, `decodes` whether a list
-- that has entries also decodes as such, `removes` whether os.Remove gives no error but that the file is missing.
pub record MigrateCalls : Type 0 where
  pub read : Bool
  pub bytes : Bool
  pub write_backup : Bool
  pub chmod_backup : Bool
  pub vault : VaultCalls
  pub list : System
  pub decodes : Bool
  pub removes : Text → Bool
  pub unmarks : Bool

-- MigrateReport, by whether there is a backup.
pub record Report : Type 0 where
  pub passwords : ℕ
  pub keys : ℕ
  pub backed_up : Bool

-- The files as they were after each change, and the secrets if there are any.
abbrev pub Run : Type 0
Run = Writes Home Report (Option Secrets) MigrateError

abbrev pub is_absent : ServersFile → Bool
is_absent absent = true
is_absent _ = false

-- len(raw) > 0
abbrev pub has_bytes : MigrateCalls → ServersFile → Bool
has_bytes c absent = false
has_bytes c blank = c.bytes
has_bytes c _ = true

-- 1. A copy of the list.
unfoldable pub back_up : MigrateCalls → Run → Run
unfolding become stop
back_up c r =
    if not c.read && not (is_absent r.now.listing)
    then stop list_not_read r
    else if not (has_bytes c r.now.listing)
    then r
    else if not c.write_backup
    then stop not_backed_up r
    else if not c.chmod_backup
    then stop backup_not_protected (become (record r.now { backup = some r.now.listing }) r)
    else record (become (record r.now { backup = some r.now.listing }) r) {
      report = record r.report { backed_up = true };
    }

-- The loops that fill the secrets. Go leaves the order of a map open; here the last goes first.
unfoldable pub set_passwords : Dict Text → Secrets → Secrets
set_passwords [] s = s
set_passwords ((id, pw) ∷ m) s = set_password (set_passwords m s) id pw

unfoldable pub set_keys : Dict Text → Secrets → Secrets
set_keys [] s = s
set_keys ((id, pem) ∷ m) s = set_key (set_keys m s) id pem

unfoldable pub fill : Plaintext → Secrets → Secrets
unfolding set_passwords set_keys
fill pt s = set_keys pt.keys (set_passwords pt.passwords s)

after_seal : Plaintext → Option Text × Option VaultError → Run → Run
unfolding become stop
after_seal pt (file, some e) r = stop (not_sealed e) r
after_seal pt (file, none) r = record (become (record r.now { vault = file }) r) {
  report = record r.report { passwords = length pt.passwords; keys = length pt.keys };
}

-- 2. The vault is filled and sealed.
unfoldable pub seal_vault : Outside → MigrateCalls → Plaintext → Secrets → Text → Run → Run
unfolding after_seal
seal_vault o c pt s pass r =
    after_seal pt (save_secrets o c.vault (fill pt s) pass r.now.vault)
      (record r { secrets = some (fill pt s) })

-- KeyPath = "" where the key has moved.
unfoldable pub clear_moved : Plaintext → Server → Server
clear_moved pt s = elim (lookup s.id pt.keys) [ none ↦ s | some pem ↦ record s { key_path = [] } ]

after_save : Disk × Option StoreError → Run → Run
unfolding become stop
after_save (d, some e) r = stop (list_failed e) r
after_save (d, none) r = become (record r.now { listing = d.servers }) r

-- Load, which does not read passwords.
decoded : Bool → Result (List Server) → Result (List Server)
decoded b (failed e) = failed e
decoded b (ok ss) = if b then ok (map stored ss) else failed StoreError.not_parsed

rewrite : MigrateCalls → Plaintext → Result (List Server) → Run → Run
unfolding after_save stop
rewrite c pt (failed e) r = stop (list_failed e) r
rewrite c pt (ok ss) r =
    after_save
      (save c.list (map (clear_moved pt) ss) (record { servers = r.now.listing; keys = [] })) r

-- 3. The list is written without the secrets.
unfoldable pub rewrite_list : MigrateCalls → Plaintext → Run → Run
unfolding rewrite decoded
rewrite_list c pt r = rewrite c pt (decoded c.decodes (load c.list r.now.listing)) r

-- 4. The key files go.
unfoldable pub remove_keys : MigrateCalls → Dict Text → Run → Run
unfolding become stop
remove_keys c [] r = r
remove_keys c ((id, path) ∷ m) r =
    if not (c.removes path)
    then stop (key_not_removed path) r
    else remove_keys c m (become (record r.now { key_files = erase path r.now.key_files }) r)

-- The mark of the warning goes; an error of this is ignored.
unfoldable pub unmark : MigrateCalls → Run → Run
unfolding become
unmark c r = if c.unmarks then become (record r.now { warned = false }) r else r

unfoldable pub start : Option Secrets → Home → Run
start sec h = record {
  now = h;
  past = [];
  report = record { passwords = 0; keys = 0; backed_up = false };
  secrets = sec;
  err = none;
}

-- What comes once the vault is sealed.
unfoldable pub finish_move : MigrateCalls → Plaintext → Run → Run
unfolding and_then
finish_move c pt r2 =
    and_then (rewrite_list c pt r2) (λ r3. and_then (remove_keys c pt.key_files r3) (unmark c))

unfoldable pub move_secrets : Outside → MigrateCalls → Plaintext → Secrets → Text → Run → Run
unfolding and_then finish_move
move_secrets o c pt s pass r0 =
    and_then (back_up c r0) (λ r1. and_then (seal_vault o c pt s pass r1) (finish_move c pt))

move_if : Outside → MigrateCalls → Plaintext → Option Secrets → Text → Run → Run
unfolding move_secrets stop
move_if o c pt none pass r = stop nothing_to_fill r
move_if o c pt (some s) pass r = move_secrets o c pt s pass r

-- (s *Store) Migrate
unfoldable pub migrate : Outside → MigrateCalls → Plaintext → Option Secrets → Text → Home → Run
unfolding move_if
migrate o c pt sec pass h =
    let r = start sec h in if not (any pt) then r else move_if o c pt sec pass r
