-- ===== src/Config/Migrate/Find.antt =====
-- internal/config/migrate.go, ScanPlaintext: the secrets that are still in the clear.
use tui_ssh_client.Prelude.{Bool, not, List, [], ◌∷◌, Option, none, some, if◌then◌else◌}
use tui_ssh_client.Prelude.Text.{Text, is_empty}
use tui_ssh_client.Prelude.Dict.{Dict, lookup, insert}
use tui_ssh_client.Model.Server.{Server}
use tui_ssh_client.Config.Store.{absent, blank, unparsable, holding, System, owns_key}
use tui_ssh_client.Config.Migrate.{
  Home, Plaintext, no_plaintext, MigrateError, list_not_read, list_not_parsed, key_not_read,
}

-- What os.ReadFile answers for a key file that the store owns, by whether one that exists is read.
unfoldable pub take_key :
    Option Text
    → Bool
    → Server
    → Plaintext
    → (Plaintext → Plaintext × Option MigrateError)
    → Plaintext × Option MigrateError
take_key none reads l pt rest = rest pt
take_key (some body) reads l pt rest =
    if reads
    then rest (record pt {
      keys = insert l.id body pt.keys;
      key_files = insert l.id l.key_path pt.key_files;
    })
    else (pt, some (key_not_read l.key_path))

unfoldable pub take_password : Server → Plaintext → Plaintext
take_password l pt =
    if is_empty l.password
    then pt
    else record pt { passwords = insert l.id l.password pt.passwords }

-- One round of the loop, and then the rest.
unfoldable pub scan_entry :
    System
    → (Text → Bool)
    → Dict Text
    → Server
    → Plaintext
    → (Plaintext → Plaintext × Option MigrateError)
    → Plaintext × Option MigrateError
unfolding take_key take_password
scan_entry y reads files l pt rest =
    if is_empty l.id
    then rest pt
    else if not (owns_key y l.key_path)
    then rest (take_password l pt)
    else take_key (lookup l.key_path files) (reads l.key_path) l (take_password l pt) rest

unfoldable pub scan_all :
    System → (Text → Bool) → Dict Text → List Server → Plaintext → Plaintext × Option MigrateError
unfolding scan_entry
scan_all y reads files [] pt = (pt, none)
scan_all y reads files (l ∷ ls) pt = scan_entry y reads files l pt (scan_all y reads files ls)

-- (s *Store) ScanPlaintext, by which key files can be read.
unfoldable pub scan_plaintext : System → (Text → Bool) → Home → Plaintext × Option MigrateError
unfolding scan_all
scan_plaintext y reads h = elim h.listing [
  | absent ↦ (no_plaintext, none)
  | blank ↦ (no_plaintext, if y.read then none else some list_not_read)
  | unparsable ↦ (no_plaintext, some (if y.read then list_not_parsed else list_not_read))
  | holding ls ↦
      if y.read
      then scan_all y reads h.key_files ls no_plaintext
      else (no_plaintext, some list_not_read)
]
