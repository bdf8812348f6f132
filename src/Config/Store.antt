-- ===== src/Config/Store.antt =====
-- internal/config/store.go: the server list on disk, and the key files that the store owns.
pub mod Kept
pub mod Keys
pub mod RoundTrip
pub mod Tests
use tui_ssh_client.Prelude.{
  ℕ, zero, suc, ◌+◌, Bool, true, false, not, ◌&&◌, ◌||◌, List, [], ◌∷◌, ◌++◌, Option, none, some,
  map, filter_by, if◌then◌else◌,
}
use tui_ssh_client.Prelude.Int.{ℤ, pos}
use tui_ssh_client.Prelude.Path.{clean, join_path}
use tui_ssh_client.Prelude.Text.{Text, codes, text_eq, is_empty, has_prefix}
use tui_ssh_client.Model.Server.{Server, default_port, is_zero}

-- servers.json, by what reading it back gives: encoding/json writes no field that is tagged "-".
pub data ServersFile : Type 0 where
  absent blank unparsable : ServersFile
  holding : List Server → ServersFile

-- `keys` has the paths of the private key files that exist, wherever they are.
pub record Disk : Type 0 where
  pub servers : ServersFile
  pub keys : List Text

-- Whether each call of os succeeds, and the working directory and the store's that paths are
-- relative to.
pub record System : Type 0 where
  pub read : Bool
  pub mkdir : Bool
  pub write : Bool
  pub rename : Bool
  pub remove : Bool
  pub cwd : Text
  pub dir : Text

pub data StoreError : Type 0 where
  not_read not_parsed not_created not_written not_replaced : StoreError
  no_id not_found key_not_removed : StoreError

pub data Result {ℓ} (A : Type ℓ) : Type ℓ where
  failed : StoreError → Result A
  ok : A → Result A

-- (s *Store) Load; a missing file is an empty list.
unfoldable pub load : System → ServersFile → Result (List Server)
load y absent = ok []
load y blank = if y.read then ok [] else failed not_read
load y unparsable = if y.read then failed not_parsed else failed not_read
load y (holding ss) = if y.read then ok ss else failed not_read

-- What the file keeps of an entry.
unfoldable pub stored : Server → Server
stored s = record s { password = []; key_pem = []; key_passphrase = [] }

-- (s *Store) Save: a temporary file is written, and then put in the place of the old one.
unfoldable pub save : System → List Server → Disk → Disk × Option StoreError
save y ss d =
    if not y.mkdir
    then (d, some not_created)
    else if not y.write
    then (d, some not_written)
    else if not y.rename
    then (d, some not_replaced)
    else (record d { servers = holding (map stored ss) }, none)

with_port : Server → Server
with_port s = if is_zero s.port then record s { port = default_port } else s

-- The entry with the id and the port that it gets where it has none.
unfoldable pub completed : Text → Server → Server
unfolding with_port
completed uuid s = with_port (if is_empty s.id then record s { id = uuid } else s)

abbrev report {ℓ} : {A : Type ℓ} → A → Disk × Option StoreError → Disk × Result A
report a (d, none) = (d, ok a)
report a (d, some e) = (d, failed e)

add_to : System → Server → Result (List Server) → Disk → Disk × Result Server
add_to y s (failed e) d = (d, failed e)
add_to y s (ok ss) d = report s (save y (ss ++ s ∷ []) d)

-- (s *Store) Add, with the uuid that is made for an entry without an id.
unfoldable pub add : System → Text → Server → Disk → Disk × Result Server
unfolding add_to
add y uuid s d = add_to y (completed uuid s) (load y d.servers) d

-- The entries of a batch, each with a uuid of its own.
complete_all : List Text → List Server → List Server
complete_all (u ∷ us) (s ∷ ss) = completed u s ∷ complete_all us ss
complete_all us ss = []

add_all_to : System → List Server → Result (List Server) → Disk → Disk × Result (List Server)
add_all_to y new (failed e) d = (d, failed e)
add_all_to y new (ok ss) d = report (ss ++ new) (save y (ss ++ new) d)

-- (s *Store) AddAll, for as many uuids as there are entries.
unfoldable pub add_all : System → List Text → List Server → Disk → Disk × Result (List Server)
unfolding add_all_to complete_all
add_all y uuids new d = add_all_to y (complete_all uuids new) (load y d.servers) d

abbrev cons_some : Server → Option (List Server) → Option (List Server)
cons_some s none = none
cons_some s (some ss) = some (s ∷ ss)

-- The list with the entry of that id replaced, in its place.
unfoldable pub replace : Server → List Server → Option (List Server)
replace s [] = none
replace s (t ∷ ts) =
    let rest = cons_some t (replace s ts) in if text_eq t.id s.id then some (s ∷ ts) else rest

save_replaced : System → Option (List Server) → Disk → Disk × Option StoreError
save_replaced y none d = (d, some not_found)
save_replaced y (some ss) d = save y ss d

update_in : System → Server → Result (List Server) → Disk → Disk × Option StoreError
unfolding save_replaced
update_in y s (failed e) d = (d, some e)
update_in y s (ok ss) d = save_replaced y (replace s ss) d

-- (s *Store) Update
unfoldable pub update : System → Server → Disk → Disk × Option StoreError
unfolding update_in with_port
update y s d =
    if is_empty s.id then (d, some no_id) else update_in y (with_port s) (load y d.servers) d

unfoldable pub abs : System → Text → Text
abs y p = if has_prefix p (codes "/") then clean p else join_path y.cwd p

-- Whether filepath.Rel of two absolute paths does not lead out of the first.
inside : Text → Text → Bool
inside dir p = text_eq p dir || (text_eq dir (codes "/") || has_prefix p (dir ++ codes "/"))

-- (s *Store) OwnsKey, on a system whose paths are separated by slashes and where filepath.Abs succeeds.
unfoldable pub owns_key : System → Text → Bool
unfolding abs inside
owns_key y path =
    not (is_empty path) && inside (abs y (join_path y.dir (codes "keys"))) (abs y path)

-- The last entry of that id.
last_of : Text → List Server → Option Server
last_of id [] = none
last_of id (s ∷ ss) = elim (last_of id ss) [
  | some t ↦ some t
  | none ↦ if text_eq s.id id then some s else none
]

drop_key : System → Option Server → Disk → Disk × Option StoreError
drop_key y none d = (d, none)
drop_key y (some s) d =
    if not (owns_key y s.key_path)
    then (d, none)
    else if y.remove
    then (record d { keys = filter_by (λ k. not (text_eq k s.key_path)) d.keys }, none)
    else (d, some key_not_removed)

after_save : System → Option Server → Disk × Option StoreError → Disk × Option StoreError
unfolding drop_key
after_save y removed (d, some e) = (d, some e)
after_save y removed (d, none) = drop_key y removed d

remove_in : System → Text → Result (List Server) → Disk → Disk × Option StoreError
unfolding after_save last_of
remove_in y id (failed e) d = (d, some e)
remove_in y id (ok ss) d =
    after_save y (last_of id ss) (save y (filter_by (λ s. not (text_eq s.id id)) ss) d)

-- (s *Store) Remove. That a key file is missing is no error, and then there is nothing to delete.
unfoldable pub remove : System → Text → Disk → Disk × Option StoreError
unfolding remove_in
remove y id d = remove_in y id (load y d.servers) d

-- Calls of the store, each with how the system behaves while it runs.
pub data Call : Type 0 where
  call_save : System → List Server → Call
  call_add : System → Text → Server → Call
  call_add_all : System → List Text → List Server → Call
  call_update : System → Server → Call
  call_remove : System → Text → Call

unfoldable pub perform : Call → Disk → Disk
perform (call_save y ss) d = (save y ss d).0
perform (call_add y uuid s) d = (add y uuid s d).0
perform (call_add_all y uuids ss) d = (add_all y uuids ss d).0
perform (call_update y s) d = (update y s d).0
perform (call_remove y id) d = (remove y id d).0

unfoldable pub perform_all : List Call → Disk → Disk
perform_all [] d = d
perform_all (c ∷ cs) d = perform_all cs (perform c d)
