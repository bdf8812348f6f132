-- ===== src/Config/Store/Tests.antt =====
-- Witnesses for the properties of the server store.
use tui_ssh_client.Prelude.{inl, inr, Bool, true, ap, ◌≡◌, refl, false, [], ◌∷◌, ◌++◌, some, map}
use tui_ssh_client.Prelude.Int.{pos}
use tui_ssh_client.Prelude.Path.{clean, join_path}
use tui_ssh_client.Prelude.Text.{Text, codes, text_eq, has_prefix, split, join}
use tui_ssh_client.Prelude.Words.{has}
use tui_ssh_client.Model.Server.{Server, auth_password}
use tui_ssh_client.Config.Store.{
  holding, absent, Disk, System, not_replaced, ok, load, stored, save, completed, add, update,
  remove, owns_key, abs, call_add, call_remove, perform_all, replace,
}
use tui_ssh_client.Config.Store.Kept.{IsSecretFree, no_secret_on_disk}
use tui_ssh_client.Config.Store.Keys.{IsIn, keys_dir, foreign_keys_stay}
use tui_ssh_client.Config.Store.RoundTrip.{load-add}
use tui_ssh_client.Config.Fixture.{system}

abbrev web : Server
web = record {
  id = [];
  name = codes "web";
  host = codes "web.example";
  port = pos 0;
  user = codes "deploy";
  auth = auth_password;
  password = codes "secret";
  key_pem = [];
  key_passphrase = [];
  key_path = codes "/home/u/.ssh/id_ed25519";
  group = [];
  last_used = 0;
}

abbrev empty_disk : Disk
empty_disk = record { servers = absent; keys = codes "/home/u/.ssh/id_ed25519" ∷ [] }

no_secret_on_disk_example :
    IsSecretFree
      (perform_all
        (call_add system (codes "u1") web ∷ call_remove system (codes "u0") ∷ [])
        empty_disk).servers
no_secret_on_disk_example =
    no_secret_on_disk (call_add system (codes "u1") web ∷ call_remove system (codes "u0") ∷ [])
      empty_disk tt

-- A key of the store, which goes with its entry, and one beside the store's directory.
abbrev own_key : Text
own_key = codes "/home/u/.config/ssh-client/keys/u1"

abbrev other_key : Text
other_key = codes "/home/u/.config/ssh-client/keys.old/u1"

abbrev two_keys : Disk
two_keys = record {
  servers = holding (record web { id = codes "u1"; password = []; key_path = own_key } ∷ []);
  keys = own_key ∷ other_key ∷ [];
}

-- Whether the path goes on from the directory of keys.
abbrev goes_on : Text → Bool
goes_on p = has_prefix p (codes "/home/u/.config/ssh-client/keys/")

other_key-outside : ¬ IsIn (keys_dir system) (abs system other_key)
unfolding abs join_path clean has_prefix split join text_eq
other_key-outside (inl e) =
    let q : true ≡ false = ap (λ t. has_prefix t (codes "/h")) e in absurd (cc)
other_key-outside (inr (inl e)) =
    let q : false ≡ true = ap (λ t. text_eq t (keys_dir system)) e in absurd (cc)
other_key-outside (inr (inr (rest, e))) = let q : false ≡ true = ap goes_on e in absurd (cc)

own_key_goes : has own_key (remove system (codes "u1") two_keys).0.keys ≡ false
unfolding remove load save owns_key join_path clean text_eq has_prefix split join has
own_key_goes = refl

foreign_keys_stay_example :
    has other_key (remove system (codes "u1") two_keys).0.keys ≡ has other_key two_keys.keys
foreign_keys_stay_example =
    foreign_keys_stay system (codes "u1") two_keys other_key other_key-outside

added : (add system (codes "u1") web empty_disk).1 ≡ ok (completed (codes "u1") web)
unfolding add load save
added = refl

nothing_read : load system absent ≡ ok []
unfolding load
nothing_read = refl

load-add_example :
    (completed (codes "u1") web ≡ completed (codes "u1") web)
    × (load system (add system (codes "u1") web empty_disk).0.servers
        ≡ ok (map stored [] ++ stored (completed (codes "u1") web) ∷ []))
load-add_example =
    load-add system (codes "u1") web (completed (codes "u1") web) [] empty_disk refl nothing_read
      added

-- The rename fails.
abbrev stuck : System
stuck = record system { rename = false }

abbrev saved_web : Server
saved_web = record web { id = codes "u1"; password = [] }

abbrev one_disk : Disk
one_disk = record { servers = holding (saved_web ∷ []); keys = [] }

refused : (update stuck saved_web one_disk).1 ≡ some not_replaced
unfolding update load save replace text_eq
refused = refl
