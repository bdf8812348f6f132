-- ===== src/Config/Store/Kept.antt =====
-- What the store keeps on disk: no secret.
use tui_ssh_client.Prelude.{
  ◌≡◌, refl, sym, subst, inl, inr, Bool, true, false, List, [], ◌∷◌, ◌++◌, Option, none, some, map,
  arith, All, Bool-cases, if◌then◌else◌,
}
use tui_ssh_client.Prelude.Text.{Text, is_empty}
use tui_ssh_client.Model.Server.{Server}
use tui_ssh_client.Config.Store.{
  ServersFile, holding, Disk, System, StoreError, no_id, Result, failed, ok, stored, save, add_to,
  add, add_all_to, add_all, replace, save_replaced, update_in, update, last_of, drop_key,
  after_save, remove_in, remove, Call, call_save, call_add, call_add_all, call_update, call_remove,
  perform, perform_all, report,
}

-- An entry without a password, a key body and a key passphrase.
abbrev pub IsBare : Server → Type 0
IsBare s = (s.password ≡ []) × (s.key_pem ≡ []) × (s.key_passphrase ≡ [])

abbrev pub IsSecretFree : ServersFile → Type 0
IsSecretFree (holding ss) = All IsBare ss
IsSecretFree _ = Unit

stored-IsBare : (ss : List Server) → All IsBare (map stored ss)
unfolding stored
stored-IsBare [] = tt
stored-IsBare (s ∷ ss) = ((refl, refl, refl), stored-IsBare ss)

save-IsSecretFree :
    (y : System) (ss : List Server) (d : Disk)
    → IsSecretFree d.servers
    → IsSecretFree (save y ss d).0.servers
unfolding save
save-IsSecretFree y ss d h = elim (Bool-cases y.mkdir) [
  | inr m ↦ rw m h
  | inl m ↦ rw m (elim (Bool-cases y.write) [
    | inr w ↦ rw w h
    | inl w ↦ rw w (elim (Bool-cases y.rename) [ inr r ↦ rw r h | inl r ↦ rw r (stored-IsBare ss) ])
  ])
]

pub report-disk {ℓ} : {A : Type ℓ} (a : A) (x : Disk × Option StoreError) → (report a x).0 ≡ x.0
report-disk a (d, none) = refl
report-disk a (d, some e) = refl

add_to-IsSecretFree :
    (y : System) (s : Server) (r : Result (List Server)) (d : Disk)
    → IsSecretFree d.servers
    → IsSecretFree (add_to y s r d).0.servers
unfolding add_to
add_to-IsSecretFree y s (failed e) d h = h
add_to-IsSecretFree y s (ok ss) d h =
    subst (λ x. IsSecretFree x.servers) (sym (report-disk s (save y (ss ++ s ∷ []) d)))
      (save-IsSecretFree y _ d h)

add_all_to-IsSecretFree :
    (y : System) (new : List Server) (r : Result (List Server)) (d : Disk)
    → IsSecretFree d.servers
    → IsSecretFree (add_all_to y new r d).0.servers
unfolding add_all_to
add_all_to-IsSecretFree y new (failed e) d h = h
add_all_to-IsSecretFree y new (ok ss) d h =
    subst (λ x. IsSecretFree x.servers) (sym (report-disk (ss ++ new) (save y (ss ++ new) d)))
      (save-IsSecretFree y _ d h)

save_replaced-IsSecretFree :
    (y : System) (o : Option (List Server)) (d : Disk)
    → IsSecretFree d.servers
    → IsSecretFree (save_replaced y o d).0.servers
unfolding save_replaced
save_replaced-IsSecretFree y none d h = h
save_replaced-IsSecretFree y (some ss) d h = save-IsSecretFree y ss d h

update_in-IsSecretFree :
    (y : System) (s : Server) (r : Result (List Server)) (d : Disk)
    → IsSecretFree d.servers
    → IsSecretFree (update_in y s r d).0.servers
unfolding update_in
update_in-IsSecretFree y s (failed e) d h = h
update_in-IsSecretFree y s (ok ss) d h = save_replaced-IsSecretFree y (replace s ss) d h

drop_key-servers :
    (y : System) (o : Option Server) (d : Disk) → (drop_key y o d).0.servers ≡ d.servers
unfolding drop_key
drop_key-servers y none d = refl
drop_key-servers y (some s) d = ground arith

after_save-servers :
    (y : System) (o : Option Server) (x : Disk × Option StoreError)
    → (after_save y o x).0.servers ≡ x.0.servers
unfolding after_save
after_save-servers y o (d, some e) = refl
after_save-servers y o (d, none) = drop_key-servers y o d

remove_in-IsSecretFree :
    (y : System) (id : Text) (r : Result (List Server)) (d : Disk)
    → IsSecretFree d.servers
    → IsSecretFree (remove_in y id r d).0.servers
unfolding remove_in
remove_in-IsSecretFree y id (failed e) d h = h
remove_in-IsSecretFree y id (ok ss) d h =
    subst IsSecretFree (sym (after_save-servers y (last_of id ss) _)) (save-IsSecretFree y _ d h)

either_way :
    (b : Bool) (x z : Disk × Option StoreError)
    → IsSecretFree x.0.servers
    → IsSecretFree z.0.servers
    → IsSecretFree (if b then x else z).0.servers
either_way true x z h k = h
either_way false x z h k = k

perform-IsSecretFree :
    (c : Call) (d : Disk) → IsSecretFree d.servers → IsSecretFree (perform c d).servers
unfolding perform add add_all update remove
perform-IsSecretFree (call_save y ss) d h = save-IsSecretFree y ss d h
perform-IsSecretFree (call_add y uuid s) d h = add_to-IsSecretFree y _ _ d h
perform-IsSecretFree (call_add_all y uuids ss) d h = add_all_to-IsSecretFree y _ _ d h
perform-IsSecretFree (call_update y s) d h =
    either_way (is_empty s.id) (d, some no_id) _ h (update_in-IsSecretFree y _ _ d h)
perform-IsSecretFree (call_remove y id) d h = remove_in-IsSecretFree y id _ d h

-- From a file without secrets on, and from no file, no calls of the store, whatever entries they are
-- given and wherever they fail, ever write a password, a key body or a key passphrase to the list.
pub no_secret_on_disk :
    (cs : List Call) (d : Disk) → IsSecretFree d.servers → IsSecretFree (perform_all cs d).servers
unfolding perform_all
no_secret_on_disk [] d h = h
no_secret_on_disk (c ∷ cs) d h = no_secret_on_disk cs (perform c d) (perform-IsSecretFree c d h)
