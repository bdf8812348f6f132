-- ===== src/Config/Migrate/Scan.antt =====
-- What ScanPlaintext finds, and what the secrets hold once they are filled with it.
use tui_ssh_client.Prelude.{
  ◌≡◌, refl, ap, ◌∙◌, subst, inl, inr, Bool, true, false, not, ◌&&◌, List, [], ◌∷◌, Option, none,
  some, arith, Bool-cases, if◌then◌else◌, if_both, if_cases,
}
use tui_ssh_client.Prelude.Text.{Text, text_eq, text_eq_iff, is_empty}
use tui_ssh_client.Prelude.Dict.{Dict, lookup, lookup-insert}
use tui_ssh_client.Model.Server.{Server}
use tui_ssh_client.Vault.Secrets.{
  Secrets, password, or_empty, password-set_password, keys-set_key, set_key-passwords,
  set_password-keys,
}
use tui_ssh_client.Config.Store.{ServersFile, absent, blank, unparsable, holding, System, owns_key}
use tui_ssh_client.Config.Migrate.{
  set_passwords, set_keys, Plaintext, MigrateError, Home, no_plaintext, fill,
}
use tui_ssh_client.Config.Migrate.Find.{
  scan_all, take_key, take_password, scan_entry, scan_plaintext,
}

-- The password of the last entry of that id that has one.
unfoldable pub last_password : Text → List Server → Option Text
last_password id [] = none
last_password id (l ∷ ls) = elim (last_password id ls) [
  | some pw ↦ some pw
  | none ↦ if text_eq l.id id && not (is_empty l.password) then some l.password else none
]

abbrev pub entries : ServersFile → List Server
entries (holding ls) = ls
entries _ = []

-- What a map that is filled from another holds.
abbrev pub over : Option Text → Text → Text
over none old = old
over (some new) old = new

latest : Option Text → Option Text → Option Text
latest (some a) o = some a
latest none o = o

pub set_passwords-password :
    (id : Text) (m : Dict Text) (s : Secrets)
    → password (set_passwords m s) id ≡ over (lookup id m) (password s id)
unfolding set_passwords lookup
set_passwords-password id [] s = refl
set_passwords-password id ((k, v) ∷ m) s =
    ground (arith, password-set_password (set_passwords m s) k id v, set_passwords-password id m s)

pub set_keys-keys :
    (id : Text) (m : Dict Text) (s : Secrets)
    → or_empty (lookup id (set_keys m s).keys) ≡ over (lookup id m) (or_empty (lookup id s.keys))
unfolding set_keys lookup
set_keys-keys id [] s = refl
set_keys-keys id ((k, v) ∷ m) s =
    ground (arith, keys-set_key (set_keys m s) k id v, set_keys-keys id m s)

pub set_keys-passwords : (m : Dict Text) (s : Secrets) → (set_keys m s).passwords ≡ s.passwords
unfolding set_keys
set_keys-passwords [] s = refl
set_keys-passwords ((k, v) ∷ m) s = set_key-passwords (set_keys m s) k v ∙ set_keys-passwords m s

pub set_passwords-keys : (m : Dict Text) (s : Secrets) → (set_passwords m s).keys ≡ s.keys
unfolding set_passwords
set_passwords-keys [] s = refl
set_passwords-keys ((k, v) ∷ m) s =
    set_password-keys (set_passwords m s) k v ∙ set_passwords-keys m s

seen : Text → Server → Option Text → Option Text
seen id l old = if text_eq l.id id && not (is_empty l.password) then some l.password else old

take_password-seen :
    (id : Text) (l : Server) (pt : Plaintext)
    → lookup id (take_password l pt).passwords ≡ seen id l (lookup id pt.passwords)
unfolding take_password seen
take_password-seen id l pt = ground (arith, lookup-insert l.id id l.password pt.passwords)

empty-seen :
    (id : Text) (l : Server) (old : Option Text)
    → is_empty id ≡ false
    → is_empty l.id ≡ true
    → old ≡ seen id l old
unfolding seen
empty-seen id l old n e = ground (arith, text_eq_iff l.id id)

last_password-seen :
    (id : Text) (l : Server) (ls : List Server) (old : Option Text)
    → latest (last_password id ls) (seen id l old) ≡ latest (last_password id (l ∷ ls)) old
unfolding last_password latest seen
last_password-seen id l ls old = helper (last_password id ls)
  where
    helper :
        (o : Option Text)
        → latest o (seen id l old)
          ≡ latest
              (elim o [
                | some pw ↦ some pw
                | none ↦
                    if text_eq l.id id && not (is_empty l.password) then some l.password else none
              ])
              old
    helper none = ground arith
    helper (some pw) = refl

-- A scan without an error has for that id the password `pw`.
abbrev pub Finds : Text → Option Text → Plaintext × Option MigrateError → Type 0
Finds id pw (pt, none) = lookup id pt.passwords ≡ pw
Finds id pw (pt, some e) = Unit

take_key-Finds :
    (id : Text) (pw : Option Text) (file : Option Text) (reads : Bool) (l : Server) (pt : Plaintext)
    (rest : Plaintext → Plaintext × Option MigrateError)
    → ((q : Plaintext) → q.passwords ≡ pt.passwords → Finds id pw (rest q))
    → Finds id pw (take_key file reads l pt rest)
unfolding take_key
take_key-Finds id pw none reads l pt rest h = h pt refl
take_key-Finds id pw (some body) reads l pt rest h = if_both (Finds id pw) reads _ _ (h _ refl) tt

scan_entry-Finds :
    (y : System) (reads : Text → Bool) (files : Dict Text) (id : Text) (pw : Option Text)
    (l : Server) (pt : Plaintext) (rest : Plaintext → Plaintext × Option MigrateError)
    → is_empty id ≡ false
    → ((q : Plaintext)
        → lookup id q.passwords ≡ seen id l (lookup id pt.passwords)
        → Finds id pw (rest q))
    → Finds id pw (scan_entry y reads files l pt rest)
unfolding scan_entry
scan_entry-Finds y reads files id pw l pt rest n go =
    if_cases (Finds id pw) (is_empty l.id) _ _ (λ e. go pt (empty-seen id l _ n e))
      (λ e.
        if_both (Finds id pw) (not (owns_key y l.key_path)) _ _ (go _ (take_password-seen id l pt))
          (take_key-Finds id pw (lookup l.key_path files) (reads l.key_path) l (take_password l pt)
            rest (λ q h. go q (ap (lookup id) h ∙ take_password-seen id l pt))))

scan_all-Finds :
    (y : System) (reads : Text → Bool) (files : Dict Text) (id : Text) (ls : List Server)
    (pt : Plaintext)
    → is_empty id ≡ false
    → Finds id
        (latest (last_password id ls) (lookup id pt.passwords))
        (scan_all y reads files ls pt)
unfolding scan_all last_password latest
scan_all-Finds y reads files id [] pt n = refl
scan_all-Finds y reads files id (l ∷ ls) pt n =
    scan_entry-Finds y reads files id _ l pt (scan_all y reads files ls) n (λ q h.
      subst (λ o. Finds id o (scan_all y reads files ls q))
        (ap (latest (last_password id ls)) h ∙ last_password-seen id l ls _)
        (scan_all-Finds y reads files id ls q n))

latest-none : (o : Option Text) → latest o none ≡ o
unfolding latest
latest-none none = refl
latest-none (some a) = refl

pub scan_plaintext-Finds :
    (y : System) (reads : Text → Bool) (h : Home) (id : Text) (f : ServersFile)
    → is_empty id ≡ false
    → h.listing ≡ f
    → Finds id (last_password id (entries f)) (scan_plaintext y reads h)
unfolding scan_plaintext last_password lookup
scan_plaintext-Finds y reads h id absent n e = rw e refl
scan_plaintext-Finds y reads h id blank n e =
    rw e (elim (Bool-cases y.read) [ inl r ↦ rw r refl | inr r ↦ rw r tt ])
scan_plaintext-Finds y reads h id unparsable n e = rw e tt
scan_plaintext-Finds y reads h id (holding ls) n e = rw e (
    if_both (Finds id (last_password id ls)) y.read _ _
      (subst (λ o. Finds id o (scan_all y reads h.key_files ls no_plaintext)) (latest-none _)
        (scan_all-Finds y reads h.key_files id ls no_plaintext n))
      tt)

pub fill-password :
    (id : Text) (pt : Plaintext) (s : Secrets)
    → password (fill pt s) id ≡ over (lookup id pt.passwords) (password s id)
unfolding fill password
fill-password id pt s =
    ap (λ m. or_empty (lookup id m)) (set_keys-passwords pt.keys (set_passwords pt.passwords s))
    ∙ set_passwords-password id pt.passwords s

pub fill-keys :
    (id : Text) (pt : Plaintext) (s : Secrets)
    → or_empty (lookup id (fill pt s).keys) ≡ over (lookup id pt.keys) (or_empty (lookup id s.keys))
unfolding fill
fill-keys id pt s =
    set_keys-keys id pt.keys (set_passwords pt.passwords s)
    ∙ ap (λ m. over (lookup id pt.keys) (or_empty (lookup id m)))
        (set_passwords-keys pt.passwords s)
