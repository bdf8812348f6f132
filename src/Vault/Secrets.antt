-- ===== src/Vault/Secrets.antt =====
-- internal/vault/vault.go, the Secrets type, and Inject of internal/config/migrate.go. A nil map
-- and an empty one behave alike in this code: both are the empty list.
use tui_ssh_client.Prelude.{
  ◌≡◌, refl, arith, if◌then◌else◌, ℕ, Bool, true, false, ◌&&◌, [], ◌∷◌, Option, none, some,
}
use tui_ssh_client.Prelude.Text.{Text, text_eq}
use tui_ssh_client.Prelude.Dict.{Dict, lookup, insert, erase, lookup-insert, lookup-erase}
use tui_ssh_client.Model.Server.{Server}

pub record GitHubAuth : Type 0 where
  pub owner : Text
  pub repo : Text
  pub path : Text
  pub branch : Text
  pub token : Text
  pub sha : Text

abbrev pub current_version : ℕ
current_version = 1

pub record Secrets : Type 0 where
  pub version : ℕ
  pub passwords : Dict Text
  pub keys : Dict Text
  pub key_pass : Dict Text
  pub github : Option GitHubAuth

-- m[id], the empty text where it is missing
abbrev pub or_empty : Option Text → Text
or_empty none = []
or_empty (some t) = t

unfoldable pub password : Secrets → Text → Text
password s id = or_empty (lookup id s.passwords)

-- Setting the empty text deletes the entry.
store : Text → Text → Dict Text → Dict Text
store id [] m = erase id m
store id (c ∷ v) m = insert id (c ∷ v) m

unfoldable pub set_password : Secrets → Text → Text → Secrets
unfolding store
set_password s id pw = record s { passwords = store id pw s.passwords }

unfoldable pub set_key : Secrets → Text → Text → Secrets
unfolding store
set_key s id pem = record s { keys = store id pem s.keys }

unfoldable pub set_key_pass : Secrets → Text → Text → Secrets
unfolding store
set_key_pass s id pass = record s { key_pass = store id pass s.key_pass }

unfoldable pub forget : Secrets → Text → Secrets
forget s id = record s {
  passwords = erase id s.passwords;
  keys = erase id s.keys;
  key_pass = erase id s.key_pass;
}

abbrev no_entries {ℓ} : {V : Type ℓ} → Dict V → Bool
no_entries [] = true
no_entries (e ∷ m) = false

abbrev is_none : Option GitHubAuth → Bool
is_none none = true
is_none (some g) = false

unfoldable pub empty : Secrets → Bool
empty s =
    no_entries s.passwords && (no_entries s.keys && (no_entries s.key_pass && is_none s.github))

abbrev with_key : Server → Option Text → Server
with_key srv none = srv
with_key srv (some pem) = record srv { key_pem = pem }

-- config.Inject
unfoldable pub inject : Server → Secrets → Server
inject srv sec =
    let keyed = with_key srv (lookup srv.id sec.keys) in
    record keyed {
      password = or_empty (lookup srv.id sec.passwords);
      key_passphrase = or_empty (lookup srv.id sec.key_pass);
    }

store-or_empty :
    (j k v : Text) (m : Dict Text)
    → or_empty (lookup j (store k v m)) ≡ (if text_eq k j then v else or_empty (lookup j m))
unfolding store
store-or_empty j k [] m = rw (lookup-erase k j m) (ground arith)
store-or_empty j k (c ∷ v) m = rw (lookup-insert k j (c ∷ v) m) (ground arith)

pub password-set_password :
    (s : Secrets) (k j pw : Text)
    → password (set_password s k pw) j ≡ (if text_eq k j then pw else password s j)
unfolding password set_password
password-set_password s k j pw = store-or_empty j k pw s.passwords

pub keys-set_key :
    (s : Secrets) (k j pem : Text)
    → or_empty (lookup j (set_key s k pem).keys)
      ≡ (if text_eq k j then pem else or_empty (lookup j s.keys))
unfolding set_key
keys-set_key s k j pem = store-or_empty j k pem s.keys

pub set_key-passwords : (s : Secrets) (k pem : Text) → (set_key s k pem).passwords ≡ s.passwords
unfolding set_key
set_key-passwords s k pem = refl

pub set_password-keys : (s : Secrets) (k pw : Text) → (set_password s k pw).keys ≡ s.keys
unfolding set_password
set_password-keys s k pw = refl
