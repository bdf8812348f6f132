-- ===== src/Config/VaultFile.antt =====
-- internal/config/vaultstore.go: the vault file, sealed as Encrypt and Decrypt of
-- internal/vault/vault.go do it.
pub mod Sample
use tui_ssh_client.Prelude.{
  ℕ, zero, suc, ◌≡◌, refl, inl, inr, Bool, true, false, not, [], ◌∷◌, Option, none, some,
  if◌then◌else◌, Bool-cases, arith, ap, ◌⊎◌, if_both, if_cases,
}
use tui_ssh_client.Prelude.Text.{Text, is_empty}
use tui_ssh_client.Vault.Secrets.{Secrets, current_version}

-- What age.Decrypt gives.
pub data Opened : Type 0 where
  opened : Text → Opened
  no_identity broken : Opened

-- age and encoding/json, third-party code and the language's: sealing and opening under a
-- passphrase, and the bytes of the secrets.
pub record Outside : Type 0 where
  pub seal : Text → Text → Option Text
  pub unseal : Text → Text → Opened
  pub marshal : Secrets → Text
  pub unmarshal : Text → Option Secrets

pub data VaultError : Type 0 where
  empty_passphrase bad_passphrase not_encrypted not_decrypted : VaultError
  not_read not_parsed not_created not_written not_protected not_replaced : VaultError

pub data Sealed : Type 0 where
  no_cipher : VaultError → Sealed
  cipher : Text → Sealed

abbrev sealed : Option Text → Sealed
sealed none = no_cipher not_encrypted
sealed (some c) = cipher c

-- vault.Encrypt
unfoldable pub encrypt : Outside → Text → Text → Sealed
encrypt o plain pass =
    if is_empty pass then no_cipher empty_passphrase else sealed (o.seal pass plain)

pub data Plain : Type 0 where
  no_plain : VaultError → Plain
  plain : Text → Plain

abbrev read_plain : Opened → Plain
read_plain (opened t) = plain t
read_plain no_identity = no_plain bad_passphrase
read_plain broken = no_plain not_decrypted

-- vault.Decrypt
unfoldable pub decrypt : Outside → Text → Text → Plain
decrypt o c pass = if is_empty pass then no_plain empty_passphrase else read_plain (o.unseal pass c)

-- A format without a number is the current one.
version_of : ℕ → ℕ
version_of zero = current_version
version_of (suc n) = suc n

unfoldable pub versioned : Secrets → Secrets
unfolding version_of
versioned s = record s { version = version_of s.version }

pub data Loaded : Type 0 where
  not_loaded : VaultError → Loaded
  loaded : Secrets → Loaded

parsed : Option Secrets → Loaded
unfolding versioned
parsed none = not_loaded not_parsed
parsed (some s) = loaded (versioned s)

parse_plain : Outside → Plain → Loaded
unfolding parsed
parse_plain o (no_plain e) = not_loaded e
parse_plain o (plain t) = parsed (o.unmarshal t)

abbrev no_secrets : Secrets
no_secrets = record {
  version = current_version;
  passwords = [];
  keys = [];
  key_pass = [];
  github = none;
}

-- (s *Store) LoadSecrets, by whether the file can be read.
unfoldable pub load_secrets : Outside → Bool → Text → Option Text → Loaded
unfolding parse_plain
load_secrets o read pass none = loaded no_secrets
load_secrets o read pass (some c) =
    if read then parse_plain o (decrypt o c pass) else not_loaded not_read

-- Whether each call of os succeeds.
pub record VaultCalls : Type 0 where
  pub mkdir : Bool
  pub write : Bool
  pub chmod : Bool
  pub rename : Bool

unfoldable pub write_cipher : VaultCalls → Sealed → Option Text → Option Text × Option VaultError
write_cipher y (no_cipher e) file = (file, some e)
write_cipher y (cipher c) file =
    if not y.write
    then (file, some not_written)
    else if not y.chmod
    then (file, some not_protected)
    else if not y.rename
    then (file, some not_replaced)
    else (some c, none)

-- (s *Store) SaveSecrets: the file, and the error.
unfoldable pub save_secrets :
    Outside → VaultCalls → Secrets → Text → Option Text → Option Text × Option VaultError
unfolding write_cipher
save_secrets o y s pass file =
    if not y.mkdir
    then (file, some not_created)
    else write_cipher y (encrypt o (o.marshal (versioned s)) pass) file

-- What age and encoding/json promise: what was sealed is opened with its passphrase, and what was
-- written is read back.
pub record Promises (o : Outside) : Type 0 where
  pub opens : (pass t c : Text) → o.seal pass t ≡ some c → o.unseal pass c ≡ opened t
  pub reads : (s : Secrets) → o.unmarshal (o.marshal s) ≡ some s

version_twice : (n : ℕ) → version_of (version_of n) ≡ version_of n
unfolding version_of
version_twice zero = refl
version_twice (suc n) = refl

pub versioned_twice : (s : Secrets) → versioned (versioned s) ≡ versioned s
unfolding versioned
versioned_twice s = ap (λ n. record s { version = n }) (version_twice s.version)

-- What the vault holds, with that passphrase.
abbrev pub Holds : Outside → Text → Secrets → Option Text → Type 0
Holds o pass s file = load_secrets o true pass file ≡ loaded (versioned s)

sealed-Holds :
    (o : Outside) (pass : Text) (s : Secrets) (c : Text)
    → Promises o
    → is_empty pass ≡ false
    → o.seal pass (o.marshal (versioned s)) ≡ some c
    → Holds o pass s (some c)
unfolding load_secrets decrypt parse_plain parsed
sealed-Holds o pass s c law n e =
    rw (n, law.opens pass _ c e, law.reads (versioned s), versioned_twice s) refl

-- With no error the file opens to what was saved, and with one it is what it was.
abbrev pub Saves : Outside → Text → Secrets → Option Text → Option Text × Option VaultError → Type 0
Saves o pass s file (f, none) = Holds o pass s f
Saves o pass s file (f, some e) = f ≡ file

write_cipher-Saves :
    (o : Outside) (y : VaultCalls) (pass : Text) (s : Secrets) (file : Option Text)
    (r : Option Text)
    → Promises o
    → is_empty pass ≡ false
    → o.seal pass (o.marshal (versioned s)) ≡ r
    → Saves o pass s file (write_cipher y (sealed r) file)
unfolding write_cipher
write_cipher-Saves o y pass s file none law n e = refl
write_cipher-Saves o y pass s file (some c) law n e =
    if_both (Saves o pass s file) (not y.write) _ _ refl (
      if_both (Saves o pass s file) (not y.chmod) _ _ refl
        (if_both (Saves o pass s file) (not y.rename) _ _ refl (sealed-Holds o pass s c law n e)))

pub save_secrets-Saves :
    (o : Outside) (y : VaultCalls) (s : Secrets) (pass : Text) (file : Option Text)
    → Promises o
    → Saves o pass s file (save_secrets o y s pass file)
unfolding save_secrets encrypt write_cipher
save_secrets-Saves o y s pass file law = if_both (Saves o pass s file) (not y.mkdir) _ _ refl (
    if_cases (λ c. Saves o pass s file (write_cipher y c file)) (is_empty pass) _ _ (λ h. refl)
      (λ h. write_cipher-Saves o y pass s file _ law h refl))
