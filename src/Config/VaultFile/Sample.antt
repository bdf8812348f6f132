-- ===== src/Config/VaultFile/Sample.antt =====
-- A stand-in for age and encoding/json that keeps their promises, for the witnesses.
use tui_ssh_client.Prelude.{ℕ, zero, suc, ◌≡◌, refl, ap, ◌∙◌, List, [], ◌∷◌, Option, none, some}
use tui_ssh_client.Prelude.Text.{Text}
use tui_ssh_client.Prelude.Dict.{Dict}
use tui_ssh_client.Vault.Secrets.{Secrets, GitHubAuth}
use tui_ssh_client.Config.VaultFile.{Outside, opened, Promises}

-- Texts in a row: a one before each character, and a zero at the end of each text.
write_text : Text → Text → Text
write_text [] rest = 0 ∷ rest
write_text (c ∷ t) rest = 1 ∷ c ∷ write_text t rest

unfoldable pub write_texts : List Text → Text
unfolding write_text
write_texts [] = []
write_texts (t ∷ ts) = write_text t (write_texts ts)

before_first : ℕ → List Text → List Text
before_first c [] = (c ∷ []) ∷ []
before_first c (t ∷ ts) = (c ∷ t) ∷ ts

unfoldable pub read_texts : Text → List Text
unfolding before_first
read_texts [] = []
read_texts (zero ∷ xs) = [] ∷ read_texts xs
read_texts (suc n ∷ []) = []
read_texts (suc n ∷ (c ∷ xs)) = before_first c (read_texts xs)

read-write_text : (t rest : Text) → read_texts (write_text t rest) ≡ t ∷ read_texts rest
unfolding read_texts write_text before_first
read-write_text [] rest = refl
read-write_text (c ∷ t) rest = ap (before_first c) (read-write_text t rest)

pub read-write_texts : (ts : List Text) → read_texts (write_texts ts) ≡ ts
unfolding read_texts write_texts
read-write_texts [] = refl
read-write_texts (t ∷ ts) =
    read-write_text t (write_texts ts) ∙ ap (λ us. t ∷ us) (read-write_texts ts)

flat : Dict Text → List Text
flat [] = []
flat ((k, v) ∷ m) = k ∷ v ∷ flat m

unflat : List Text → Dict Text
unflat [] = []
unflat (k ∷ []) = []
unflat (k ∷ (v ∷ ts)) = (k, v) ∷ unflat ts

unflat-flat : (m : Dict Text) → unflat (flat m) ≡ m
unfolding flat unflat
unflat-flat [] = refl
unflat-flat ((k, v) ∷ m) = ap (λ n. (k, v) ∷ n) (unflat-flat m)

write_dict : Dict Text → Text
unfolding write_texts flat
write_dict m = write_texts (flat m)

read_dict : Text → Dict Text
unfolding read_texts unflat
read_dict t = unflat (read_texts t)

read-write_dict : (m : Dict Text) → read_dict (write_dict m) ≡ m
unfolding read_dict write_dict
read-write_dict m = ap unflat (read-write_texts (flat m)) ∙ unflat-flat m

github_texts : Option GitHubAuth → List Text
github_texts none = []
github_texts (some g) = g.owner ∷ g.repo ∷ g.path ∷ g.branch ∷ g.token ∷ g.sha ∷ []

github_of : List Text → Option GitHubAuth
github_of (a ∷ (b ∷ (c ∷ (d ∷ (e ∷ (f ∷ ts)))))) =
    some (record { owner = a; repo = b; path = c; branch = d; token = e; sha = f })
github_of _ = none

github-texts : (g : Option GitHubAuth) → github_of (github_texts g) ≡ g
unfolding github_of github_texts
github-texts none = refl
github-texts (some g) = refl

unfoldable pub secrets_texts : Secrets → List Text
unfolding write_texts write_dict github_texts
secrets_texts s =
    (s.version ∷ [])
    ∷ write_dict s.passwords
    ∷ write_dict s.keys
    ∷ write_dict s.key_pass
    ∷ write_texts (github_texts s.github)
    ∷ []

unfoldable pub secrets_of : List Text → Option Secrets
unfolding read_dict read_texts github_of
secrets_of ((n ∷ t) ∷ (a ∷ (b ∷ (c ∷ (g ∷ ts))))) = some (record {
  version = n;
  passwords = read_dict a;
  keys = read_dict b;
  key_pass = read_dict c;
  github = github_of (read_texts g);
})
secrets_of _ = none

pub secrets_of-texts : (s : Secrets) → secrets_of (secrets_texts s) ≡ some s
unfolding secrets_texts secrets_of
secrets_of-texts s =
    rw
      (
        read-write_dict s.passwords,
        read-write_dict s.keys,
        read-write_dict s.key_pass,
        read-write_texts (github_texts s.github),
        github-texts s.github,
      )
      refl

secrets-texts : (s : Secrets) → secrets_of (read_texts (write_texts (secrets_texts s))) ≡ some s
secrets-texts s = ap secrets_of (read-write_texts (secrets_texts s)) ∙ secrets_of-texts s

-- Sealing that seals nothing.
unfoldable pub sample : Outside
unfolding read_texts write_texts secrets_texts secrets_of
sample = record {
  seal = λ pass t. some t;
  unseal = λ pass t. opened t;
  marshal = λ s. write_texts (secrets_texts s);
  unmarshal = λ t. secrets_of (read_texts t);
}

pub sample-Promises : Promises sample
unfolding sample
sample-Promises = record { opens = λ pass t c e. cc; reads = secrets-texts }
