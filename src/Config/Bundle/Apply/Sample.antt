-- ===== src/Config/Bundle/Apply/Sample.antt =====
-- A stand-in for encoding/json that reads back what it writes, for the witnesses.
use tui_ssh_client.Prelude.{
  zero, suc, ◌≡◌, refl, ap, ◌∙◌, List, [], ◌∷◌, ◌++◌, Option, none, some, map,
}
use tui_ssh_client.Prelude.Int.{ℤ, pos, negsuc}
use tui_ssh_client.Prelude.Text.{Text}
use tui_ssh_client.Model.Server.{
  Server, AuthMethod, auth_password, auth_key, auth_agent, auth_other,
}
use tui_ssh_client.Vault.Secrets.{Secrets}
use tui_ssh_client.Config.Store.{stored}
use tui_ssh_client.Config.VaultFile.Sample.{
  write_texts, read_texts, read-write_texts, secrets_texts, secrets_of, secrets_of-texts,
}
use tui_ssh_client.Config.Bundle.Apply.{Bundle, Json, Reads}

port_text : ℤ → Text
port_text (pos n) = 0 ∷ n ∷ []
port_text (negsuc n) = 1 ∷ n ∷ []

port_of : Text → ℤ
port_of (zero ∷ (n ∷ t)) = pos n
port_of (suc k ∷ (n ∷ t)) = negsuc n
port_of _ = pos 0

port-text : (p : ℤ) → port_of (port_text p) ≡ p
unfolding port_of port_text
port-text (pos n) = refl
port-text (negsuc n) = refl

auth_text : AuthMethod → Text
auth_text auth_password = 0 ∷ []
auth_text auth_key = 1 ∷ []
auth_text auth_agent = 2 ∷ []
auth_text (auth_other t) = 3 ∷ t

auth_of : Text → AuthMethod
auth_of (zero ∷ t) = auth_password
auth_of (suc zero ∷ t) = auth_key
auth_of (suc (suc zero) ∷ t) = auth_agent
auth_of (suc (suc (suc n)) ∷ t) = auth_other t
auth_of [] = auth_agent

auth-text : (a : AuthMethod) → auth_of (auth_text a) ≡ a
unfolding auth_of auth_text
auth-text auth_password = refl
auth-text auth_key = refl
auth-text auth_agent = refl
auth-text (auth_other t) = refl

server_texts : Server → List Text
unfolding port_text auth_text
server_texts s =
    s.id
    ∷ s.name
    ∷ s.host
    ∷ port_text s.port
    ∷ s.user
    ∷ auth_text s.auth
    ∷ s.key_path
    ∷ s.group
    ∷ (s.last_used ∷ [])
    ∷ []

-- The texts of several entries in a row, nine of each.
servers_of : List Text → List Server
unfolding port_of auth_of
servers_of (a ∷ (b ∷ (c ∷ (d ∷ (e ∷ (f ∷ (g ∷ (h ∷ ((i ∷ t) ∷ ts))))))))) =
    record {
      id = a;
      name = b;
      host = c;
      port = port_of d;
      user = e;
      auth = auth_of f;
      password = [];
      key_pem = [];
      key_passphrase = [];
      key_path = g;
      group = h;
      last_used = i;
    }
    ∷ servers_of ts
servers_of _ = []

servers_texts : List Server → List Text
unfolding server_texts
servers_texts [] = []
servers_texts (s ∷ ss) = server_texts s ++ servers_texts ss

servers-texts : (ss : List Server) → servers_of (servers_texts ss) ≡ map stored ss
unfolding servers_of servers_texts server_texts stored
servers-texts [] = refl
servers-texts (s ∷ ss) = rw (port-text s.port, auth-text s.auth, servers-texts ss) refl

bundle_texts : Bundle → List Text
unfolding write_texts servers_texts secrets_texts
bundle_texts b =
    (b.version ∷ b.updated_at ∷ [])
    ∷ b.device
    ∷ write_texts (servers_texts b.servers)
    ∷ write_texts (secrets_texts b.secrets)
    ∷ b.known_hosts
    ∷ []

with_secrets : Option Secrets → (Secrets → Bundle) → Option Bundle
with_secrets none f = none
with_secrets (some s) f = some (f s)

bundle_of : List Text → Option Bundle
unfolding read_texts servers_of secrets_of with_secrets
bundle_of ((v ∷ (u ∷ t)) ∷ (d ∷ (ss ∷ (sec ∷ (k ∷ ts))))) =
    with_secrets (secrets_of (read_texts sec)) (λ s. record {
      version = v;
      updated_at = u;
      device = d;
      servers = servers_of (read_texts ss);
      secrets = s;
      known_hosts = k;
    })
bundle_of _ = none

bundle_of-texts :
    (b : Bundle) → bundle_of (bundle_texts b) ≡ some (record b { servers = map stored b.servers })
unfolding bundle_of bundle_texts with_secrets
bundle_of-texts b =
    let whole : List Server → Secrets → Bundle = λ ss x. record b { servers = ss; secrets = x } in
    ap
      (λ o.
        with_secrets o (whole (servers_of (read_texts (write_texts (servers_texts b.servers))))))
      (ap secrets_of (read-write_texts (secrets_texts b.secrets)) ∙ secrets_of-texts b.secrets)
    ∙ ap (λ ss. some (whole ss b.secrets))
        (ap servers_of (read-write_texts (servers_texts b.servers)) ∙ servers-texts b.servers)

unfoldable pub sample_json : Json
unfolding read_texts write_texts bundle_texts bundle_of
sample_json = record {
  write = λ b. write_texts (bundle_texts b);
  read = λ t. bundle_of (read_texts t);
}

pub sample_json-Reads : Reads sample_json
unfolding sample_json
sample_json-Reads = record {
  reads = λ b. ap bundle_of (read-write_texts (bundle_texts b)) ∙ bundle_of-texts b;
}
