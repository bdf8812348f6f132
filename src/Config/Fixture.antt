-- ===== src/Config/Fixture.antt =====
-- Values that the tests share: a file system in which every call succeeds, an entry, and no secrets.
use tui_ssh_client.Prelude.{true, [], none}
use tui_ssh_client.Prelude.Int.{pos}
use tui_ssh_client.Prelude.Text.{codes}
use tui_ssh_client.Model.Server.{Server, auth_agent}
use tui_ssh_client.Vault.Secrets.{Secrets}
use tui_ssh_client.Config.Store.{System}
use tui_ssh_client.Config.VaultFile.{VaultCalls}

abbrev pub system : System
system = record {
  read = true;
  mkdir = true;
  write = true;
  rename = true;
  remove = true;
  cwd = codes "/home/u";
  dir = codes "/home/u/.config/ssh-client";
}

abbrev pub vault_calls : VaultCalls
vault_calls = record { mkdir = true; write = true; chmod = true; rename = true }

abbrev pub web : Server
web = record {
  id = codes "s1";
  name = codes "web";
  host = codes "web.example";
  port = pos 22;
  user = codes "deploy";
  auth = auth_agent;
  password = [];
  key_pem = [];
  key_passphrase = [];
  key_path = [];
  group = [];
  last_used = 0;
}

abbrev pub no_secrets : Secrets
no_secrets = record { version = 1; passwords = []; keys = []; key_pass = []; github = none }
