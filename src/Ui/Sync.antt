-- ===== src/Ui/Sync.antt =====
-- internal/ui/sync.go and the cases of internal/ui/app.go for it: the registration of a repository, and
-- pushing and pulling the bundle. A command runs beside the loop and answers with a message.
pub mod Commands
pub mod Handlers
pub mod World
pub mod Register
pub mod Labels
pub mod Simulates
pub mod Moves
pub mod Handled
pub mod Delivered
pub mod Sent
pub mod Pulled
pub mod Executed
pub mod Refines
pub mod Private
pub mod Tests
use tui_ssh_client.Prelude.{
  ℕ, zero, suc, ◌+◌, ◌≡◌, ◌&&◌, Bool, true, false, not, List, [], ◌∷◌, ◌++◌, Option, none, some,
  length, get_elem?, set, if◌then◌else◌,
}
use tui_ssh_client.Config.Writes.{become}
use tui_ssh_client.Prelude.Text.{Text, codes, is_empty, text_eq, trim_space}
use tui_ssh_client.Vault.Secrets.{Secrets, GitHubAuth}
use tui_ssh_client.Config.VaultFile.{
  VaultCalls, save_secrets, Outside, VaultError, bad_passphrase, Sealed, no_cipher, cipher, encrypt,
  Plain, no_plain, plain, decrypt,
}
use tui_ssh_client.Config.Bundle.Apply.{
  Local, Pull, ApplyCalls, apply_bundle, Bundle, Json, BundleError, Packed, packed, not_packed,
  Summary, no_summary, summary, bundle_servers, Report,
}
use tui_ssh_client.Sync.Github.{
  SyncError, repo_public, repo_not_found, bad_token, sync_conflict, http, Repo, parse_repo, Reply,
  Got, got, refused, check, Contents, get_file, Payload, payload, put_file,
}

-- vault.GitHubAuth without the sha.
pub record Auth : Type 0 where
  pub owner : Text
  pub repo : Text
  pub path : Text
  pub branch : Text
  pub token : Text

-- a.secrets.GitHub is a pointer, which commands share: `cell` says which sha it leads to.
pub record Registration : Type 0 where
  pub auth : Auth
  pub cell : ℕ

pub data Failure : Type 0 where
  not_set_up bad_repo token_required : Failure
  sync_error : SyncError → Failure
  vault_error : VaultError → Failure
  bundle_error : BundleError → Failure

-- What syncAdvice says.
pub data Advice : Type 0 where
  make_it_private fix_the_token push_first pull_first other_passphrase : Advice
  first_line_of : Failure → Advice

unfoldable pub sync_advice : Failure → Advice
sync_advice (sync_error repo_public) = make_it_private
sync_advice (sync_error bad_token) = fix_the_token
sync_advice (sync_error repo_not_found) = push_first
sync_advice (sync_error sync_conflict) = pull_first
sync_advice (vault_error bad_passphrase) = other_passphrase
sync_advice e = first_line_of e

-- syncForm; what the fields hold comes with the key, and a mistake in them is shown as it is.
pub record Form : Type 0 where
  pub focused : ℕ
  pub busy : Bool
  pub err : Option Advice

abbrev new_form : Form
new_form = record { focused = 0; busy = false; err = none }

pub record Fields : Type 0 where
  pub repo : Text
  pub path : Text
  pub token : Text

abbrev or_default : Text → Text
or_default [] = codes "ssh-client.age"
or_default (c ∷ t) = c ∷ t

pub data Checked : Type 0 where
  wrong : Failure → Checked
  right : Auth → Checked

-- The token of the registration that there is, where the field is empty.
abbrev token_or : Text → Option Registration → Text
token_or [] none = []
token_or [] (some r) = r.auth.token
token_or (c ∷ t) r = c ∷ t

with_token : Text × Text → Text → Text → Checked
with_token on path token =
    if is_empty token
    then wrong token_required
    else right (record { owner = on.0; repo = on.1; path = path; branch = []; token = token })

with_repo : Option (Text × Text) → Text → Text → Checked
unfolding with_token
with_repo none path token = wrong bad_repo
with_repo (some on) path token = with_token on path token

-- (f *syncForm) auth
unfoldable pub form_auth : Fields → Option Registration → Checked
unfolding with_repo
form_auth f existing =
    with_repo (parse_repo f.repo) (or_default (trim_space f.path))
      (token_or (trim_space f.token) existing)

-- A pull that has arrived and is not applied.
pub record Fetched : Type 0 where
  pub blob : Text
  pub sha : Text
  pub servers : ℕ
  pub updated : ℕ
  pub device : Text

-- The answer to persist, which sets the status line, is left out.
pub data Cmd : Type 0 where
  check_repo : Auth → Cmd
  push_cmd pull_cmd : Registration → Cmd
  apply_pull : Text → Text → Option Registration → Cmd
  persist : Option Registration → Cmd
  load_servers : Cmd

pub data Msg : Type 0 where
  check_failed push_failed fetch_failed apply_failed : Failure → Msg
  checked : Auth → Msg
  pushed : Text → ℕ → Msg
  fetched : Fetched → Msg
  applied : Report → Option Auth → Text → Msg

pub data Note : Type 0 where
  quiet sync_not_set_up pushing pulling : Note
  pulled : Report → Note

-- The fields of the root model that sync uses. `shas` has the sha of each registration that a pointer
-- leads to.
pub record SyncApp : Type 0 where
  pub registration : Option Registration
  pub shas : List Text
  pub form : Option Form
  pub confirm : Option Fetched
  pub status : Note
  pub err : Option Advice
  pub warned : List Text

-- openSync, once there is a vault
unfoldable pub open_sync : SyncApp → SyncApp
open_sync a = record a { form = some new_form; err = none; status = quiet }

-- closeSync, with the focus that goes back
unfoldable pub close_sync : SyncApp → SyncApp
close_sync a = record a { form = none }

-- The actions of handleSyncKey.
pub data SyncKey : Type 0 where
  sync_cancel sync_next sync_prev : SyncKey
  sync_submit : Fields → SyncKey
