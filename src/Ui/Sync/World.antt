-- ===== src/Ui/Sync/World.antt =====
-- The sync of one machine beside others: the files on GitHub, the commands that run, the messages that
-- wait, and what the vault file has of the registration.
use tui_ssh_client.Prelude.{
  ◌≡◌, ℕ, ◌+◌, ◌&&◌, Bool, true, false, List, [], ◌∷◌, ◌++◌, Option, none, some, get_elem?,
  remove_at, if◌then◌else◌,
}
use tui_ssh_client.Prelude.Text.{Text, codes}
use tui_ssh_client.Prelude.Dict.{Dict, lookup, insert}
use tui_ssh_client.Vault.Secrets.{Secrets, GitHubAuth}
use tui_ssh_client.Config.VaultFile.{Outside}
use tui_ssh_client.Config.Bundle.Apply.{Json, Packed, ApplyCalls, Local}
use tui_ssh_client.Sync.Github.{Reply, unreachable, reply, Contents, Payload, contents_url}
use tui_ssh_client.Ui.Sync.{
  Auth, Registration, SyncApp, Cmd, check_repo, push_cmd, pull_cmd, apply_pull, persist,
  load_servers, Msg, applied, quiet, SyncKey, push_failed, open_sync,
}
use tui_ssh_client.Ui.Sync.Commands.{
  Upload, not_sent, sends, repo_of, upload, after_upload, fetch, check_command, apply_command,
}
use tui_ssh_client.Ui.Sync.Handlers.{
  sha_at, handle_sync_key, start_push, start_pull, answer_pull, update,
}

-- What GitHub does with a file: its sha, and whether an upload with a sha or without one is taken.
pub record GitHub : Type 0 where
  pub sha_of : Text → Text
  pub accepts : Option Text → Option Text → Bool

-- What its documentation promises: a file that exists is replaced only under its sha, and different
-- contents have different shas.
pub record Promises (g : GitHub) : Type 0 where
  pub stale : (c s : Text) → g.accepts (some c) (some s) ≡ true → s ≡ g.sha_of c
  pub needed : (c : Text) → g.accepts (some c) none ≡ false
  pub apart : (c d : Text) → g.sha_of c ≡ g.sha_of d → c ≡ d

pub record World : Type 0 where
  pub app : SyncApp
  pub files : Dict Text
  pub running : List Cmd
  pub mail : List Msg
  pub vault : Option (Auth × Text)

-- What comes to a command that runs: the reply of Check, the bundle and the passphrase, whether GitHub
-- answers the next request and else with which status, whether its answer arrives, and for a pull that is
-- applied the calls, the secrets and the files.
pub record Answers : Type 0 where
  pub private_ : Reply Bool
  pub made : Packed
  pub pass : Text
  pub serves : Bool
  pub status : ℕ
  pub heard : Bool
  pub saves : Bool
  pub calls : ApplyCalls
  pub secrets : Secrets
  pub local : Local

pub data Event : Type 0 where
  key : SyncKey → Event
  opens pushes pulls restarts : Event
  answers : Bool → Event
  delivered : ℕ → Event
  runs : ℕ → Answers → Event
  others_write : Text → Text → Event

-- The name of the file of a registration.
abbrev pub file_of : Auth → Text
file_of a = contents_url (repo_of a)

unfoldable pub took : World → SyncApp × List Cmd → World
took w (a, cs) = record w { app = a; running = w.running ++ cs }

unfoldable pub post : Msg → World → World
post m w = record w { mail = w.mail ++ m ∷ [] }

unfoldable pub put_reply : GitHub → Bool → Text → Reply Text
put_reply g heard c = if heard then reply 200 (some (g.sha_of c)) else unreachable

-- The upload arrives.
unfoldable pub arrive : GitHub → Answers → Text → ℕ → Payload → World → World
unfolding post put_reply
arrive g s f n p w =
    if s.serves && g.accepts (lookup f w.files) p.sha
    then post (after_upload n (put_reply g s.heard p.content))
        (record w { files = insert f p.content w.files })
    else post (after_upload n (reply (300 + s.status) none)) w

unfoldable pub send : GitHub → Answers → Text → Upload → World → World
unfolding arrive post
send g s f (not_sent e) w = post (push_failed e) w
send g s f (sends p n) w = arrive g s f n p w

unfoldable pub file_reply : GitHub → Answers → Option Text → Reply Contents
file_reply g s none = reply 404 none
file_reply g s (some c) =
    if s.serves
    then reply 200 (some (record { sha = g.sha_of c; encoding = codes "base64"; content = some c }))
    else reply (300 + s.status) none

-- The registration as a command holds it.
abbrev pub with_sha : Auth → Text → GitHubAuth
with_sha a sha = record {
  owner = a.owner;
  repo = a.repo;
  path = a.path;
  branch = a.branch;
  token = a.token;
  sha = sha;
}

unfoldable pub held : List Text → Option Registration → Option GitHubAuth
unfolding sha_at
held shas none = none
held shas (some r) = some (with_sha r.auth (sha_at shas r.cell))

-- What is on disk after a pull was applied.
unfoldable pub vault_after : Msg → Option (Auth × Text) → Option (Auth × Text)
vault_after (applied rep (some a) sha) v = some (a, sha)
vault_after (applied rep none sha) v = none
vault_after m v = v

unfoldable pub save_registration :
    Bool → List Text → Option Registration → Option (Auth × Text) → Option (Auth × Text)
unfolding sha_at
save_registration saves shas none v = if saves then none else v
save_registration saves shas (some r) v = if saves then some (r.auth, sha_at shas r.cell) else v

unfoldable pub execute : GitHub → Outside → Json → Answers → Cmd → World → World
unfolding post send file_reply held vault_after save_registration
execute g o j s (check_repo a) w = post (check_command a s.private_) w
execute g o j s (push_cmd r) w =
    send g s (file_of r.auth)
      (upload o j r.auth s.pass (sha_at w.app.shas r.cell) s.private_ s.made) w
execute g o j s (pull_cmd r) w =
    post (fetch o j s.pass (file_reply g s (lookup (file_of r.auth) w.files))) w
execute g o j s (apply_pull blob sha r) w =
    let sec = record s.secrets { github = held w.app.shas r } in
    let m = (apply_command o j s.calls blob sha sec s.pass s.local).1 in
    post m (record w { vault = vault_after m w.vault })
execute g o j s (persist r) w = record w { vault = save_registration s.saves w.app.shas r w.vault }
execute g o j s load_servers w = w

abbrev pub empty_app : SyncApp
empty_app = record {
  registration = none;
  shas = [];
  form = none;
  confirm = none;
  status = quiet;
  err = none;
  warned = [];
}

-- The program as it starts again, with the vault unlocked.
unfoldable pub reloaded : Option (Auth × Text) → SyncApp
reloaded none = empty_app
reloaded (some (a, sha)) = record empty_app {
  registration = some (record { auth = a; cell = 0 });
  shas = sha ∷ [];
}

unfoldable pub deliver_msg : ℕ → Option Msg → World → World
unfolding took
deliver_msg i none w = w
deliver_msg i (some m) w = took (record w { mail = remove_at i w.mail }) (update m w.app)

unfoldable pub run_cmd : GitHub → Outside → Json → Answers → ℕ → Option Cmd → World → World
unfolding execute
run_cmd g o j s i none w = w
run_cmd g o j s i (some c) w = execute g o j s c (record w { running = remove_at i w.running })

unfoldable pub step : GitHub → Outside → Json → Event → World → World
unfolding took deliver_msg run_cmd reloaded
step g o j (key k) w = took w (handle_sync_key k w.app)
step g o j opens w = took w (open_sync w.app, [])
step g o j pushes w = took w (start_push w.app)
step g o j pulls w = took w (start_pull w.app)
step g o j restarts w = record w { app = reloaded w.vault; running = []; mail = [] }
step g o j (answers b) w = took w (answer_pull b w.app)
step g o j (delivered i) w = deliver_msg i (get_elem? w.mail i) w
step g o j (runs i s) w = run_cmd g o j s i (get_elem? w.running i) w
step g o j (others_write f c) w = record w { files = insert f c w.files }

unfoldable pub run : GitHub → Outside → Json → List Event → World → World
run g o j [] w = w
run g o j (e ∷ es) w = run g o j es (step g o j e w)
