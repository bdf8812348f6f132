-- ===== src/Ui/Sync/Commands.antt =====
-- internal/ui/sync.go, the commands that check, push, pull and apply.
use tui_ssh_client.Prelude.{ℕ, Bool, [], Option, none, some}
use tui_ssh_client.Config.Writes.{become}
use tui_ssh_client.Prelude.Text.{Text}
use tui_ssh_client.Vault.Secrets.{Secrets, GitHubAuth}
use tui_ssh_client.Config.VaultFile.{
  VaultCalls, save_secrets, Outside, VaultError, Sealed, no_cipher, cipher, encrypt, Plain,
  no_plain, plain, decrypt,
}
use tui_ssh_client.Config.Bundle.Apply.{
  Local, Pull, ApplyCalls, apply_bundle, Json, BundleError, Packed, packed, not_packed, Summary,
  no_summary, summary, bundle_servers, Report,
}
use tui_ssh_client.Sync.Github.{
  SyncError, Repo, Reply, Got, got, refused, check, Contents, get_file, Payload, payload, put_file,
}
use tui_ssh_client.Ui.Sync.{
  Auth, Failure, Msg, sync_error, vault_error, bundle_error, check_failed, push_failed,
  fetch_failed, apply_failed, checked, pushed, fetched, applied,
}

-- repo of remoteFor
unfoldable pub repo_of : Auth → Repo
repo_of a = record { owner = a.owner; name = a.repo; path = a.path; branch = a.branch }

-- pushCmd up to the upload: what is sent, with the number of servers that the message states, given the
-- sha that the registration has as the request is made.
pub data Upload : Type 0 where
  not_sent : Failure → Upload
  sends : Payload → ℕ → Upload

abbrev servers_in : Summary → ℕ
servers_in (no_summary e) = 0
servers_in (summary n updated device) = n

unfoldable pub seal_and_send : Repo → Text → ℕ → Sealed → Upload
seal_and_send r sha n (no_cipher e) = not_sent (vault_error e)
seal_and_send r sha n (cipher c) = sends (payload r c sha) n

unfoldable pub bundle_and_send : Outside → Json → Repo → Text → Text → Packed → Upload
unfolding seal_and_send
bundle_and_send o j r pass sha (not_packed e) = not_sent (bundle_error e)
bundle_and_send o j r pass sha (packed b) =
    seal_and_send r sha (servers_in (bundle_servers j (j.write b))) (encrypt o (j.write b) pass)

unfoldable pub checked_then : Option SyncError → Upload → Upload
checked_then none u = u
checked_then (some e) u = not_sent (sync_error e)

unfoldable pub upload : Outside → Json → Auth → Text → Text → Reply Bool → Packed → Upload
unfolding bundle_and_send checked_then
upload o j a pass sha private_ b =
    checked_then (check private_) (bundle_and_send o j (repo_of a) pass sha b)

unfoldable pub push_answer : ℕ → Got Text → Msg
push_answer n (got sha) = pushed sha n
push_answer n (refused e) = push_failed (sync_error e)

-- The end of pushCmd, with the reply to the upload.
unfoldable pub after_upload : ℕ → Reply Text → Msg
unfolding push_answer
after_upload n r = push_answer n (put_file r)

unfoldable pub fetch_summary : Text → Text → Summary → Msg
fetch_summary blob sha (no_summary e) = fetch_failed (bundle_error e)
fetch_summary blob sha (summary n updated device) =
    fetched (record { blob = blob; sha = sha; servers = n; updated = updated; device = device })

unfoldable pub fetch_plain : Json → Text → Plain → Msg
unfolding fetch_summary
fetch_plain j sha (no_plain e) = fetch_failed (vault_error e)
fetch_plain j sha (plain blob) = fetch_summary blob sha (bundle_servers j blob)

unfoldable pub fetch_got : Outside → Json → Text → Got (Text × Text) → Msg
unfolding fetch_plain
fetch_got o j pass (refused e) = fetch_failed (sync_error e)
fetch_got o j pass (got (c, sha)) = fetch_plain j sha (decrypt o c pass)

-- pullCmd, with the reply to Get
unfoldable pub fetch : Outside → Json → Text → Reply Contents → Msg
unfolding fetch_got
fetch o j pass r = fetch_got o j pass (get_file r)

unfoldable pub check_answer : Auth → Option SyncError → Msg
check_answer a none = checked a
check_answer a (some e) = check_failed (sync_error e)

-- checkRepoCmd
unfoldable pub check_command : Auth → Reply Bool → Msg
unfolding check_answer
check_command a r = check_answer a (check r)

abbrev pub auth_of : GitHubAuth → Auth
auth_of g = record {
  owner = g.owner;
  repo = g.repo;
  path = g.path;
  branch = g.branch;
  token = g.token;
}

abbrev pub auth_if : Option GitHubAuth → Option Auth
auth_if none = none
auth_if (some g) = some (auth_of g)

abbrev pub sha_if : Option GitHubAuth → Text
sha_if none = []
sha_if (some g) = g.sha

-- The registration is this machine's, with the sha that was fetched.
unfoldable pub keep_registration : Option GitHubAuth → Text → Secrets → Secrets
keep_registration none sha s = s
keep_registration (some g) sha s = record s { github = some (record g { sha = sha }) }

unfoldable pub saved_pull : Report → Secrets → Option Text × Option VaultError → Pull → Pull × Msg
unfolding become
saved_pull rep s (file, some e) r = (r, apply_failed (vault_error e))
saved_pull rep s (file, none) r =
    (become (record r.now { vault = file }) r, applied rep (auth_if s.github) (sha_if s.github))

unfoldable pub save_pull : Outside → VaultCalls → Secrets → Text → Pull → Pull × Msg
unfolding saved_pull
save_pull o y s pass r = saved_pull r.report s (save_secrets o y s pass r.now.vault) r

unfoldable pub end_pull :
    Outside → VaultCalls → Option GitHubAuth → Text → Text → Option BundleError → Pull → Pull × Msg
unfolding save_pull keep_registration
end_pull o y g sha pass (some e) r = (r, apply_failed (bundle_error e))
end_pull o y g sha pass none r = save_pull o y (keep_registration g sha r.secrets) pass r

-- applyPullCmd: the files, and the message
unfoldable pub apply_command :
    Outside → Json → ApplyCalls → Text → Text → Secrets → Text → Local → Pull × Msg
unfolding end_pull
apply_command o j c blob sha sec pass d =
    let r = apply_bundle j c blob sec d in end_pull o c.vault sec.github sha pass r.err r
