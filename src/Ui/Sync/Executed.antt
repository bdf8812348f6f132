-- ===== src/Ui/Sync/Executed.antt =====
-- What a command that runs does to the register.
use tui_ssh_client.Prelude.{
  ℕ, ◌≡◌, refl, ap, inr, Bool, List, Option, none, some, All, All-remove_at, All-get, get_elem?,
  remove_at, if_both,
}
use tui_ssh_client.Prelude.Text.{Text}
use tui_ssh_client.Prelude.Dict.{lookup}
use tui_ssh_client.Vault.Secrets.{GitHubAuth, Secrets}
use tui_ssh_client.Config.VaultFile.{Outside, VaultError, VaultCalls}
use tui_ssh_client.Config.Bundle.Apply.{Json, Report, BundleError, Pull}
use tui_ssh_client.Sync.Github.{SyncError, check}
use tui_ssh_client.Ui.Sync.{
  Auth, Registration, Cmd, check_repo, push_cmd, pull_cmd, apply_pull, persist, load_servers, Msg,
  check_failed, push_failed, fetch_failed, apply_failed, checked, pushed, fetched, applied,
}
use tui_ssh_client.Ui.Sync.Commands.{
  check_command, check_answer, apply_command, end_pull, save_pull, saved_pull, keep_registration,
}
use tui_ssh_client.Ui.Sync.Handlers.{sha_at}
use tui_ssh_client.Ui.Sync.World.{
  GitHub, Promises, World, Answers, held, vault_after, save_registration, execute, run_cmd, file_of,
  with_sha, post,
}
use tui_ssh_client.Ui.Sync.Register.{Register, rests, learned, applied_now}
use tui_ssh_client.Ui.Sync.Labels.{answer_move, cmd_move}
use tui_ssh_client.Ui.Sync.Simulates.{
  is_set, IsShaOf, IsBrought, CmdOk, MsgOk, VaultOk, Simulates, sha_at-IsShaOf, has-head,
}
use tui_ssh_client.Ui.Sync.Moves.{Moved, unmoved, post-Simulates, learned-Simulates}
use tui_ssh_client.Ui.Sync.Sent.{upload-Sends, send-Moved}
use tui_ssh_client.Ui.Sync.Pulled.{pulled-Moved}

module _ (g : GitHub) (o : Outside) (law : Promises g) where
  check-MsgOk :
      (s : Register) (b : Bool) (a : Auth) (e : Option SyncError) → MsgOk g o s b (check_answer a e)
  unfolding check_answer
  check-MsgOk s b a none = tt
  check-MsgOk s b a (some e) = tt

  -- How a pull that had a registration ends: with a failure, or with that and the sha of the bundle.
  AnswerOk : Register → Text → Msg → Type 0
  AnswerOk s blob (apply_failed e) = Unit
  AnswerOk s blob (applied rep (some a) sha) = IsBrought g o s blob sha
  AnswerOk s blob m = ⊥

  saved-AnswerOk :
      (s : Register) (rep : Report) (a : GitHubAuth) (sec : Secrets) (blob sha : Text)
      (v : Option Text × Option VaultError) (r : Pull)
      → IsBrought g o s blob sha
      → AnswerOk s blob (saved_pull rep (keep_registration (some a) sha sec) v r).1
  unfolding AnswerOk saved_pull keep_registration
  saved-AnswerOk s rep a sec blob sha (f, none) r k = k
  saved-AnswerOk s rep a sec blob sha (f, some e) r k = tt

  end-AnswerOk :
      (s : Register) (y : VaultCalls) (a : GitHubAuth) (blob sha pass : Text)
      (e : Option BundleError) (r : Pull)
      → IsBrought g o s blob sha
      → AnswerOk s blob (end_pull o y (some a) sha pass e r).1
  unfolding AnswerOk end_pull save_pull
  end-AnswerOk s y a blob sha pass none r k = saved-AnswerOk s _ a r.secrets blob sha _ r k
  end-AnswerOk s y a blob sha pass (some e) r k = tt

  with_vault :
      (w : World) (s : Register) (v : Option (Auth × Text))
      → VaultOk g o s v
      → Simulates g o w s
      → Simulates g o (record w { vault = v }) s
  with_vault w s v k h = record {
    files = h.files;
    shas = h.shas;
    ask = h.ask;
    running = h.running;
    mail = h.mail;
    vault = k;
  }

  saved-VaultOk :
      (s : Register) (saves : Bool) (shas : List Text) (r : Option Registration)
      (v : Option (Auth × Text))
      → All (IsShaOf g o s.seen) shas
      → VaultOk g o s v
      → VaultOk g o s (save_registration saves shas r v)
  unfolding save_registration
  saved-VaultOk s saves shas none v k h = if_both (VaultOk g o s) saves _ _ tt h
  saved-VaultOk s saves shas (some r) v k h =
      if_both (VaultOk g o s) saves _ _ (sha_at-IsShaOf g o s.seen shas r.cell k) h

  saved-Simulates :
      (w : World) (s : Register) (rep : Report) (a : Auth) (sha : Text)
      → IsShaOf g o s.seen sha
      → Simulates g o w s
      → Simulates g o
          (post
            (applied rep (some a) sha)
            (record w { vault = vault_after (applied rep (some a) sha) w.vault }))
          s
  unfolding vault_after
  saved-Simulates w s rep a sha k h =
      post-Simulates g o _ _ s k (with_vault w s (some (a, sha)) k h)

  -- What a pull brought is seen when it is applied.
  answered-Moved :
      (w : World) (s : Register) (blob : Text) (m : Msg)
      → Simulates g o w s
      → AnswerOk s blob m
      → Moved g o (post m (record w { vault = vault_after m w.vault })) s (answer_move blob m)
  unfolding AnswerOk vault_after
  answered-Moved w s blob (check_failed e) h ok = absurd ok
  answered-Moved w s blob (push_failed e) h ok = absurd ok
  answered-Moved w s blob (fetch_failed e) h ok = absurd ok
  answered-Moved w s blob (apply_failed e) h ok =
      unmoved g o _ s rests refl (post-Simulates g o _ _ s tt (with_vault w s w.vault h.vault h))
  answered-Moved w s blob (checked a) h ok = absurd ok
  answered-Moved w s blob (pushed sha n) h ok = absurd ok
  answered-Moved w s blob (fetched f) h ok = absurd ok
  answered-Moved w s blob (applied rep none sha) h ok = absurd ok
  answered-Moved w s blob (applied rep (some a) sha) h (c, there, e, q) = record {
    to = learned c s;
    moved = applied_now s c blob there q;
    holds =
        saved-Simulates w (learned c s) rep a sha (inr (c, has-head c s.seen, e))
          (learned-Simulates g o w s c h);
  }

  pull_applied-Moved :
      (j : Json) (w : World) (s : Register) (a : Answers) (blob sha : Text)
      (r : Option Registration)
      → Simulates g o w s
      → CmdOk g o s (is_set w.app.registration) (apply_pull blob sha r)
      → Moved g o
          (execute g o j a (apply_pull blob sha r) w)
          s
          (cmd_move o j a w (some (apply_pull blob sha r)))
  unfolding execute held apply_command
  pull_applied-Moved j w s a blob sha none h ok = absurd ok
  pull_applied-Moved j w s a blob sha (some r) h ok = answered-Moved w s blob _ h (
      end-AnswerOk s a.calls.vault (with_sha r.auth (sha_at w.app.shas r.cell)) blob sha a.pass _ _
        ok)

  execute-Moved :
      (j : Json) (w : World) (s : Register) (a : Answers) (c : Cmd)
      → Simulates g o w s
      → CmdOk g o s (is_set w.app.registration) c
      → Moved g o (execute g o j a c w) s (cmd_move o j a w (some c))
  unfolding execute check_command
  execute-Moved j w s a (check_repo auth) h ok =
      unmoved g o _ s rests refl
        (post-Simulates g o _ w s (check-MsgOk s _ auth (check a.private_)) h)
  execute-Moved j w s a (push_cmd r) h ok =
      send-Moved g o law w s a (file_of r.auth) (sha_at w.app.shas r.cell) _ h
        (upload-Sends o j r.auth a.pass (sha_at w.app.shas r.cell) a.private_ a.made)
        (sha_at-IsShaOf g o s.seen w.app.shas r.cell h.shas)
  execute-Moved j w s a (pull_cmd r) h ok =
      pulled-Moved g o j w s a (file_of r.auth) (lookup (file_of r.auth) w.files)
        (ap (lookup (file_of r.auth)) h.files) ok h
  execute-Moved j w s a (apply_pull blob sha r) h ok = pull_applied-Moved j w s a blob sha r h ok
  execute-Moved j w s a (persist r) h ok =
      unmoved g o _ s rests refl
        (with_vault w s _ (saved-VaultOk s a.saves w.app.shas r w.vault h.shas h.vault) h)
  execute-Moved j w s a load_servers h ok = unmoved g o w s rests refl h

  not_running :
      (w : World) (s : Register) (i : ℕ)
      → Simulates g o w s
      → Simulates g o (record w { running = remove_at i w.running }) s
  not_running w s i h = record {
    files = h.files;
    shas = h.shas;
    ask = h.ask;
    running = All-remove_at (CmdOk g o s (is_set w.app.registration)) i w.running h.running;
    mail = h.mail;
    vault = h.vault;
  }

  pub run_cmd-Moved :
      (j : Json) (w : World) (s : Register) (a : Answers) (i : ℕ) (c : Option Cmd)
      → get_elem? w.running i ≡ c
      → Simulates g o w s
      → Moved g o (run_cmd g o j a i c w) s (cmd_move o j a w c)
  unfolding run_cmd
  run_cmd-Moved j w s a i none e h = unmoved g o w s rests refl h
  run_cmd-Moved j w s a i (some c) e h =
      execute-Moved j (record w { running = remove_at i w.running }) s a c (not_running w s i h)
        (All-get (CmdOk g o s (is_set w.app.registration)) w.running i c h.running e)
