-- ===== src/Ui/Sftp/Results.antt =====
-- internal/ui/app.go: what Update does with the results of the split view's commands.
use tui_ssh_client.Prelude.{ℕ, Bool, true, false, List, [], ◌∷◌, Option, none, some, if◌then◌else◌}
use tui_ssh_client.Prelude.Text.{Text}
use tui_ssh_client.Ssh.Errors.{Err, is, key_passphrase_required}
use tui_ssh_client.Sftp.Tree.{FileEntry}
use tui_ssh_client.Ui.State.{Focus, focus_local, focus_remote, focus_sidebar}
use tui_ssh_client.Ui.Update.{first_line_of}
use tui_ssh_client.Ui.Sftp.Pane.{Side, server, Pane, set_entries}
use tui_ssh_client.Sftp.RunSet.{Set}
use tui_ssh_client.Ui.Sftp.State.{
  Request, Cmd, nothing, batch, list_dir, run_delete, answer_prompt, Confirm, no_status, sftp_ready,
  transfer_cancelled, sent, Notice, no_notice, first_line, SplitView, cancel_of, set_pane,
}

-- How a transfer ended: ErrCancelled, another error, or none.
pub data Ending : Type 0 where
  sent_all was_cancelled : Ending
  failed_with : Err → Ending

unfoldable pub connected : SplitView → ℕ → Text → List FileEntry → SplitView
connected a c dir es = record a {
  remote = some c;
  remote_pane = set_entries (record a.remote_pane { br = some (server c) }) dir es;
  connecting = [];
  status = sftp_ready;
}

unfoldable pub failed : SplitView → Err → SplitView
failed a e =
    let b = record a { connecting = []; confirm = none } in
    if is key_passphrase_required e then record b { key_pass = some a.last_attempt } else record b {
      sftp_err = some e;
      fail_err = some e;
      focus = focus_local;
      err_msg = first_line (first_line_of e);
    }

unfoldable pub listed_in : SplitView → Focus → Option Pane → (Pane → Pane) → SplitView
listed_in a side none f = a
listed_in a side (some p) f = set_pane a side (f p)

-- The end of a walk: its flag and its status line go.
abbrev pub scanned : SplitView → SplitView
scanned a = record a { scanning = false; status = no_status }

unfoldable pub ask : SplitView → Request → List Set → SplitView
ask a req [] = a
ask a req (s ∷ ss) = record a { pending = some req }

abbrev pub br_of : Option Pane → Option Side
br_of none = none
br_of (some p) = p.br

-- (a *App) deleteConfirm
unfoldable pub delete_confirm :
    SplitView → Text → List FileEntry → ℕ → ℕ → Option Side → Option Confirm
delete_confirm a dir [] files dirs s = none
delete_confirm a dir (e ∷ es) files dirs none = none
delete_confirm a dir (e ∷ es) files dirs (some s) = some (record {
  files = files;
  dirs = dirs;
  on_yes = run_delete s dir (e ∷ es) a.gen;
  on_no = nothing;
})

unfoldable pub refresh_pane : Focus → Pane → ℕ → Option Side → Text → Cmd
refresh_pane side p gen none dir = nothing
refresh_pane side p gen (some s) [] = nothing
refresh_pane side p gen (some s) (c ∷ dir) = list_dir s side (c ∷ dir) gen

-- (a *App) refreshPanes
unfoldable pub refresh_panes : SplitView → Cmd
unfolding refresh_pane
refresh_panes a =
    batch (refresh_pane focus_local a.local a.gen a.local.br a.local.dir)
      (refresh_pane focus_remote a.remote_pane a.gen a.remote_pane.br a.remote_pane.dir)

tell_end : SplitView → Text → ℕ → ℕ → Ending → SplitView
tell_end a label bytes skipped was_cancelled = record a {
  err_msg = no_notice;
  status = transfer_cancelled;
}
tell_end a label bytes skipped (failed_with e) = record a {
  err_msg = first_line (first_line_of e);
  status = no_status;
}
tell_end a label bytes skipped sent_all = record a {
  err_msg = no_notice;
  status = sent label bytes skipped;
}

unfoldable pub done : SplitView → Text → ℕ → ℕ → Ending → SplitView × Cmd
unfolding tell_end
done a label bytes skipped ending =
    let b = record a { cancelled = cancel_of a.transfer a.cancelled; transfer = none } in
    (tell_end b label bytes skipped ending, refresh_panes a)

unfoldable pub notice_of : Option Err → Notice
notice_of none = no_notice
notice_of (some e) = first_line (first_line_of e)

-- (a *App) askHostKey
unfoldable pub ask_host_key : SplitView → ℕ → Bool → SplitView × Cmd
ask_host_key a n false = (a, answer_prompt n false)
ask_host_key a n true = (
  record a {
    confirm = some (record {
      files = 0;
      dirs = 0;
      on_yes = answer_prompt n true;
      on_no = answer_prompt n false;
    });
    focus = focus_sidebar;
  },
  nothing,
)
