-- ===== src/Ui/Sftp/Keys.antt =====
-- internal/ui/sftp.go and app.go: opening the split view, and its keys.
use tui_ssh_client.Prelude.{
  ℕ, ◌-◌, Bool, true, false, ◌&&◌, List, [], ◌∷◌, ◌++◌, Option, none, some, max, length, is_some,
  if◌then◌else◌,
}
use tui_ssh_client.Prelude.Int.{ℤ, pos, ◌-ℤ◌}
use tui_ssh_client.Prelude.Text.{Text, codes, text_eq, is_empty}
use tui_ssh_client.Prelude.Path.{join_path, dir_path}
use tui_ssh_client.Model.Server.{Server, title, addr}
use tui_ssh_client.Sftp.Tree.{FileEntry}
use tui_ssh_client.Ui.Keymap.{action}
use tui_ssh_client.Ui.State.{Focus, focus_local, focus_sidebar, right_sftp}
use tui_ssh_client.Ui.Sftp.Pane.{
  Side, this_machine, Pane, new_pane, parent_name, selected, toggle_mark, clear_marks, targets,
  move_cursor,
}
use tui_ssh_client.Ui.Sftp.State.{
  Cmd, nothing, batch, list_dir, connect_sftp, edit_server, open_tab, panic, no_status,
  still_connected, no_notice, SplitView, pane, set_pane, other_side, teardown_sftp,
}
use tui_ssh_client.Ui.Sftp.Handlers.{build_transfer, start_delete, start_rename}

abbrev or_root : Option Text → Text
or_root none = codes "/"
or_root (some h) = h

-- (a *App) startSFTP. The secrets of the entry are put in by config.Inject as the command is made.
unfoldable pub start_sftp : SplitView → Server → SplitView × Cmd
start_sftp a srv =
    let b = teardown_sftp a in
    (
      record b {
        id = srv.id;
        name = title srv;
        addr = srv.user ++ (codes "@" ++ addr srv);
        connecting = title srv;
        last_attempt = srv;
        last_was_sftp = true;
        fail_err = none;
        sftp_err = none;
        right_mode = right_sftp;
        focus = focus_local;
        err_msg = no_notice;
        status = no_status;
        local = new_pane (some this_machine) b.body_rows;
        remote_pane = new_pane none b.body_rows;
      },
      batch (list_dir this_machine focus_local (or_root b.home) b.gen) (connect_sftp srv b.gen),
    )

-- (a *App) openSFTP, for the server row under the cursor of the sidebar, if it is one.
unfoldable pub open_sftp : SplitView → Option Server → SplitView × Cmd
open_sftp a none = (a, nothing)
open_sftp a (some srv) =
    if is_some a.remote && text_eq a.id srv.id
    then (record a { right_mode = right_sftp; focus = focus_local; err_msg = no_notice }, nothing)
    else start_sftp a srv

-- The saved entry as it is now, or the one that was tried.
unfoldable pub current_entry : List Server → Server → Server
current_entry [] srv = srv
current_entry (s ∷ ss) srv =
    let rest = current_entry ss srv in if text_eq s.id srv.id then s else rest

-- (a *App) retryConnect
unfoldable pub retry_connect : SplitView → SplitView × Cmd
unfolding current_entry
retry_connect a =
    let srv = current_entry a.servers a.last_attempt in
    if is_empty srv.host
    then (a, nothing)
    else if a.last_was_sftp
    then start_sftp a srv
    else (a, open_tab srv)

-- (a *App) dismissSFTPError
unfoldable pub dismiss_sftp_error : SplitView → SplitView
dismiss_sftp_error a = record a { sftp_err = none; fail_err = none; err_msg = no_notice }

abbrev pub acts : Option Text → Text → Bool
acts none act = false
acts (some t) act = text_eq t act

-- The keys of the card that floats over the panes.
unfoldable pub card_key : SplitView → Option Text → SplitView × Cmd
card_key a act =
    if acts act (codes "error.retry")
    then retry_connect a
    else if acts act (codes "error.edit")
    then (dismiss_sftp_error a, edit_server a.last_attempt)
    else if acts act (codes "error.dismiss")
    then (dismiss_sftp_error a, nothing)
    else (a, nothing)

-- (a *App) openDir with a directory that a method of the pane's browser computes, and listDir.
unfoldable pub open_dir : SplitView → Focus → Option Side → Text → SplitView × Cmd
open_dir a side none dir = (a, panic)
open_dir a side (some s) dir = (a, list_dir s side dir a.gen)

unfoldable pub open_selected : SplitView → Focus → Pane → Option FileEntry → SplitView × Cmd
open_selected a side p none = (a, nothing)
open_selected a side p (some e) =
    if e.is_dir
    then if text_eq e.name parent_name
      then open_dir a side p.br (dir_path p.dir)
      else open_dir a side p.br (join_path p.dir e.name)
    else build_transfer a side (targets p)

-- -n
abbrev pub minus : ℕ → ℤ
minus n = pos 0 -ℤ pos n

unfoldable pub moved : SplitView → Focus → Pane → ℤ → SplitView × Cmd
moved a side p d = (set_pane a side (move_cursor p d), nothing)

-- The switch on the action of the key, for the pane of `side`: the cursor and the directories.
unfoldable pub move_act : SplitView → Focus → Pane → Option Text → SplitView × Cmd
unfolding open_dir open_selected moved
move_act a side p act =
    if acts act (codes "sftp.up")
    then moved a side p (minus 1)
    else if acts act (codes "sftp.down")
    then moved a side p (pos 1)
    else if acts act (codes "sftp.page_up")
    then moved a side p (minus (max (p.rows - 1) 1))
    else if acts act (codes "sftp.page_down")
    then moved a side p (pos (max (p.rows - 1) 1))
    else if acts act (codes "sftp.home")
    then moved a side p (minus (length p.entries))
    else if acts act (codes "sftp.end")
    then moved a side p (pos (length p.entries))
    else if acts act (codes "sftp.parent")
    then open_dir a side p.br (dir_path p.dir)
    else if acts act (codes "sftp.refresh")
    then open_dir a side p.br p.dir
    else if acts act (codes "sftp.open")
    then open_selected a side p (selected p)
    else (a, nothing)

-- The whole switch.
unfoldable pub pane_act : SplitView → Focus → Pane → Option Text → SplitView × Cmd
unfolding move_act
pane_act a side p act =
    if acts act (codes "sftp.back")
    then (record a { focus = focus_sidebar; status = still_connected }, nothing)
    else if acts act (codes "sftp.switch_pane")
    then (record a { focus = other_side side }, nothing)
    else if acts act (codes "sftp.mark")
    then moved a side (toggle_mark p) (pos 1)
    else if acts act (codes "sftp.clear_marks")
    then (set_pane a side (clear_marks p), nothing)
    else if acts act (codes "sftp.transfer")
    then build_transfer a side (targets p)
    else if acts act (codes "sftp.delete")
    then start_delete a side p
    else if acts act (codes "sftp.rename")
    then (start_rename a side p, nothing)
    else move_act a side p act

unfoldable pub pane_key : SplitView → Text → Option Pane → SplitView × Cmd
unfolding pane_act card_key
pane_key a key none = (record a { focus = focus_sidebar }, nothing)
pane_key a key (some p) =
    if is_some a.sftp_err
    then card_key a (action a.keys (codes "error") key)
    else pane_act a a.focus p (action a.keys (codes "sftp") key)

-- (a *App) handleSFTPKey
unfoldable pub handle_sftp_key : SplitView → Text → SplitView × Cmd
unfolding pane_key
handle_sftp_key a key = pane_key a key (pane a a.focus)
