-- ===== src/Ui/Sftp/Update.antt =====
-- internal/ui/app.go: the messages of the split view, and the keys and the mouse on their way to it.
use tui_ssh_client.Prelude.{
  ℕ, ◌-◌, max, Bool, true, false, not, ◌&&◌, List, ◌∷◌, Option, none, some, ◌==◌, is_some,
  if◌then◌else◌,
}
use tui_ssh_client.Prelude.Text.{Text, codes}
use tui_ssh_client.Model.Server.{Server}
use tui_ssh_client.Ssh.Errors.{Err}
use tui_ssh_client.Sftp.Tree.{FileEntry}
use tui_ssh_client.Ui.Keymap.{action}
use tui_ssh_client.Ui.State.{
  Focus, focus_local, focus_remote, focus_sidebar, focus_session, RightMode, right_sftp,
  right_error, right_terminal, right_empty, top_margin, status_rows, border_size, right_header_rows,
}
use tui_ssh_client.Ui.Update.{first_line_of}
use tui_ssh_client.Ui.Sftp.Pane.{set_entries, list_failed, resize_pane}
use tui_ssh_client.Ui.Sftp.State.{
  Request, Cmd, nothing, tick_progress, edit_server, quit, Confirm, Status, transfer_cancelled,
  no_notice, first_line, SplitView, pane, teardown_sftp,
}
use tui_ssh_client.Ui.Sftp.Handlers.{start_transfer, cancel_transfer, resolve_rename}
use tui_ssh_client.Ui.Sftp.Keys.{open_sftp, retry_connect, acts, handle_sftp_key}
use tui_ssh_client.Ui.Sftp.Pointer.{Mouse, handle_sftp_mouse}
use tui_ssh_client.Ui.Sftp.Results.{
  Ending, connected, failed, listed_in, scanned, ask, br_of, delete_confirm, refresh_panes, done,
  notice_of, ask_host_key,
}

-- A key, with what Update reads besides its name: whether its type is ctrl+c, the value of the text
-- input, the server row under the cursor of the sidebar, and whether a session tab is open.
pub record Key : Type 0 where
  pub name : Text
  pub ctrl_c : Bool
  pub value : Text
  pub selected : Option Server
  pub tabs_open : Bool

-- The messages. A listing or a walk has an error or its answer. `host_key_prompt` has the number of
-- the question and whether a dial waits for it. A key reaches this part only while no prompt for a
-- passphrase and no help card is up, and the sidebar's filter is not being typed.
pub data Msg : Type 0 where
  sftp_connected : ℕ → ℕ → Text → List FileEntry → Msg
  sftp_failed : ℕ → Err → Msg
  listed : ℕ → Focus → Text → List FileEntry → Msg
  not_listed : ℕ → Focus → Text → Err → Msg
  planned : ℕ → Request → Msg
  not_planned : ℕ → Err → Msg
  delete_planned : ℕ → Focus → Text → List FileEntry → ℕ → ℕ → Msg
  progress_tick : ℕ → Msg
  transfer_done : ℕ → Text → ℕ → ℕ → Ending → Msg
  file_op_done : ℕ → Status → Option Err → Msg
  host_key_prompt : ℕ → Bool → Msg
  host_key_answered : Msg
  key : Key → Msg
  mouse : Mouse → Msg
  resized : ℕ → ℕ → Msg

-- (c *confirm) resolve, and what handleKey does with it
unfoldable pub resolve_confirm : SplitView → Confirm → Option Text → SplitView × Cmd
resolve_confirm a c act =
    if acts act (codes "confirm.yes")
    then (record a { confirm = none }, c.on_yes)
    else if acts act (codes "confirm.no")
    then (record a { confirm = none }, c.on_no)
    else (a, nothing)

-- (a *App) resolvePending
unfoldable pub resolve_pending : SplitView → Request → Option Text → SplitView × Cmd
resolve_pending a req act =
    if acts act (codes "confirm.yes")
    then start_transfer a req
    else if acts act (codes "confirm.no")
    then (record a { pending = none; status = transfer_cancelled }, nothing)
    else (a, nothing)

-- (a *App) dismissError
unfoldable pub dismiss_error : SplitView → Bool → SplitView
dismiss_error a tabs_open = record a {
  right_mode = if tabs_open then right_terminal else right_empty;
  fail_err = none;
  err_msg = no_notice;
  focus = focus_sidebar;
}

-- The keys of the sidebar that concern the split view.
unfoldable pub list_key : SplitView → Key → SplitView × Cmd
list_key a k =
    if acts (action a.keys (codes "global") k.name) (codes "global.quit")
    then (teardown_sftp a, quit)
    else if acts (action a.keys (codes "sidebar") k.name) (codes "sidebar.files")
    then open_sftp a k.selected
    else (a, nothing)

-- With the error card in the panel, its actions come first.
unfoldable pub sidebar_key : SplitView → Key → RightMode → SplitView × Cmd
unfolding list_key dismiss_error
sidebar_key a k right_error =
    let act = action a.keys (codes "error") k.name in
    if acts act (codes "error.retry")
    then retry_connect a
    else if acts act (codes "error.edit")
    then (a, edit_server a.last_attempt)
    else if acts act (codes "error.dismiss")
    then (dismiss_error a k.tabs_open, nothing)
    else list_key a k
sidebar_key a k _ = list_key a k

unfoldable pub focus_key : SplitView → Key → Focus → SplitView × Cmd
unfolding sidebar_key
focus_key a k focus_local = handle_sftp_key a k.name
focus_key a k focus_remote = handle_sftp_key a k.name
focus_key a k focus_sidebar = sidebar_key a k a.right_mode
focus_key a k _ = (a, nothing)

unfoldable pub pending_key : SplitView → Key → Option Request → SplitView × Cmd
unfolding focus_key resolve_pending
pending_key a k none = focus_key a k a.focus
pending_key a k (some req) = resolve_pending a req (action a.keys (codes "confirm") k.name)

unfoldable pub confirm_key : SplitView → Key → Option Confirm → SplitView × Cmd
unfolding pending_key resolve_confirm
confirm_key a k none = pending_key a k a.pending
confirm_key a k (some c) = resolve_confirm a c (action a.keys (codes "confirm") k.name)

unfoldable pub rename_key : SplitView → Key → SplitView × Cmd
unfolding confirm_key
rename_key a k = elim a.rename [
  | none ↦ confirm_key a k a.confirm
  | some r ↦ resolve_rename a r k.name k.value
]

abbrev pub is_session : Focus → Bool
is_session focus_session = true
is_session _ = false

-- (a *App) handleKey, as far as it concerns the split view
unfoldable pub handle_key : SplitView → Key → SplitView × Cmd
unfolding rename_key
handle_key a k =
    if is_some a.transfer && (not (is_session a.focus) && k.ctrl_c)
    then (cancel_transfer a, nothing)
    else rename_key a k

abbrev pub is_split : RightMode → Bool
is_split right_sftp = true
is_split _ = false

-- The guard of handleMouse before handleSFTPMouse.
abbrev pub mouse_free : SplitView → Bool
mouse_free a =
    is_split a.right_mode
    && (not (is_some a.confirm)
        && (not (is_some a.pending) && (not (is_some a.rename) && not (is_some a.sftp_err))))

-- The rows of a panel's body, of rightInner, for a frame of that height.
abbrev pub body_rows_for : ℕ → ℕ
body_rows_for height =
    max (max (height - top_margin - status_rows - border_size) 1 - right_header_rows) 1

-- (a *App) resize, for the panes: a size of 0 is taken for 80 by 24.
unfoldable pub resize_panes : SplitView → ℕ → ℕ → SplitView
resize_panes a width height =
    let rows = body_rows_for (if height == 0 then 24 else height) in
    record a {
      width = if width == 0 then 80 else width;
      body_rows = rows;
      local = resize_pane rows a.local;
      remote_pane = resize_pane rows a.remote_pane;
    }

-- A message of another connection than the present one is dropped.
abbrev pub current : SplitView → ℕ → SplitView × Cmd → SplitView × Cmd
current a g r = if g == a.gen then r else (a, nothing)

-- Update
unfoldable pub update : Msg → SplitView → SplitView × Cmd
unfolding connected failed listed_in ask delete_confirm done notice_of ask_host_key resize_panes
update (sftp_connected g c dir es) a =
    if g == a.gen
    then (connected a c dir es, nothing)
    else (record a { closed = c ∷ a.closed }, nothing)
update (sftp_failed g e) a = current a g (failed a e, nothing)
update (listed g side dir es) a =
    current a g (listed_in a side (pane a side) (λ p. set_entries p dir es), nothing)
update (not_listed g side dir e) a =
    current a g (listed_in a side (pane a side) (λ p. list_failed p dir (first_line_of e)), nothing)
update (planned g req) a =
    current a g (if a.scanning then (ask (scanned a) req req.sets, nothing) else (a, nothing))
update (not_planned g e) a = current a g (
    if a.scanning
    then (record (scanned a) { err_msg = first_line (first_line_of e) }, nothing)
    else (a, nothing))
update (delete_planned g side dir es files dirs) a = current a g (
    if a.scanning
    then (
      record (scanned a) { confirm = delete_confirm a dir es files dirs (br_of (pane a side)) },
      nothing,
    )
    else (a, nothing))
update (progress_tick g) a =
    current a g (if is_some a.transfer then (a, tick_progress a.gen) else (a, nothing))
update (transfer_done g label bytes skipped ending) a =
    current a g (done a label bytes skipped ending)
update (file_op_done g status e) a =
    current a g (record a { err_msg = notice_of e; status = status }, refresh_panes a)
update (host_key_prompt n waited) a = ask_host_key a n waited
update host_key_answered a = (record a { confirm = none }, nothing)
update (key k) a = handle_key a k
update (mouse m) a = if mouse_free a then handle_sftp_mouse a m else (a, nothing)
update (resized width height) a = (resize_panes a width height, nothing)
