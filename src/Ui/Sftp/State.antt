-- ===== src/Ui/Sftp/State.antt =====
-- internal/ui/sftp.go and app.go: the part of the root model that the split view reads and writes,
-- and the commands that it starts.
use tui_ssh_client.Prelude.{
  ℕ, ◌+◌, ◌-◌, ◌*◌, ◌/◌, Bool, false, List, [], ◌∷◌, Option, none, some, max, ltb, if◌then◌else◌,
}
use tui_ssh_client.Prelude.Text.{Text}
use tui_ssh_client.Model.Server.{Server}
use tui_ssh_client.Ssh.Errors.{Err}
use tui_ssh_client.Sftp.Tree.{FileEntry}
use tui_ssh_client.Sftp.RunSet.{Set}
use tui_ssh_client.Ui.Keymap.{Keymap}
use tui_ssh_client.Ui.State.{
  Focus, focus_local, focus_remote, RightMode, sidebar_width, border_size,
}
use tui_ssh_client.Ui.Sftp.Pane.{Side, Pane, new_pane}

-- transferReq
pub record Request : Type 0 where
  pub upload : Bool
  pub entries : List FileEntry
  pub src_dir : Text
  pub dst_dir : Text
  pub overwrite : List Text
  pub sets : List Set
  pub total : ℕ
  pub files : ℕ
  pub dirs : ℕ
  pub skipped : ℕ

-- planArgs
pub record PlanArgs : Type 0 where
  pub src : Side
  pub dst : Side
  pub upload : Bool
  pub src_dir : Text
  pub dst_dir : Text
  pub entries : List FileEntry
  pub existing : List Text
  pub gen : ℕ

-- transferState: the number of its context stands for the counter and for the cancel function.
pub record TransferState : Type 0 where
  pub ctx : ℕ
  pub label : Text
  pub upload : Bool
  pub cancelling : Bool

-- dragState
pub record Drag : Type 0 where
  pub from : Focus
  pub entries : List FileEntry
  pub over : Focus

-- renameState; what is typed is the text input's.
pub record Rename : Type 0 where
  pub side : Focus
  pub dir : Text
  pub from : Text
  pub err : Bool

-- The commands. `run_transfer` has the number of its context; `answer_prompt` is Accept or Reject
-- of a host key question, and `edit_server` and `open_tab` are calls of the rest of the model.
-- `panic` is a method call on a nil Browser, in the handler or in the command that it returns.
pub data Cmd : Type 0 where
  nothing : Cmd
  batch : Cmd → Cmd → Cmd
  list_dir : Side → Focus → Text → ℕ → Cmd
  connect_sftp : Server → ℕ → Cmd
  plan_transfer : PlanArgs → Cmd
  run_transfer : ℕ → Option ℕ → Request → ℕ → Cmd
  tick_progress : ℕ → Cmd
  plan_delete : Side → Focus → Text → List FileEntry → ℕ → Cmd
  run_delete : Side → Text → List FileEntry → ℕ → Cmd
  run_rename : Side → Text → Text → Text → ℕ → Cmd
  answer_prompt : ℕ → Bool → Cmd
  edit_server : Server → Cmd
  open_tab : Server → Cmd
  quit panic : Cmd

-- confirm, but for its texts; `files` and `dirs` are the counts that deleteConfirm writes out.
pub record Confirm : Type 0 where
  pub files : ℕ
  pub dirs : ℕ
  pub on_yes : Cmd
  pub on_no : Cmd

-- The status lines of the split view.
pub data Status : Type 0 where
  no_status sftp_ready still_connected scanning_status transfer_cancelled : Status
  rename_cancelled renaming : Status
  sent : Text → ℕ → ℕ → Status
  deleted : ℕ → Status
  deleted_of : ℕ → ℕ → Status
  renamed_to : Text → Status

pub data Notice : Type 0 where
  no_notice remote_not_connected transfer_running : Notice
  first_line : Text → Notice

-- `remote` is the connection's number, `gen` is sftpGen, `body_rows` is the second answer of
-- rightInner, and `home` is what Local.Home answers. `contexts` is how many contexts were made,
-- `cancelled` has those that were cancelled, and `closed` the connections that were closed.
pub record SplitView : Type 0 where
  pub keys : Keymap
  pub servers : List Server
  pub focus : Focus
  pub right_mode : RightMode
  pub width : ℕ
  pub body_rows : ℕ
  pub home : Option Text
  pub remote : Option ℕ
  pub local : Pane
  pub remote_pane : Pane
  pub gen : ℕ
  pub id : Text
  pub name : Text
  pub addr : Text
  pub connecting : Text
  pub drag : Option Drag
  pub pending : Option Request
  pub scanning : Bool
  pub transfer : Option TransferState
  pub rename : Option Rename
  pub sftp_err : Option Err
  pub fail_err : Option Err
  pub confirm : Option Confirm
  pub last_attempt : Server
  pub last_was_sftp : Bool
  pub key_pass : Option Server
  pub status : Status
  pub err_msg : Notice
  pub contexts : ℕ
  pub cancelled : List ℕ
  pub closed : List ℕ

-- (a *App) pane
unfoldable pub pane : SplitView → Focus → Option Pane
pane a focus_local = some a.local
pane a focus_remote = some a.remote_pane
pane a _ = none

-- A write through the pointer that `pane` gives.
unfoldable pub set_pane : SplitView → Focus → Pane → SplitView
set_pane a focus_local p = record a { local = p }
set_pane a focus_remote p = record a { remote_pane = p }
set_pane a _ p = a

-- otherSide
unfoldable pub other_side : Focus → Focus
other_side focus_local = focus_remote
other_side _ = focus_local

-- (a *App) sftpWidths
unfoldable pub sftp_widths : SplitView → ℕ × ℕ
sftp_widths a =
    let total = max (a.width - sidebar_width) (2 * (border_size + 1)) in
    (total / 2, total - total / 2)

-- (a *App) sideAt; `none` over the sidebar.
unfoldable pub side_at : SplitView → ℕ → Option Focus
unfolding sftp_widths
side_at a x =
    if ltb x sidebar_width
    then none
    else if ltb x (sidebar_width + (sftp_widths a).0)
    then some focus_local
    else some focus_remote

-- t.cancel()
abbrev pub cancel_of : Option TransferState → List ℕ → List ℕ
cancel_of none cs = cs
cancel_of (some t) cs = t.ctx ∷ cs

abbrev pub close_of : Option ℕ → List ℕ → List ℕ
close_of none cs = cs
close_of (some c) cs = c ∷ cs

-- (a *App) teardownSFTP
unfoldable pub teardown_sftp : SplitView → SplitView
teardown_sftp a = record a {
  cancelled = cancel_of a.transfer a.cancelled;
  transfer = none;
  closed = close_of a.remote a.closed;
  remote = none;
  remote_pane = new_pane none a.remote_pane.rows;
  id = [];
  name = [];
  addr = [];
  drag = none;
  pending = none;
  rename = none;
  scanning = false;
  sftp_err = none;
  gen = a.gen + 1;
}
