-- ===== src/Ui/Sftp/Handlers.antt =====
-- internal/ui/sftp.go: the operations of the split view that the keys and the mouse share.
use tui_ssh_client.Prelude.{
  ℕ, suc, ◌+◌, Bool, true, false, ◌||◌, List, [], ◌∷◌, ◌++◌, Option, none, some, map, length,
  is_some, if◌then◌else◌,
}
use tui_ssh_client.Prelude.Text.{Text, codes, text_eq, is_empty, itoa, contains_any, trim_space}
use tui_ssh_client.Sftp.Tree.{FileEntry}
use tui_ssh_client.Ui.State.{Focus, focus_local}
use tui_ssh_client.Ui.Sftp.Pane.{Side, Pane, selected, is_cargo, targets}
use tui_ssh_client.Ui.Sftp.State.{
  Request, TransferState, Rename, Cmd, nothing, batch, plan_transfer, run_transfer, tick_progress,
  plan_delete, run_rename, no_status, scanning_status, rename_cancelled, renaming, no_notice,
  remote_not_connected, transfer_running, SplitView, pane, other_side,
}

-- copyable
unfoldable pub copyable : List FileEntry → List FileEntry
copyable [] = []
copyable (e ∷ es) = let rest = copyable es in if is_cargo e then e ∷ rest else rest

abbrev pub names_of : List FileEntry → List Text
names_of es = map (λ e. e.name) es

abbrev pub is_local : Focus → Bool
is_local focus_local = true
is_local _ = false

-- From the check of the entries on.
start_scan : SplitView → Focus → Side → Side → Pane → Pane → List FileEntry → SplitView × Cmd
start_scan a from s d src dst [] = (a, nothing)
start_scan a from s d src dst (e ∷ es) = (
  record a { err_msg = no_notice; scanning = true; status = scanning_status },
  plan_transfer (record {
    src = s;
    dst = d;
    upload = is_local from;
    src_dir = src.dir;
    dst_dir = dst.dir;
    entries = e ∷ es;
    existing = names_of dst.entries;
    gen = a.gen;
  }),
)

-- Whether a copy or a walk is under way.
abbrev pub is_busy : SplitView → Bool
is_busy a = is_some a.transfer || a.scanning

-- With both panes, their browsers and the connection at hand.
scan_between :
    SplitView
    → Focus
    → List FileEntry
    → Pane
    → Pane
    → Option Side
    → Option Side
    → Option ℕ
    → SplitView × Cmd
unfolding start_scan copyable
scan_between a from es src dst (some s) (some d) (some c) =
    if is_busy a
    then (record a { err_msg = transfer_running }, nothing)
    else start_scan a from s d src dst (copyable es)
scan_between a from es src dst _ _ _ = (record a { err_msg = remote_not_connected }, nothing)

scan_panes : SplitView → Focus → List FileEntry → Option Pane → Option Pane → SplitView × Cmd
unfolding scan_between
scan_panes a from es (some src) (some dst) = scan_between a from es src dst src.br dst.br a.remote
scan_panes a from es _ _ = (record a { err_msg = remote_not_connected }, nothing)

-- (a *App) buildTransfer
unfoldable pub build_transfer : SplitView → Focus → List FileEntry → SplitView × Cmd
unfolding scan_panes
build_transfer a from es = scan_panes a from es (pane a from) (pane a (other_side from))

-- transferReq.label
label_of : List FileEntry → Text
label_of [] = codes "0 items"
label_of (e ∷ []) = e.name
label_of (e ∷ d ∷ es) = itoa (suc (suc (length es))) ++ codes " items"

unfoldable pub label : Request → Text
unfolding label_of
label req = label_of req.entries

-- (a *App) startTransfer
unfoldable pub start_transfer : SplitView → Request → SplitView × Cmd
start_transfer a req = (
  record a {
    pending = none;
    contexts = a.contexts + 1;
    transfer =
        some
          (record { ctx = a.contexts; label = label req; upload = req.upload; cancelling = false });
    err_msg = no_notice;
    status = no_status;
  },
  batch (run_transfer a.contexts a.remote req a.gen) (tick_progress a.gen),
)

cancel_state : SplitView → Option TransferState → SplitView
cancel_state a none = a
cancel_state a (some t) = record a {
  transfer = some (record t { cancelling = true });
  cancelled = t.ctx ∷ a.cancelled;
}

-- (a *App) cancelTransfer
unfoldable pub cancel_transfer : SplitView → SplitView
unfolding cancel_state
cancel_transfer a = cancel_state a a.transfer

delete_entries : SplitView → Focus → Side → Text → List FileEntry → SplitView × Cmd
delete_entries a side s dir [] = (a, nothing)
delete_entries a side s dir (e ∷ es) = (
  record a { err_msg = no_notice; scanning = true; status = scanning_status },
  plan_delete s side dir (e ∷ es) a.gen,
)

delete_in : SplitView → Focus → Pane → Option Side → SplitView × Cmd
unfolding delete_entries copyable
delete_in a side p none = (a, nothing)
delete_in a side p (some s) =
    if is_busy a
    then (record a { err_msg = transfer_running }, nothing)
    else delete_entries a side s p.dir (copyable (targets p))

-- (a *App) startDelete, for the pane of `side`
unfoldable pub start_delete : SplitView → Focus → Pane → SplitView × Cmd
unfolding delete_in
start_delete a side p = delete_in a side p p.br

rename_entry : SplitView → Focus → Pane → Option Side → Option FileEntry → SplitView
rename_entry a side p (some s) (some e) =
    if is_cargo e
    then record a {
      err_msg = no_notice;
      rename = some (record { side = side; dir = p.dir; from = e.name; err = false });
    }
    else a
rename_entry a side p _ _ = a

-- (a *App) startRename, for the pane of `side`
unfoldable pub start_rename : SplitView → Focus → Pane → SplitView
unfolding rename_entry
start_rename a side p = rename_entry a side p p.br (selected p)

abbrev pub side_of : Option Pane → Option Side
side_of none = none
side_of (some p) = p.br

rename_to : SplitView → Rename → Text → Option Side → SplitView × Cmd
rename_to a r name none = (record a { rename = none }, nothing)
rename_to a r name (some s) =
    if is_empty name || text_eq name r.from
    then (record a { rename = none }, nothing)
    else if contains_any name (codes "/\\")
    then (record a { rename = some (record r { err = true }) }, nothing)
    else (record a { rename = none; status = renaming }, run_rename s r.dir r.from name a.gen)

-- (a *App) resolveRename: `value` is what the text input holds.
unfoldable pub resolve_rename : SplitView → Rename → Text → Text → SplitView × Cmd
unfolding rename_to
resolve_rename a r key value =
    if text_eq key (codes "esc")
    then (record a { rename = none; status = rename_cancelled }, nothing)
    else if text_eq key (codes "enter")
    then rename_to a r (trim_space value) (side_of (pane a r.side))
    else (record a { rename = some (record r { err = false }) }, nothing)
