-- ===== src/Ui/Sftp/Tests.antt =====
-- Witnesses for the properties of the split view, and two runs of it.
use tui_ssh_client.Prelude.{◌≤◌, ◌≡◌, ◌⊎◌, refl, true, false, List, [], ◌∷◌, none, some, arith, All}
use tui_ssh_client.Prelude.Text.{Text, codes, text_eq, split, has_prefix, join}
use tui_ssh_client.Prelude.Int.{◌+ℤ◌}
use tui_ssh_client.Model.Server.{Server}
use tui_ssh_client.Sftp.Tree.{FileEntry}
use tui_ssh_client.Ui.Keymap.{Keymap, action}
use tui_ssh_client.Ui.State.{focus_sidebar, focus_local, right_empty}
use tui_ssh_client.Ui.Sftp.Pane.{
  Pane, new_pane, this_machine, server, row_to_index, set_entries, move_cursor, clamp_int, targets,
  transferable,
}
use tui_ssh_client.Ui.Sftp.Pane.Window.{new_pane-IsShown, picked}
use tui_ssh_client.Ui.Sftp.State.{
  SplitView, Request, nothing, panic, plan_transfer, no_status, no_notice, teardown_sftp, pane,
  set_pane, other_side, side_at,
}
use tui_ssh_client.Ui.Sftp.Keys.{start_sftp, handle_sftp_key, open_sftp}
use tui_ssh_client.Ui.Sftp.Pointer.{press, release, grab, handle_sftp_mouse}
use tui_ssh_client.Ui.Sftp.Update.{sftp_connected, listed, planned, key, mouse, update, handle_key}
use tui_ssh_client.Ui.Sftp.World.{World, Event, message, handled, run, step}
use tui_ssh_client.Ui.Sftp.World.Change.{one_if, ctx_of, Shown}
use tui_ssh_client.Ui.Sftp.World.Owned.{mem, running}
use tui_ssh_client.Ui.Sftp.World.Single.{
  IsIdle, IsIdle-Inv, run-Inv, one_copy_runs, panes_stay_shown,
}
use tui_ssh_client.Ui.Sftp.World.Superseded.{superseded_silent}
use tui_ssh_client.Prelude.Dict.{lookup}
use tui_ssh_client.Prelude.Path.{dir_path, clean}
use tui_ssh_client.Ui.Sftp.Handlers.{build_transfer, copyable, start_transfer, label}
use tui_ssh_client.Prelude.Words.{has}
use tui_ssh_client.Config.Fixture.{web}

abbrev alpha : Server
alpha = record web {
  id = codes "1";
  name = codes "alpha";
  host = codes "a.example";
  user = codes "me";
}

abbrev file_of : Text → FileEntry
file_of n = record { name = n; size = 5; link = false; is_dir = false }

abbrev few_keys : Keymap
few_keys = record {
  rows = [];
  index = λ ctx.
      (codes "f", codes "sidebar.files")
      ∷ (codes "d", codes "sftp.down")
      ∷ (codes "t", codes "sftp.transfer")
      ∷ (codes "y", codes "confirm.yes")
      ∷ (codes "w", codes "sftp.switch_pane")
      ∷ (codes "u", codes "sftp.parent")
      ∷ [];
}

abbrev idle : SplitView
idle = record {
  keys = few_keys;
  servers = alpha ∷ [];
  focus = focus_sidebar;
  right_mode = right_empty;
  width = 90;
  body_rows = 3;
  home = some (codes "/home/me");
  remote = none;
  local = new_pane none 3;
  remote_pane = new_pane none 3;
  gen = 0;
  id = [];
  name = [];
  addr = [];
  connecting = [];
  drag = none;
  pending = none;
  scanning = false;
  transfer = none;
  rename = none;
  sftp_err = none;
  fail_err = none;
  confirm = none;
  last_attempt = alpha;
  last_was_sftp = false;
  key_pass = none;
  status = no_status;
  err_msg = no_notice;
  contexts = 0;
  cancelled = [];
  closed = [];
}

abbrev idle_world : World
idle_world = record { view = idle; copies = [] }

idle_world-IsIdle : IsIdle idle_world
idle_world-IsIdle = record {
  unloaded = refl;
  unasked = refl;
  shown = (new_pane-IsShown none 3, new_pane-IsShown none 3);
  no_copies = refl;
}

abbrev typed : Text → Event
typed name = message (
    key (record {
      name = name;
      ctrl_c = false;
      value = [];
      selected = some alpha;
      tabs_open = false;
    }))

abbrev one_file : Request
one_file = record {
  upload = true;
  entries = file_of (codes "a") ∷ [];
  src_dir = codes "/home/me";
  dst_dir = codes "/srv";
  overwrite = [];
  sets =
      record {
        upload = true;
        src_root = codes "/home/me/a";
        dst_root = codes "/srv/a";
        items = [];
        skipped = 0;
      }
      ∷ [];
  total = 5;
  files = 1;
  dirs = 0;
  skipped = 0;
}

-- [f] on the server, both listings, [t] on the second row, the answer of the walk, and yes to it.
abbrev to_transfer : List Event
to_transfer =
    typed (codes "f")
    ∷ message (listed 1 focus_local (codes "/home/me") (file_of (codes "a") ∷ []))
    ∷ message (sftp_connected 1 7 (codes "/srv") [])
    ∷ typed (codes "d")
    ∷ typed (codes "t")
    ∷ message (planned 1 one_file)
    ∷ typed (codes "y")
    ∷ []

one_copy_runs_example :
    (running (run to_transfer idle_world).view.cancelled (run to_transfer idle_world).copies
      ≤ one_if (run to_transfer idle_world).view.transfer)
    × All
        (λ c.
          (ctx_of (run to_transfer idle_world).view.transfer ≡ some c.ctx)
          ⊎ (mem c.ctx (run to_transfer idle_world).view.cancelled ≡ true))
        (run to_transfer idle_world).copies
one_copy_runs_example = one_copy_runs to_transfer idle_world idle_world-IsIdle

copy_started : (run to_transfer idle_world).copies ≡ record { ctx = 0; gen = 1 } ∷ []
unfolding run step update handle_key action lookup text_eq open_sftp start_sftp teardown_sftp pane
    set_pane other_side set_entries dir_path clean split has_prefix join has ◌+ℤ◌ handle_sftp_key
    move_cursor clamp_int targets build_transfer copyable start_transfer label
copy_started = refl

panes_stay_shown_example : Shown (run to_transfer idle_world).view
panes_stay_shown_example = panes_stay_shown to_transfer idle_world idle_world-IsIdle

abbrev listing : List FileEntry
listing = file_of (codes "a") ∷ file_of (codes "b") ∷ file_of (codes "c") ∷ []

abbrev filled_pane : Pane
filled_pane = set_entries (new_pane none 2) (codes "/") listing

-- Row 5 of the screen is the second of the body.
second_row : picked filled_pane 5 ≡ some (file_of (codes "b"))
unfolding row_to_index set_entries clamp_int
second_row = refl

-- A listing of the first connection, after a second server was opened and a key was pressed.
superseded_silent_example :
    let w = run to_transfer idle_world in
    let v = (run (typed (codes "d") ∷ []) (handled (start_sftp w.view alpha) w.copies)).view in
    update (listed 0 focus_local [] []) v ≡ (v, nothing)
superseded_silent_example =
    superseded_silent (listed 0 focus_local [] []) 0 (run to_transfer idle_world) alpha
      (typed (codes "d") ∷ [])
      (run-Inv to_transfer idle_world (IsIdle-Inv idle_world idle_world-IsIdle)) refl (omega arith)

-- The remote pane has no browser while the server is dialled: its parent key calls a method of nil.
nil_browser_panics :
    (a : SplitView) (srv : Server) (w u : Text)
    → action a.keys (codes "sftp") w ≡ some (codes "sftp.switch_pane")
    → action a.keys (codes "sftp") u ≡ some (codes "sftp.parent")
    → (handle_sftp_key (handle_sftp_key (start_sftp a srv).0 w).0 u).1 ≡ panic
unfolding handle_sftp_key start_sftp teardown_sftp pane other_side text_eq
nil_browser_panics a srv w u e f = ground arith

-- The second row is grabbed, the listing of another directory arrives, and the row is let go over
-- the other pane: the walk looks for the name in the new directory.
abbrev grabbed : SplitView
grabbed =
    (run
      (typed (codes "f")
        ∷ message (listed 1 focus_local (codes "/home") (file_of (codes "a") ∷ []))
        ∷ message (sftp_connected 1 7 (codes "/srv") [])
        ∷ message (mouse (press 40 5))
        ∷ message (listed 1 focus_local (codes "/tmp") [])
        ∷ [])
      idle_world).view

drag_outlives_listing :
    (update (mouse (release 70 5)) grabbed).1
    ≡ plan_transfer (record {
      src = this_machine;
      dst = server 7;
      upload = true;
      src_dir = codes "/tmp";
      dst_dir = codes "/srv";
      entries = file_of (codes "a") ∷ [];
      existing = codes ".." ∷ [];
      gen = 1;
    })
unfolding run step update handle_key action lookup text_eq open_sftp start_sftp teardown_sftp pane
    set_pane other_side set_entries dir_path clean split has_prefix join has row_to_index side_at
    transferable grab handle_sftp_mouse build_transfer copyable
drag_outlives_listing = refl
