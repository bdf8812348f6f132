-- ===== src/Ui/State.antt =====
-- internal/ui/app.go and tabs.go: the part of the root model that the session tabs read and write.
use tui_ssh_client.Prelude.{
  ℕ, suc, ◌-◌, Bool, true, false, List, [], ◌∷◌, Option, none, some, max, ◌==◌, get_elem?,
  if◌then◌else◌,
}
use tui_ssh_client.Prelude.Int.{ℤ, pos, negsuc}
use tui_ssh_client.Prelude.Text.{Text, text_eq}
use tui_ssh_client.Model.Server.{Server}
use tui_ssh_client.Vault.Secrets.{Secrets}
use tui_ssh_client.Ssh.Errors.{Err}
use tui_ssh_client.Ui.Terminal.{SessionId, Slot, Pool}

pub data TabState : Type 0 where
  connecting live lost reconnecting : TabState

pub record Point : Type 0 where
  pub x : ℕ
  pub y : ℕ

pub record Selection : Type 0 where
  pub anchor : Point
  pub cursor : Point
  pub dragging : Bool

-- sessionTab. `slot` is never nil while the tab is in the strip: openTab fills it, and closeTab
-- clears it as it takes the tab out. Times are clock readings, and `until` is `none` for the zero
-- time.
pub record Tab : Type 0 where
  pub id : Text
  pub name : Text
  pub addr : Text
  pub srv : Server
  pub gen : ℕ
  pub session : Option SessionId
  pub slot : Slot
  pub state : TabState
  pub scroll_off : ℕ
  pub activity : Bool
  pub sel : Option Selection
  pub attempt : ℕ
  pub until : Option ℕ
  pub last_err : Option Err

pub data Focus : Type 0 where
  focus_sidebar focus_form focus_session focus_local focus_remote focus_import focus_sync : Focus

pub data RightMode : Type 0 where
  right_empty right_form right_terminal right_error right_sftp right_import right_sync : RightMode

-- The status lines that the tabs set.
pub data Status : Type 0 where
  no_status too_many_sessions session_closed connected_status reconnected_status : Status

-- `active` is -1 for none. `sidebar_open` has the server id of each open tab: the map that SetOpen
-- is given counts them. `closed` lists the sessions that Close was called on, newest first, and
-- `key_pass` is the server whose key passphrase is asked for.
pub record App : Type 0 where
  pub servers : List Server
  pub sidebar_open : List Text
  pub focus : Focus
  pub right_mode : RightMode
  pub width : ℕ
  pub height : ℕ
  pub tabs : List Tab
  pub active : ℤ
  pub pool : Pool
  pub gen : ℕ
  pub confirm : Bool
  pub secrets : Secrets
  pub key_pass : Option Server
  pub connecting_sftp : Text
  pub last_attempt : Server
  pub last_was_sftp : Bool
  pub fail_err : Option Err
  pub status : Status
  pub err_msg : Text
  pub closed : List SessionId

-- tea.Cmd, where the tabs return one: a dial, with or without the channel for host key questions;
-- a timer that delivers reconnectMsg; the output pump; the write of an entry's LastUsed.
pub data Cmd : Type 0 where
  nothing : Cmd
  dial : Bool → Server → ℕ → ℕ → ℕ → Cmd
  tick : ℕ → ℕ → Cmd
  wait_for_output : Option SessionId → ℕ → Cmd
  update_server : Server → Cmd
  batch : Cmd → Cmd → Cmd

abbrev pub sidebar_width : ℕ
sidebar_width = 30

abbrev pub border_size : ℕ
border_size = 2

abbrev pub top_margin : ℕ
top_margin = 1

abbrev pub status_rows : ℕ
status_rows = 1

abbrev pub right_header_rows : ℕ
right_header_rows = 2

-- The differences are cut off at 1 at once, so subtraction that stops at 0 gives the same.
unfoldable pub panel_height : App → ℕ
panel_height a = max (a.height - top_margin - status_rows - border_size) 1

unfoldable pub right_inner : App → ℕ × ℕ
unfolding panel_height
right_inner a =
    (max (a.width - sidebar_width - border_size) 1, max (panel_height a - right_header_rows) 1)

unfoldable pub down : Tab → Bool
down t = elim t.state [ lost ↦ true | reconnecting ↦ true | _ ↦ false ]

abbrev at_index : ℤ → List Tab → Option Tab
at_index (pos i) ts = get_elem? ts i
at_index (negsuc n) ts = none

-- (a *App) cur
unfoldable pub cur : App → Option Tab
cur a = at_index a.active a.tabs

-- (a *App) curSession
unfoldable pub cur_session : App → Option SessionId
unfolding cur
cur_session a = elim (cur a) [ none ↦ none | some t ↦ t.session ]

-- The tab with its place, which stands for the pointer; a.tabIndexOf of it is that place.
abbrev pub shift : Option (ℕ × Tab) → Option (ℕ × Tab)
shift none = none
shift (some (i, t)) = some (suc i, t)

unfoldable pub find_gen : ℕ → List Tab → Option (ℕ × Tab)
find_gen g [] = none
find_gen g (t ∷ ts) = let rest = shift (find_gen g ts) in if t.gen == g then some (0, t) else rest

-- (a *App) tabByGen
unfoldable pub tab_by_gen : App → ℕ → Option (ℕ × Tab)
unfolding find_gen
tab_by_gen a g = find_gen g a.tabs

abbrev shift_index : Option ℕ → Option ℕ
shift_index none = none
shift_index (some i) = some (suc i)

index_for : Text → List Tab → Option ℕ
index_for id [] = none
index_for id (t ∷ ts) =
    let rest = shift_index (index_for id ts) in if text_eq t.id id then some 0 else rest

-- (a *App) tabIndexFor; `none` is -1.
unfoldable pub tab_index_for : App → Text → Option ℕ
unfolding index_for
tab_index_for a id = index_for id a.tabs

any_dialing : List Tab → Bool
any_dialing [] = false
any_dialing (t ∷ ts) = elim t.state [ connecting ↦ true | reconnecting ↦ true | _ ↦ any_dialing ts ]

-- (a *App) dialing
unfoldable pub dialing : App → Bool
unfolding any_dialing
dialing a = elim a.connecting_sftp [ [] ↦ any_dialing a.tabs | c ∷ s ↦ true ]

-- t.state == tabLost
unfoldable pub is_waiting : TabState → Bool
is_waiting lost = true
is_waiting _ = false
