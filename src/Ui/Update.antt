-- ===== src/Ui/Update.antt =====
-- internal/ui/app.go, Update: the messages of sessions, routed to their tab by generation, and the
-- keys of a session that act on tabs.
pub mod Invariant
pub mod Routing
pub mod Unattended
use tui_ssh_client.Prelude.{
  ℕ, zero, suc, ◌+◌, Bool, true, false, not, List, [], ◌∷◌, ◌++◌, Option, none, some, ltb, ◌==◌,
  set, get_elem?, is_some, if◌then◌else◌,
}
use tui_ssh_client.Prelude.Int.{ℤ, pos, negsuc}
use tui_ssh_client.Prelude.Text.{Text, codes, text_eq, is_empty, cut_at}
use tui_ssh_client.Model.Server.{Server}
use tui_ssh_client.Ssh.Errors.{
  Err, message, is, host_key_unknown, key_passphrase_required, connection_lost,
}
use tui_ssh_client.Ui.Terminal.{SessionId, Slot, written, attach, reset_emulator}
use tui_ssh_client.Ui.State.{
  TabState, live, lost, Tab, App, focus_sidebar, focus_session, right_terminal, right_error,
  session_closed, connected_status, reconnected_status, Cmd, nothing, wait_for_output,
  update_server, batch, right_inner, tab_by_gen, is_waiting,
}
use tui_ssh_client.Ui.Tabs.{
  open_tab, switch_to, cycle_tab, close_tab, reconnect, schedule_reconnect, stop_reconnecting,
}

-- The messages of Update that concern session tabs. `user_…` are the calls that the key handlers
-- make: opening a server, switching, cycling, closing a tab, and [r] on a tab that is lost.
pub data Msg : Type 0 where
  connected : ℕ → SessionId → Msg
  connect_failed : ℕ → Err → Msg
  reconnect_due : ℕ → Msg
  output : ℕ → Text → Msg
  session_ended : ℕ → Option Err → Msg
  user_open : Server → Bool → Msg
  user_switch : ℤ → Msg
  user_cycle : ℤ → Msg
  user_close : Msg
  user_reconnect : Msg

stamp : Text → ℕ → List Server → List Server
stamp id now [] = []
stamp id now (s ∷ ss) =
    let rest = s ∷ stamp id now ss in
    if text_eq s.id id then record s { last_used = now } ∷ ss else rest

stamped : Text → ℕ → List Server → Option Server
stamped id now [] = none
stamped id now (s ∷ ss) =
    let rest = stamped id now ss in
    if text_eq s.id id then some (record s { last_used = now }) else rest

write_cmd : Option Server → Cmd
write_cmd none = nothing
write_cmd (some s) = update_server s

-- (a *App) markUsed
unfoldable pub mark_used : App → Text → ℕ → App × Cmd
unfolding stamp stamped write_cmd
mark_used a id now =
    if is_empty id
    then (a, nothing)
    else (record a { servers = stamp id now a.servers }, write_cmd (stamped id now a.servers))

-- t == a.cur(), for the tab at index `i`
abbrev pub is_active : ℤ → ℕ → Bool
is_active (pos k) i = k == i
is_active (negsuc n) i = false

-- After a reconnect the screen belonged to the shell that is gone.
shell_slot : App → Tab → Slot
shell_slot a t =
    let (cols, rows) = right_inner a in
    if ltb 0 t.attempt then record t.slot { emu = reset_emulator t.slot.emu cols rows } else t.slot

-- The tab with its new session behind it.
gone_live : App → Tab → SessionId → Tab
unfolding shell_slot
gone_live a t session = record t {
  session = some session;
  state = live;
  attempt = 0;
  until = none;
  last_err = none;
  scroll_off = 0;
  sel = none;
  slot = attach (shell_slot a t) session;
}

-- What the screen says of it: `reconnected` is t.attempt > 0 before the reset.
landed : App → ℕ → Tab → Bool → App
landed a i t' reconnected =
    if is_active a.active i
    then if reconnected
      then record a {
        tabs = set a.tabs i t';
        right_mode = right_terminal;
        status = reconnected_status;
      }
      else record a {
        tabs = set a.tabs i t';
        right_mode = right_terminal;
        focus = focus_session;
        status = connected_status;
      }
    else record a { tabs = set a.tabs i (record t' { activity = true }) }

connected_at : App → ℕ → SessionId → Option (ℕ × Tab) → App × Cmd
unfolding gone_live landed
connected_at a now session none = (record a { closed = session ∷ a.closed }, nothing)
connected_at a now session (some (i, t)) =
    let (a', write) = mark_used (landed a i (gone_live a t session) (ltb 0 t.attempt)) t.id now in
    (a', batch (wait_for_output (some session) t.gen) write)

-- firstLineOf
unfoldable pub first_line_of : Err → Text
first_line_of e = (cut_at (λ c. c == b'\n') (message e)).before

first_connect_failed : App → ℕ → Tab → Err → App × Cmd
unfolding first_line_of
first_connect_failed a i t err =
    let a' = close_tab a (pos i) in
    if is key_passphrase_required err then (record a' { key_pass = some t.srv }, nothing) else (
      record a' {
        right_mode = right_error;
        focus = focus_sidebar;
        fail_err = some err;
        err_msg = first_line_of err;
      },
      nothing,
    )

reconnect_failed : App → ℕ → ℕ → Tab → Err → App × Cmd
reconnect_failed a now i t err =
    if is host_key_unknown err
    then (stop_reconnecting a i t (some err), nothing)
    else schedule_reconnect a now i t (some err)

connect_failed_at : App → ℕ → Err → Option (ℕ × Tab) → App × Cmd
unfolding first_connect_failed reconnect_failed
connect_failed_at a now err none = (a, nothing)
connect_failed_at a now err (some (i, t)) =
    let asked = record a { confirm = false } in
    if ltb 0 t.attempt
    then reconnect_failed asked now i t err
    else first_connect_failed asked i t err

reconnect_due_at : App → Option (ℕ × Tab) → App × Cmd
reconnect_due_at a none = (a, nothing)
reconnect_due_at a (some (i, t)) = if is_waiting t.state then reconnect a i t true else (a, nothing)

-- A tab in the strip has an emulator, so the second test of the case never fails.
output_at : App → Text → Option (ℕ × Tab) → App × Cmd
output_at a bytes none = (a, nothing)
output_at a bytes (some (i, t)) =
    let fed = record t { slot = record t.slot { emu = written bytes ∷ t.slot.emu } } in
    let t' = if is_active a.active i then fed else record fed { activity = true } in
    (record a { tabs = set a.tabs i t' }, wait_for_output t.session t.gen)

is_lost : Option Err → Bool
is_lost none = false
is_lost (some e) = is connection_lost e

ended_line : App → Option Err → App
ended_line a none = record a { status = session_closed }
ended_line a (some e) = record a { err_msg = codes "session ended: " ++ message e }

session_ended_at : App → ℕ → Option Err → Option (ℕ × Tab) → App × Cmd
unfolding is_lost ended_line
session_ended_at a now err none = (a, nothing)
session_ended_at a now err (some (i, t)) =
    if is_lost err
    then schedule_reconnect a now i t err
    else (ended_line (close_tab a (pos i)) err, nothing)

reconnect_shown : App → ℕ → Option Tab → App × Cmd
reconnect_shown a i none = (a, nothing)
reconnect_shown a i (some t) = if is_waiting t.state then reconnect a i t false else (a, nothing)

-- [r] in handleKey, with the session in focus: only the tab on screen, and only while it waits.
reconnect_active : App → ℤ → App × Cmd
unfolding reconnect_shown
reconnect_active a (negsuc n) = (a, nothing)
reconnect_active a (pos i) = reconnect_shown a i (get_elem? a.tabs i)

close_shown : App → ℕ → Option Tab → App
close_shown a i none = a
close_shown a i (some t) = let a' = close_tab a (pos i) in record a' { status = session_closed }

-- alt+w in tabKey: nothing where no tab is on screen.
close_active : App → ℤ → App
unfolding close_shown
close_active a (negsuc n) = a
close_active a (pos i) = close_shown a i (get_elem? a.tabs i)

-- One round of the event loop, at clock reading `now`.
unfoldable pub update : ℕ → Msg → App → App × Cmd
unfolding connected_at connect_failed_at reconnect_due_at output_at session_ended_at
    reconnect_active close_active
update now (connected g session) a = connected_at a now session (tab_by_gen a g)
update now (connect_failed g err) a = connect_failed_at a now err (tab_by_gen a g)
update now (reconnect_due g) a = reconnect_due_at a (tab_by_gen a g)
update now (output g bytes) a = output_at a bytes (tab_by_gen a g)
update now (session_ended g err) a = session_ended_at a now err (tab_by_gen a g)
update now (user_open srv force) a = open_tab a srv force
update now (user_switch i) a = (switch_to a i, nothing)
update now (user_cycle d) a = (cycle_tab a d, nothing)
update now user_close a = (close_active a a.active, nothing)
update now user_reconnect a = reconnect_active a a.active

-- The messages in the order in which they are handled, each with its clock reading.
unfoldable pub run : List (ℕ × Msg) → App → App
run [] a = a
run ((now, m) ∷ ms) a = run ms (update now m a).0
