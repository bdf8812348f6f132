-- ===== src/Ui/Tabs.antt =====
-- internal/ui/tabs.go: opening, showing, closing and reconnecting session tabs.
pub mod Tally
pub mod Invariant
pub mod Find
pub mod Preserve
pub mod Closing
pub mod Shown
use tui_ssh_client.Prelude.{
  ℕ, zero, suc, ◌+◌, ◌-◌, Bool, true, false, ◌&&◌, ◌||◌, List, [], ◌∷◌, ◌++◌, Option, none, some,
  ltb, ◌==◌, length, get_elem?, set, remove_at, map, is_some, not, if◌then◌else◌,
}
use tui_ssh_client.Prelude.Int.{ℤ, pos, negsuc, ◌+ℤ◌, rem}
use tui_ssh_client.Prelude.Text.{Text, codes, text_eq, itoa}
use tui_ssh_client.Model.Server.{Server, title, addr}
use tui_ssh_client.Vault.Secrets.{inject}
use tui_ssh_client.Ssh.Errors.{Err}
use tui_ssh_client.Ui.Backoff.{backoff}
use tui_ssh_client.Ui.Terminal.{SessionId, Slot, Pool, get, put, detach}
use tui_ssh_client.Ui.State.{
  TabState, connecting, live, lost, reconnecting, Tab, App, Focus, focus_sidebar, focus_session,
  RightMode, right_empty, right_terminal, Status, no_status, too_many_sessions, Cmd, nothing, dial,
  tick, right_inner, down, tab_index_for,
}

abbrev same_id_count : Text → List Tab → ℕ
same_id_count id [] = 0
same_id_count id (t ∷ ts) =
    let rest = same_id_count id ts in if text_eq t.id id then suc rest else rest

numbered : Text → ℕ → Text
numbered base zero = base
numbered base (suc n) = base ++ (codes " (" ++ (itoa (n + 2) ++ codes ")"))

-- (a *App) tabName
unfoldable pub tab_name : App → Server → Text
unfolding numbered
tab_name a srv = numbered (title srv) (same_id_count srv.id a.tabs)

abbrev pub clear_selection : Tab → Tab
clear_selection t = record t { sel = none }

-- (a *App) syncSidebarMarkers
unfoldable pub sync_sidebar_markers : App → App
sync_sidebar_markers a = record a { sidebar_open = map (λ t. t.id) a.tabs }

abbrev shown : Tab → Tab
shown t = record t { activity = false; sel = none }

show_at : App → ℕ → Option Tab → App
show_at a i none = a
show_at a i (some t) = record a {
  active = pos i;
  tabs = set a.tabs i (shown t);
  right_mode = right_terminal;
  err_msg = [];
  focus = if is_some t.session || down t then focus_session else a.focus;
}

-- (a *App) switchTo
unfoldable pub switch_to : App → ℤ → App
unfolding show_at
switch_to a (negsuc n) = a
switch_to a (pos i) = show_at a i (get_elem? a.tabs i)

-- (a *App) cycleTab
unfoldable pub cycle_tab : App → ℤ → App
cycle_tab a delta =
    let n = length a.tabs in
    if n == 0 then a else switch_to a (rem (rem (a.active +ℤ delta) n +ℤ pos n) n)

abbrev close_session : Option SessionId → List SessionId → List SessionId
close_session none cs = cs
close_session (some s) cs = s ∷ cs

quiet : List Tab → ℕ → Option Tab → List Tab
quiet ts i none = ts
quiet ts i (some t) = set ts i (record t { activity = false })

-- clampInt(i, 0, n - 1) of an index that was in range before one tab went.
abbrev clamp_index : ℕ → ℕ → ℕ
clamp_index i n = if ltb (n - 1) i then n - 1 else i

-- The panel goes back to the placeholder if it showed the terminal.
leave_terminal : App → RightMode → App
leave_terminal a right_terminal = record a { right_mode = right_empty; focus = focus_sidebar }
leave_terminal a _ = a

-- The switch after the tab at `i` has gone, on the strip that is left.
after_close : App → ℕ → List Tab → ℤ → App
unfolding quiet leave_terminal
after_close a i [] active = leave_terminal (record a { tabs = []; active = negsuc 0 }) a.right_mode
after_close a i (t ∷ ts) (negsuc n) = record a { tabs = t ∷ ts }
after_close a i (t ∷ ts) (pos k) =
    let j = clamp_index i (length (t ∷ ts)) in
    if ltb i k
    then record a { tabs = t ∷ ts; active = pos (k - 1) }
    else if k == i
    then record a { tabs = quiet (t ∷ ts) j (get_elem? (t ∷ ts) j); active = pos j }
    else record a { tabs = t ∷ ts }

-- The session is closed, and the slot goes back to the pool.
abbrev release : App → Tab → App
release a t = record a {
  closed = close_session t.session a.closed;
  pool = put a.pool (some t.slot);
}

close_at : App → ℕ → Option Tab → App
unfolding after_close
close_at a i none = a
close_at a i (some t) =
    sync_sidebar_markers (after_close (release a t) i (remove_at i a.tabs) a.active)

-- (a *App) closeTab
unfoldable pub close_tab : App → ℤ → App
unfolding close_at
close_tab a (negsuc n) = a
close_tab a (pos i) = close_at a i (get_elem? a.tabs i)

close_last : ℕ → App → App
close_last zero a = a
close_last (suc n) a = close_last n (close_tab a (pos n))

-- (a *App) teardownAllSessions: one round for each open tab, the last tab first.
unfoldable pub teardown_all_sessions : App → App
unfolding close_last
teardown_all_sessions a = close_last (length a.tabs) a

-- The new tab and its dial, once the pool has lent a slot.
open_with : App → Server → ℕ → ℕ → Slot → Pool → App × Cmd
open_with a srv cols rows slot pool =
    let t : Tab = record {
      id = srv.id;
      name = tab_name a srv;
      addr = srv.user ++ (codes "@" ++ addr srv);
      srv = srv;
      gen = a.gen + 1;
      session = none;
      slot = slot;
      state = connecting;
      scroll_off = 0;
      activity = false;
      sel = none;
      attempt = 0;
      until = none;
      last_err = none;
    } in
    (
      sync_sidebar_markers (record a {
        pool = pool;
        gen = a.gen + 1;
        tabs = a.tabs ++ t ∷ [];
        active = pos (length a.tabs);
        fail_err = none;
        err_msg = [];
        last_attempt = srv;
        last_was_sftp = false;
        right_mode = right_terminal;
        focus = focus_sidebar;
      }),
      dial true (inject srv a.secrets) (a.gen + 1) cols rows,
    )

open_new : App → Server → ℕ → ℕ → Option (Slot × Pool) → App × Cmd
unfolding open_with
open_new a srv cols rows none = (record a { status = too_many_sessions }, nothing)
open_new a srv cols rows (some (slot, pool)) = open_with a srv cols rows slot pool

-- `none` where a tab of this server has to be shown instead of dialled.
existing : App → Server → Bool → Option ℕ
existing a srv force = if force then none else tab_index_for a srv.id

open_or_show : App → Server → Option ℕ → App × Cmd
unfolding open_new
open_or_show a srv (some i) = (switch_to a (pos i), nothing)
open_or_show a srv none =
    let (cols, rows) = right_inner a in open_new a srv cols rows (get a.pool cols rows)

-- (a *App) openTab
unfoldable pub open_tab : App → Server → Bool → App × Cmd
unfolding existing open_or_show
open_tab a srv force = open_or_show a srv (existing a srv force)

-- The entry of that id in the list as it is now.
latest : Text → Server → List Server → Server
latest id srv [] = srv
latest id srv (s ∷ ss) = let rest = latest id srv ss in if text_eq s.id id then s else rest

-- (a *App) reconnect of the tab at index `i`
unfoldable pub reconnect : App → ℕ → Tab → Bool → App × Cmd
unfolding latest
reconnect a i t auto =
    let (cols, rows) = right_inner a in
    let srv = latest t.srv.id t.srv a.servers in
    (
      record a {
        gen = a.gen + 1;
        tabs =
            set a.tabs i
              (record t { gen = a.gen + 1; state = reconnecting; until = none; srv = srv });
      },
      dial (not auto) (inject srv a.secrets) (a.gen + 1) cols rows,
    )

-- (a *App) scheduleReconnect of the tab at index `i`, at time `now`
unfoldable pub schedule_reconnect : App → ℕ → ℕ → Tab → Option Err → App × Cmd
schedule_reconnect a now i t err =
    let attempt = t.attempt + 1 in
    (
      record a {
        tabs = set a.tabs i (record t {
          state = lost;
          session = none;
          last_err = err;
          attempt = attempt;
          slot = detach t.slot;
          until = some (now + backoff attempt);
        });
      },
      tick (backoff attempt) t.gen,
    )

-- (a *App) stopReconnecting of the tab at index `i`
unfoldable pub stop_reconnecting : App → ℕ → Tab → Option Err → App
stop_reconnecting a i t err = record a {
  tabs = set a.tabs i (record t {
    state = lost;
    session = none;
    last_err = err;
    until = none;
    slot = detach t.slot;
  });
}
