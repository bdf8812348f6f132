-- ===== src/Ui/Tests.antt =====
-- Witnesses for the properties of internal/ui, and runs of its definitions on small inputs.
use tui_ssh_client.Prelude.{
  ℕ, ◌+◌, ◌≡◌, refl, true, false, List, [], ◌∷◌, none, some, arith, set, ◌⊎◌,
}
use tui_ssh_client.Prelude.Int.{pos, negsuc}
use tui_ssh_client.Prelude.Text.{codes}
use tui_ssh_client.Ssh.Errors.{sentinel, is, connection_lost, host_key_unknown, timeout}
use tui_ssh_client.Ui.Terminal.{created}
use tui_ssh_client.Ui.Backoff.{backoff}
use tui_ssh_client.Ui.State.{
  lost, Tab, App, focus_sidebar, right_empty, no_status, nothing, tick, is_waiting,
}
use tui_ssh_client.Ui.Tabs.{close_tab, reconnect}
use tui_ssh_client.Ui.Tabs.Invariant.{Inv}
use tui_ssh_client.Ui.Update.{
  Msg, connected, connect_failed, reconnect_due, output, session_ended, user_open, user_switch,
  user_close, update, run,
}
use tui_ssh_client.Ui.Update.Invariant.{IsFresh, run-Inv}
use tui_ssh_client.Ui.Update.Routing.{dropped, asks, closed_tab_silent, superseded_attempt_silent}
use tui_ssh_client.Ui.Update.Unattended.{unattended_never_asks, reconnect_failure}
use tui_ssh_client.Config.Fixture.{web, no_secrets}

abbrev fresh : App
fresh = record {
  servers = web ∷ [];
  sidebar_open = [];
  focus = focus_sidebar;
  right_mode = right_empty;
  width = 120;
  height = 40;
  tabs = [];
  active = negsuc 0;
  pool = record { free = []; live = 0 };
  gen = 0;
  confirm = false;
  secrets = no_secrets;
  key_pass = none;
  connecting_sftp = [];
  last_attempt = web;
  last_was_sftp = false;
  fail_err = none;
  status = no_status;
  err_msg = [];
  closed = [];
}

fresh-IsFresh : IsFresh fresh
fresh-IsFresh = record { no_tabs = refl; none_shown = refl; no_slots = refl }

-- A tab is opened, comes up, is lost, dialled again and closed, and its session comes up too late.
abbrev some_day : List (ℕ × Msg)
some_day =
    (0, user_open web false)
    ∷ (1, connected 1 7)
    ∷ (2, output 1 (codes "$ "))
    ∷ (3, session_ended 1 (some (sentinel connection_lost)))
    ∷ (4, reconnect_due 1)
    ∷ (5, user_close)
    ∷ (6, connected 2 8)
    ∷ []

run-Inv_example : Inv (λ _. false) (run some_day fresh)
run-Inv_example = run-Inv some_day fresh fresh-IsFresh

-- A tab that lost its session and waits for its first retry.
abbrev lost_tab : Tab
lost_tab = record {
  id = codes "w1";
  name = codes "web";
  addr = codes "deploy@web.example:22";
  srv = web;
  gen = 1;
  session = none;
  slot = record { num = 0; emu = created 88 34 ∷ []; pump = none };
  state = lost;
  scroll_off = 0;
  activity = false;
  sel = none;
  attempt = 1;
  until = some 1_000_000_000;
  last_err = some (sentinel connection_lost);
}

abbrev waiting_app : App
waiting_app = record fresh {
  tabs = lost_tab ∷ [];
  active = pos 0;
  pool = record { free = []; live = 1 };
  gen = 1;
}

waiting_app-Inv : Inv (λ _. false) waiting_app
waiting_app-Inv = record {
  slots = λ k. ground arith;
  counted = omega arith;
  bounded = omega arith;
  gens = λ g. ground arith;
  past = λ g. refl;
  shown = omega arith;
  clean = tt;
  wired = ((refl, refl), tt);
}

closed_tab_silent_example :
    update 9 (connected 1 8) (run ((5, user_open web false) ∷ []) (close_tab waiting_app (pos 0)))
    ≡ (
      dropped (connected 1 8) (run ((5, user_open web false) ∷ []) (close_tab waiting_app (pos 0))),
      nothing,
    )
closed_tab_silent_example =
    closed_tab_silent waiting_app 0 lost_tab ((5, user_open web false) ∷ []) 9 (connected 1 8)
      waiting_app-Inv refl refl

lost_waits : is_waiting lost ≡ true
unfolding is_waiting
lost_waits = refl

superseded_attempt_silent_example :
    update 9
      (reconnect_due 1)
      (run ((5, user_switch (pos 0)) ∷ []) (reconnect waiting_app 0 lost_tab false).0)
    ≡ (
      dropped
          (reconnect_due 1)
          (run ((5, user_switch (pos 0)) ∷ []) (reconnect waiting_app 0 lost_tab false).0),
      nothing,
    )
superseded_attempt_silent_example =
    superseded_attempt_silent waiting_app 0 lost_tab false ((5, user_switch (pos 0)) ∷ []) 9
      (reconnect_due 1) waiting_app-Inv refl lost_waits refl

unattended_never_asks_example : asks (update 9 (reconnect_due 1) waiting_app).1 ≡ false
unattended_never_asks_example = unattended_never_asks 9 (reconnect_due 1) waiting_app refl

reconnect_failure_example :
    let r = update 9 (connect_failed 1 (sentinel timeout)) waiting_app in
    (u : Tab) × (r.0.tabs ≡ set waiting_app.tabs 0 u)
    × (u.state ≡ lost)
    × (u.session ≡ none)
    × (u.last_err ≡ some (sentinel timeout))
    × ((is host_key_unknown (sentinel timeout) ≡ true) × (u.until ≡ none) × (r.1 ≡ nothing)
        ⊎ (is host_key_unknown (sentinel timeout) ≡ false)
          × (u.attempt ≡ 1 + 1)
          × (u.until ≡ some (9 + backoff (1 + 1)))
          × (r.1 ≡ tick (backoff (1 + 1)) 1))
reconnect_failure_example =
    reconnect_failure 9 waiting_app 0 lost_tab (sentinel timeout) waiting_app-Inv refl (omega arith)
