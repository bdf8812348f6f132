-- ===== src/Ui/Update/Routing.antt =====
-- Where the messages of a session go: to its tab while it is current, and nowhere afterwards.
use tui_ssh_client.Prelude.{
  ℕ, ◌≡◌, Bool, true, false, ◌||◌, List, ◌∷◌, Option, none, some, arith, get_elem?,
}
use tui_ssh_client.Prelude.Int.{pos}
use tui_ssh_client.Ui.State.{Tab, App, Cmd, nothing, dial, batch, tab_by_gen, is_waiting}
use tui_ssh_client.Ui.Tabs.{close_tab, reconnect}
use tui_ssh_client.Ui.Tabs.Invariant.{Inv, dead-tally}
use tui_ssh_client.Ui.Tabs.Find.{find_gen-none}
use tui_ssh_client.Ui.Tabs.Preserve.{close_tab-retires, reconnect-retires}
use tui_ssh_client.Ui.Update.Invariant.{run-keeps}
use tui_ssh_client.Ui.Update.{
  Msg, connected, connect_failed, reconnect_due, output, session_ended, user_open, user_switch,
  user_cycle, user_close, user_reconnect, connected_at, connect_failed_at, reconnect_due_at,
  output_at, session_ended_at, update, run,
}

-- The generation that a message carries.
abbrev pub msg_gen : Msg → Option ℕ
msg_gen (connected g s) = some g
msg_gen (connect_failed g e) = some g
msg_gen (reconnect_due g) = some g
msg_gen (output g bytes) = some g
msg_gen (session_ended g e) = some g
msg_gen _ = none

-- What is done with a message that finds no tab: a new session is closed, and nothing else.
abbrev pub dropped : Msg → App → App
dropped (connected g s) a = record a { closed = s ∷ a.closed }
dropped _ a = a

drop :
    (now : ℕ) (m : Msg) (g : ℕ) (a : App)
    → msg_gen m ≡ some g
    → tab_by_gen a g ≡ none
    → update now m a ≡ (dropped m a, nothing)
unfolding update
drop now (connected h s) g a e miss =
    let same : h ≡ g = ground arith in rw (same, miss, connected_at)
drop now (connect_failed h x) g a e miss =
    let same : h ≡ g = ground arith in rw (same, miss, connect_failed_at)
drop now (reconnect_due h) g a e miss =
    let same : h ≡ g = ground arith in rw (same, miss, reconnect_due_at)
drop now (output h bytes) g a e miss = let same : h ≡ g = ground arith in rw (same, miss, output_at)
drop now (session_ended h x) g a e miss =
    let same : h ≡ g = ground arith in rw (same, miss, session_ended_at)
drop now _ g a e miss = absurd (cc)

dead_none : {dead : ℕ → Bool} (a : App) (g : ℕ) → Inv dead a → dead g ≡ true → tab_by_gen a g ≡ none
unfolding tab_by_gen
dead_none a g h d = find_gen-none g a.tabs (dead-tally g h d)

-- In an app that keeps the invariant, after a tab was closed, and whatever happened since, a message
-- that carries its generation changes nothing and starts nothing; only, if it brings a session, that
-- session is closed.
pub closed_tab_silent :
    (a : App) (i : ℕ) (t : Tab) (ms : List (ℕ × Msg)) (now : ℕ) (m : Msg)
    → Inv (λ _. false) a
    → get_elem? a.tabs i ≡ some t
    → msg_gen m ≡ some t.gen
    → update now m (run ms (close_tab a (pos i)))
      ≡ (dropped m (run ms (close_tab a (pos i))), nothing)
closed_tab_silent a i t ms now m h e c =
    drop now m t.gen (run ms (close_tab a (pos i))) c
      (dead_none _ t.gen (run-keeps ms _ (close_tab-retires a i t e h)) (ground arith))

-- In an app that keeps the invariant, after a tab that waits for a retry was dialled again, and
-- whatever happened since, a message that carries its old generation (the timer of the retry, or
-- what came of the old dial) changes nothing and starts nothing; only, if it brings a session, that
-- session is closed.
pub superseded_attempt_silent :
    (a : App) (i : ℕ) (t : Tab) (auto : Bool) (ms : List (ℕ × Msg)) (now : ℕ) (m : Msg)
    → Inv (λ _. false) a
    → get_elem? a.tabs i ≡ some t
    → is_waiting t.state ≡ true
    → msg_gen m ≡ some t.gen
    → update now m (run ms (reconnect a i t auto).0)
      ≡ (dropped m (run ms (reconnect a i t auto).0), nothing)
superseded_attempt_silent a i t auto ms now m h e w c =
    drop now m t.gen (run ms (reconnect a i t auto).0) c
      (dead_none _ t.gen (run-keeps ms _ (reconnect-retires a i t auto e w h)) (ground arith))

-- Whether a command dials with the channel for host key questions.
abbrev pub asks : Cmd → Bool
asks (dial prompting srv g cols rows) = prompting
asks (batch c d) = asks c || asks d
asks _ = false

abbrev pub is_user : Msg → Bool
is_user (user_open srv force) = true
is_user (user_switch i) = true
is_user (user_cycle d) = true
is_user user_close = true
is_user user_reconnect = true
is_user _ = false
