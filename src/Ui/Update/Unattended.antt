-- ===== src/Ui/Update/Unattended.antt =====
-- What happens with nobody at the keyboard: no host key question, and no retry of a host whose key
-- is no longer trusted.
use tui_ssh_client.Prelude.{
  ℕ, ◌+◌, ◌<◌, ◌≡◌, refl, true, false, [], ◌∷◌, Option, none, some, arith, ltb, get_elem?, set, ◌⊎◌,
  inl, inr, Bool-cases,
}
use tui_ssh_client.Prelude.Text.{Text}
use tui_ssh_client.Model.Server.{Server}
use tui_ssh_client.Ssh.Errors.{Err, is, host_key_unknown}
use tui_ssh_client.Ui.Terminal.{SessionId}
use tui_ssh_client.Ui.Backoff.{backoff}
use tui_ssh_client.Ui.State.{lost, Tab, App, nothing, tick, tab_by_gen}
use tui_ssh_client.Ui.Tabs.{reconnect, schedule_reconnect, stop_reconnecting}
use tui_ssh_client.Ui.Tabs.Invariant.{Inv}
use tui_ssh_client.Ui.Tabs.Find.{find_gen_unique}
use tui_ssh_client.Ui.Update.Routing.{asks, is_user}
use tui_ssh_client.Ui.Update.{
  Msg, connected, connect_failed, reconnect_due, output, session_ended, connected_at,
  connect_failed_at, reconnect_due_at, output_at, session_ended_at, update, mark_used, write_cmd,
  stamped, reconnect_failed, landed, gone_live,
}

write_cmd-asks : (o : Option Server) → asks (write_cmd o) ≡ false
unfolding write_cmd
write_cmd-asks none = refl
write_cmd-asks (some s) = refl

mark_used-asks : (a : App) (id : Text) (now : ℕ) → asks (mark_used a id now).1 ≡ false
unfolding mark_used
mark_used-asks a [] now = refl
mark_used-asks a (c ∷ id) now = write_cmd-asks (stamped (c ∷ id) now a.servers)

module _ (a : App) (now : ℕ) where
  connected_at-asks :
      (s : SessionId) (o : Option (ℕ × Tab)) → asks (connected_at a now s o).1 ≡ false
  unfolding connected_at
  connected_at-asks s none = refl
  connected_at-asks s (some (i, t)) =
      mark_used-asks (landed a i (gone_live a t s) (ltb 0 t.attempt)) t.id now

  connect_failed_at-asks :
      (e : Err) (o : Option (ℕ × Tab)) → asks (connect_failed_at a now e o).1 ≡ false
  unfolding connect_failed_at schedule_reconnect
  connect_failed_at-asks e none = refl
  connect_failed_at-asks e (some (i, t)) = ground arith

  reconnect_due_at-asks : (o : Option (ℕ × Tab)) → asks (reconnect_due_at a o).1 ≡ false
  unfolding reconnect_due_at reconnect
  reconnect_due_at-asks none = refl
  reconnect_due_at-asks (some (i, t)) = ground arith

  output_at-asks : (bytes : Text) (o : Option (ℕ × Tab)) → asks (output_at a bytes o).1 ≡ false
  unfolding output_at
  output_at-asks bytes none = refl
  output_at-asks bytes (some (i, t)) = refl

  session_ended_at-asks :
      (e : Option Err) (o : Option (ℕ × Tab)) → asks (session_ended_at a now e o).1 ≡ false
  unfolding session_ended_at schedule_reconnect
  session_ended_at-asks e none = refl
  session_ended_at-asks e (some (i, t)) = ground arith

-- No message but those of the user starts a dial that may put a host key question.
pub unattended_never_asks :
    (now : ℕ) (m : Msg) (a : App) → is_user m ≡ false → asks (update now m a).1 ≡ false
unfolding update
unattended_never_asks now (connected g s) a h = connected_at-asks a now s (tab_by_gen a g)
unattended_never_asks now (connect_failed g e) a h = connect_failed_at-asks a now e (tab_by_gen a g)
unattended_never_asks now (reconnect_due g) a h = reconnect_due_at-asks a now (tab_by_gen a g)
unattended_never_asks now (output g bytes) a h = output_at-asks a now bytes (tab_by_gen a g)
unattended_never_asks now (session_ended g e) a h = session_ended_at-asks a now e (tab_by_gen a g)
unattended_never_asks now _ a h = absurd (cc)

counted : (n : ℕ) → 0 < n → ltb 0 n ≡ true
counted n lt = ground arith

-- In an app that keeps the invariant, a tab that is coming back, when its dial fails: on a host key that is not accepted it waits for
-- the user, with no retry under way or scheduled; on any other failure it waits for one retry,
-- which comes after the backoff of one attempt more. Either way the tab stays, with no session.
pub reconnect_failure :
    (now : ℕ) (a : App) (i : ℕ) (t : Tab) (e : Err)
    → Inv (λ _. false) a
    → get_elem? a.tabs i ≡ some t
    → 0 < t.attempt
    → let r = update now (connect_failed t.gen e) a in
      (u : Tab) × (r.0.tabs ≡ set a.tabs i u)
      × (u.state ≡ lost)
      × (u.session ≡ none)
      × (u.last_err ≡ some e)
      × ((is host_key_unknown e ≡ true) × (u.until ≡ none) × (r.1 ≡ nothing)
          ⊎ (is host_key_unknown e ≡ false)
            × (u.attempt ≡ t.attempt + 1)
            × (u.until ≡ some (now + backoff (t.attempt + 1)))
            × (r.1 ≡ tick (backoff (t.attempt + 1)) t.gen))
unfolding update tab_by_gen reconnect_failed schedule_reconnect stop_reconnecting
reconnect_failure now a i t e h p lt =
    rw (find_gen_unique t.gen a.tabs i t p refl (ground (arith, h.gens t.gen)), connect_failed_at)
      (rw (counted t.attempt lt) (elim (Bool-cases (is host_key_unknown e)) [
        | inl k ↦ rw k (_, refl, refl, refl, refl, inl (refl, refl, refl))
        | inr k ↦ rw k (_, refl, refl, refl, refl, inr (refl, refl, refl, refl))
      ]))
