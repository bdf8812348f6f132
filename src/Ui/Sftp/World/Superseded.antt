-- ===== src/Ui/Sftp/World/Superseded.antt =====
-- What a connection reports after the split view has turned to another.
use tui_ssh_client.Prelude.{
  ℕ, ◌≤◌, ◌<◌, ◌≡◌, inl, inr, List, [], ◌∷◌, Option, none, some, arith, ◌==◌, get_elem?, if_cases,
}
use tui_ssh_client.Prelude.Text.{Text}
use tui_ssh_client.Model.Server.{Server}
use tui_ssh_client.Ui.Sftp.State.{SplitView, Cmd, nothing}
use tui_ssh_client.Ui.Sftp.Results.{Ending, done}
use tui_ssh_client.Ui.Sftp.Keys.{start_sftp}
use tui_ssh_client.Ui.Sftp.Update.{
  Msg, sftp_connected, sftp_failed, listed, not_listed, planned, not_planned, delete_planned,
  progress_tick, transfer_done, file_op_done, host_key_prompt, host_key_answered, key, mouse,
  resized, update, current,
}
use tui_ssh_client.Ui.Sftp.World.{
  Copying, World, Event, message, copy_ended, from_copy, handled, ended, step, run,
}
use tui_ssh_client.Ui.Sftp.World.Change.{Change, Steady, start_sftp-Torn}
use tui_ssh_client.Ui.Sftp.World.Messages.{update-Change}
use tui_ssh_client.Ui.Sftp.World.Owned.{Inv, Change-Inv}
use tui_ssh_client.Ui.Sftp.World.Single.{step-Inv, done-Change}

-- The connection that a message reports of.
abbrev pub gen_of : Msg → Option ℕ
gen_of (sftp_connected g c dir es) = some g
gen_of (sftp_failed g e) = some g
gen_of (listed g side dir es) = some g
gen_of (not_listed g side dir e) = some g
gen_of (planned g req) = some g
gen_of (not_planned g e) = some g
gen_of (delete_planned g side dir es files dirs) = some g
gen_of (progress_tick g) = some g
gen_of (transfer_done g label bytes skipped e) = some g
gen_of (file_op_done g told e) = some g
gen_of (host_key_prompt n waited) = none
gen_of host_key_answered = none
gen_of (key k) = none
gen_of (mouse m) = none
gen_of (resized width height) = none

-- The connection that a message brings is closed, and nothing else changes.
abbrev pub only_closed : Msg → SplitView → SplitView
only_closed (sftp_connected g c dir es) a = record a { closed = c ∷ a.closed }
only_closed _ a = a

stale : (a : SplitView) (g : ℕ) (r : SplitView × Cmd) → g < a.gen → current a g r ≡ (a, nothing)
stale a g r h = ground arith

stale_silent :
    (m : Msg) (a : SplitView) (g : ℕ)
    → gen_of m ≡ some g
    → g < a.gen
    → update m a ≡ (only_closed m a, nothing)
unfolding update
stale_silent (sftp_connected g' c dir es) a g e h = ground arith
stale_silent (sftp_failed g' x) a g e h = stale a g' _ (ground arith)
stale_silent (listed g' side dir es) a g e h = stale a g' _ (ground arith)
stale_silent (not_listed g' side dir x) a g e h = stale a g' _ (ground arith)
stale_silent (planned g' req) a g e h = stale a g' _ (ground arith)
stale_silent (not_planned g' x) a g e h = stale a g' _ (ground arith)
stale_silent (delete_planned g' side dir es files dirs) a g e h = stale a g' _ (ground arith)
stale_silent (progress_tick g') a g e h = stale a g' _ (ground arith)
stale_silent (transfer_done g' label bytes skipped x) a g e h = stale a g' _ (ground arith)
stale_silent (file_op_done g' told x) a g e h = stale a g' _ (ground arith)
stale_silent (host_key_prompt n waited) a g e h = absurd (cc)
stale_silent host_key_answered a g e h = absurd (cc)
stale_silent (key k) a g e h = absurd (cc)
stale_silent (mouse m) a g e h = absurd (cc)
stale_silent (resized width height) a g e h = absurd (cc)

Change-gen : (a : SplitView) (r : SplitView × Cmd) → Change a r → a.gen ≤ r.0.gen
Change-gen a r (inl k) = omega (arith, k.same_gen)
Change-gen a r (inr (inl k)) = omega (arith, k.same_gen)
Change-gen a r (inr (inr k)) = omega (arith, k.next_gen)

ended-gen :
    (w : World) (i : ℕ) (label : Text) (bytes skipped : ℕ) (e : Ending) (o : Option Copying)
    → Steady w.view
    → w.view.gen ≤ (ended w i label bytes skipped e o).view.gen
unfolding ended update handled
ended-gen w i label bytes skipped e none h = omega arith
ended-gen w i label bytes skipped e (some c) h =
    if_cases (λ r. w.view.gen ≤ r.0.gen) (c.gen == w.view.gen) (done w.view label bytes skipped e)
      (w.view, nothing) (λ same. omega (arith, (done-Change w.view h label bytes skipped e).0))
      (λ other. omega arith)

step-gen : (e : Event) (w : World) → Inv w → w.view.gen ≤ (step e w).view.gen
unfolding step handled
step-gen (message m) w inv =
    if_cases (λ (v : World). w.view.gen ≤ v.view.gen) (from_copy m) w _ (λ own. omega arith)
      (λ other. Change-gen w.view _ (update-Change w.view inv.steady m other))
step-gen (copy_ended i label bytes skipped e) w inv =
    ended-gen w i label bytes skipped e (get_elem? w.copies i) inv.steady

run-gen : (es : List Event) (w : World) → Inv w → w.view.gen ≤ (run es w).view.gen
unfolding run
run-gen [] w inv = omega arith
run-gen (e ∷ es) w inv = omega (arith, step-gen e w inv, run-gen es (step e w) (step-Inv e w inv))

-- Once the split view dials a server, no report of an earlier connection, at any time after, changes
-- anything or starts anything, but that a connection that it brings is closed.
pub superseded_silent :
    (m : Msg) (g : ℕ) (w : World) (srv : Server) (es : List Event)
    → Inv w
    → gen_of m ≡ some g
    → g ≤ w.view.gen
    → let v = (run es (handled (start_sftp w.view srv) w.copies)).view in
      update m v ≡ (only_closed m v, nothing)
unfolding handled
superseded_silent m g w srv es inv e h =
    let torn = start_sftp-Torn w.view inv.steady srv in
    let inv' =
      Change-Inv w.view (start_sftp w.view srv) w.copies inv.owned inv.counted (inr (inr torn)) in
    stale_silent m _ g e (omega (arith, torn.next_gen, run-gen es _ inv'))
