-- ===== src/Ui/Sync/Refines.antt =====
-- Sync refines the register: no upload takes the place of something that this machine has not seen.
use tui_ssh_client.Prelude.{◌≡◌, refl, List, [], ◌∷◌, get_elem?}
use tui_ssh_client.Config.VaultFile.{Outside}
use tui_ssh_client.Config.Bundle.Apply.{Json}
use tui_ssh_client.Ui.Sync.World.{
  GitHub, Promises, World, Event, key, opens, pushes, pulls, restarts, answers, delivered, runs,
  others_write, step, run,
}
use tui_ssh_client.Ui.Sync.Register.{Register, Reach, here, next, rests, written, put_by_others}
use tui_ssh_client.Ui.Sync.Labels.{move_of, moves}
use tui_ssh_client.Ui.Sync.Simulates.{Simulates}
use tui_ssh_client.Ui.Sync.Moves.{Moved, unmoved, written-Simulates}
use tui_ssh_client.Ui.Sync.Handled.{
  key-Simulates, open-Simulates, push-Simulates, pull-Simulates, answer-Simulates,
}
use tui_ssh_client.Ui.Sync.Delivered.{deliver-Simulates, restart-Simulates}
use tui_ssh_client.Ui.Sync.Executed.{run_cmd-Moved}

step-Moved :
    (g : GitHub) (o : Outside) (j : Json) (e : Event) (w : World) (s : Register)
    → Promises g
    → Simulates g o w s
    → Moved g o (step g o j e w) s (move_of o j e w)
unfolding step
step-Moved g o j (key k) w s law h = unmoved g o _ s rests refl (key-Simulates g o w s h k)
step-Moved g o j opens w s law h = unmoved g o _ s rests refl (open-Simulates g o w s h)
step-Moved g o j pushes w s law h = unmoved g o _ s rests refl (push-Simulates g o w s h)
step-Moved g o j pulls w s law h = unmoved g o _ s rests refl (pull-Simulates g o w s h)
step-Moved g o j restarts w s law h =
    unmoved g o _ s rests refl (restart-Simulates g o w s w.vault h.vault h)
step-Moved g o j (answers b) w s law h = unmoved g o _ s rests refl (answer-Simulates g o w s h b)
step-Moved g o j (delivered i) w s law h =
    unmoved g o _ s rests refl (deliver-Simulates g o w s i (get_elem? w.mail i) refl h)
step-Moved g o j (runs i a) w s law h =
    run_cmd-Moved g o law j w s a i (get_elem? w.running i) refl h
step-Moved g o j (others_write f c) w s law h = record {
  to = written f c s;
  moved = put_by_others s f c;
  holds = written-Simulates g o w s f c h;
}

-- If GitHub replaces a file that exists only under its sha, and different contents have different shas:
-- from any state of sync that stands to a register on, whatever the user does, in whatever order commands
-- run and messages arrive, whatever answers are lost, however often the program starts again, and whatever
-- others write, the files on GitHub change, event by event, as those of the register do. In it a push of
-- this machine, and nothing else that it does, puts the file that the push is for, and replaces it only if
-- what is in it is what this machine has put there, or what it has fetched, with the bundle that it opens to
-- applied.
pub refines_register :
    (g : GitHub) (o : Outside) (j : Json) (es : List Event) (w : World) (s : Register)
    → Promises g
    → Simulates g o w s
    → (t : Register) × Reach o (moves g o j es w) s t
      × (t.files ≡ (run g o j es w).files)
      × Simulates g o (run g o j es w) t
unfolding run
refines_register g o j [] w s law h = (s, here s, h.files, h)
refines_register g o j (e ∷ es) w s law h =
    let m = step-Moved g o j e w s law h in
    let r = refines_register g o j es (step g o j e w) m.to law m.holds in
    (r.0, next _ _ s m.to r.0 m.moved r.1, r.2, r.3)
