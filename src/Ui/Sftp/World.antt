-- ===== src/Ui/Sftp/World.antt =====
-- The split view with the copies that it started: a copy runs beside the event loop, from the command
-- that starts it until its transferDoneMsg is handled.
pub mod Change
pub mod Routes
pub mod Pointed
pub mod Messages
pub mod Owned
pub mod Single
pub mod Superseded
use tui_ssh_client.Prelude.{
  ℕ, ◌+◌, Bool, true, false, not, List, [], ◌∷◌, ◌++◌, Option, none, some, ◌==◌, get_elem?,
  remove_at, if◌then◌else◌,
}
use tui_ssh_client.Prelude.Text.{Text}
use tui_ssh_client.Ui.Sftp.State.{Cmd, batch, run_transfer, SplitView}
use tui_ssh_client.Ui.Sftp.Results.{Ending}
use tui_ssh_client.Ui.Sftp.Update.{Msg, transfer_done, update}

-- A goroutine of runTransfer, by its context and the generation that it reports.
pub record Copying : Type 0 where
  pub ctx : ℕ
  pub gen : ℕ

abbrev pub copies_of : Cmd → List Copying
copies_of (run_transfer ctx c req gen) = record { ctx = ctx; gen = gen } ∷ []
copies_of (batch c d) = copies_of c ++ copies_of d
copies_of _ = []

pub record World : Type 0 where
  pub view : SplitView
  pub copies : List Copying

-- What happens next: a message that no copy sends, or the i-th copy has ended and reports.
pub data Event : Type 0 where
  message : Msg → Event
  copy_ended : ℕ → Text → ℕ → ℕ → Ending → Event

abbrev pub from_copy : Msg → Bool
from_copy (transfer_done g l b s e) = true
from_copy _ = false

unfoldable pub handled : SplitView × Cmd → List Copying → World
handled (a, cmd) copies = record { view = a; copies = copies ++ copies_of cmd }

unfoldable pub ended : World → ℕ → Text → ℕ → ℕ → Ending → Option Copying → World
ended w i label bytes skipped e none = w
ended w i label bytes skipped e (some c) =
    handled (update (transfer_done c.gen label bytes skipped e) w.view) (remove_at i w.copies)

unfoldable pub step : Event → World → World
unfolding handled ended
step (message m) w = if from_copy m then w else handled (update m w.view) w.copies
step (copy_ended i label bytes skipped e) w = ended w i label bytes skipped e (get_elem? w.copies i)

unfoldable pub run : List Event → World → World
run [] w = w
run (e ∷ es) w = run es (step e w)
