-- ===== src/Ui/Sync/Labels.antt =====
-- Which move of the register an event of sync is.
use tui_ssh_client.Prelude.{Bool, if◌then◌else◌, List, [], ◌∷◌, Option, none, some, get_elem?}
use tui_ssh_client.Prelude.Text.{Text}
use tui_ssh_client.Config.VaultFile.{Outside}
use tui_ssh_client.Config.Bundle.Apply.{Json}
use tui_ssh_client.Ui.Sync.{
  Cmd, check_repo, push_cmd, pull_cmd, apply_pull, persist, load_servers, Msg, applied,
}
use tui_ssh_client.Ui.Sync.Commands.{apply_command}
use tui_ssh_client.Ui.Sync.World.{
  GitHub, World, Answers, Event, key, opens, pushes, pulls, restarts, answers, delivered, runs,
  others_write, step, held, file_of,
}
use tui_ssh_client.Ui.Sync.Register.{Move, other_puts, takes, applies, own_puts, rests}

-- A pull that was applied to the end; one that fails on the way is none.
abbrev pub answer_move : Text → Msg → Move
answer_move blob (applied rep a sha) = applies blob
answer_move blob m = rests

-- A file is taken if GitHub answers with it.
abbrev pub fetch_move : Bool → Text → Move
fetch_move serves f = if serves then takes f else rests

abbrev pub cmd_move : Outside → Json → Answers → World → Option Cmd → Move
cmd_move o j a w none = rests
cmd_move o j a w (some (check_repo auth)) = rests
cmd_move o j a w (some (push_cmd r)) = own_puts (file_of r.auth)
cmd_move o j a w (some (pull_cmd r)) = fetch_move a.serves (file_of r.auth)
cmd_move o j a w (some (apply_pull blob sha r)) =
    answer_move blob
      (apply_command o j a.calls blob sha (record a.secrets { github = held w.app.shas r }) a.pass
        a.local).1
cmd_move o j a w (some (persist r)) = rests
cmd_move o j a w (some load_servers) = rests

abbrev pub move_of : Outside → Json → Event → World → Move
move_of o j (key k) w = rests
move_of o j opens w = rests
move_of o j pushes w = rests
move_of o j pulls w = rests
move_of o j restarts w = rests
move_of o j (answers b) w = rests
move_of o j (delivered i) w = rests
move_of o j (runs i a) w = cmd_move o j a w (get_elem? w.running i)
move_of o j (others_write f c) w = other_puts f c

abbrev pub moves : GitHub → Outside → Json → List Event → World → List Move
moves g o j [] w = []
moves g o j (e ∷ es) w = move_of o j e w ∷ moves g o j es (step g o j e w)
