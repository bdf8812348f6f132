-- ===== src/Ui/Sftp/Pointer.antt =====
-- internal/ui/sftp.go: the mouse over the split view, a drag above all.
use tui_ssh_client.Prelude.{ℕ, Bool, true, false, [], ◌∷◌, Option, none, some, if◌then◌else◌}
use tui_ssh_client.Prelude.Int.{ℤ, pos}
use tui_ssh_client.Prelude.Words.{has}
use tui_ssh_client.Sftp.Tree.{FileEntry}
use tui_ssh_client.Ui.State.{Focus, focus_local, focus_remote, focus_sidebar}
use tui_ssh_client.Ui.Sftp.Pane.{Pane, transferable, targets, move_cursor, row_to_index}
use tui_ssh_client.Ui.Sftp.State.{
  Drag, Cmd, nothing, SplitView, pane, set_pane, other_side, side_at,
}
use tui_ssh_client.Ui.Sftp.Handlers.{build_transfer}
use tui_ssh_client.Ui.Sftp.Keys.{minus}

-- The mouse over the split view: tea.MouseMsg, by its action and button, with its column and row.
pub data Mouse : Type 0 where
  wheel_up wheel_down press motion release : ℕ → ℕ → Mouse

abbrev pub scroll_step : ℕ
scroll_step = 3

unfoldable pub wheel_in : SplitView → ℤ → Focus → Option Pane → SplitView × Cmd
wheel_in a d side none = (a, nothing)
wheel_in a d side (some p) = (set_pane a side (move_cursor p d), nothing)

unfoldable pub wheel : SplitView → ℤ → Option Focus → SplitView × Cmd
unfolding wheel_in
wheel a d none = (a, nothing)
wheel a d (some side) = wheel_in a d side (pane a side)

-- What a press grabs: the selection, if the row is of it, and else the row.
unfoldable pub grab : Focus → Pane → Option FileEntry → Option Drag → Option Drag
grab side p none old = old
grab side p (some e) old = some (record {
  from = side;
  entries = if has e.name p.marked then targets p else e ∷ [];
  over = side;
})

unfoldable pub press_row : SplitView → Focus → Pane → Option ℕ → SplitView
unfolding grab
press_row a side p none = a
press_row a side p (some i) =
    let q = record p { cursor = i } in
    let b = set_pane a side q in record b { drag = grab side q (transferable q) a.drag }

unfoldable pub press_in : SplitView → ℕ → Focus → Option Pane → SplitView
unfolding press_row
press_in a y side none = a
press_in a y side (some p) = press_row (record a { focus = side }) side p (row_to_index p y)

unfoldable pub press_at : SplitView → ℕ → Option Focus → SplitView
unfolding press_in
press_at a y none = a
press_at a y (some side) = press_in a y side (pane a side)

abbrev pub over_or : Option Focus → Focus → Focus
over_or none f = f
over_or (some side) f = side

unfoldable pub drag_over : SplitView → Option Focus → Option Drag → SplitView
drag_over a at none = a
drag_over a at (some d) = record a { drag = some (record d { over = over_or at focus_sidebar }) }

abbrev pub same_side : Focus → Focus → Bool
same_side focus_local focus_local = true
same_side focus_remote focus_remote = true
same_side _ _ = false

unfoldable pub drop_at : SplitView → Drag → Option Focus → SplitView × Cmd
drop_at a d none = (a, nothing)
drop_at a d (some side) =
    if same_side side (other_side d.from) then build_transfer a d.from d.entries else (a, nothing)

unfoldable pub release_at : SplitView → Option Focus → Option Drag → SplitView × Cmd
unfolding drop_at
release_at a at none = (a, nothing)
release_at a at (some d) = drop_at (record a { drag = none }) d at

-- (a *App) handleSFTPMouse; what it does not take is left as it is.
unfoldable pub handle_sftp_mouse : SplitView → Mouse → SplitView × Cmd
unfolding wheel press_at drag_over release_at
handle_sftp_mouse a (wheel_up x y) = wheel a (minus scroll_step) (side_at a x)
handle_sftp_mouse a (wheel_down x y) = wheel a (pos scroll_step) (side_at a x)
handle_sftp_mouse a (press x y) = (press_at a y (side_at a x), nothing)
handle_sftp_mouse a (motion x y) = (drag_over a (side_at a x) a.drag, nothing)
handle_sftp_mouse a (release x y) = release_at a (side_at a x) a.drag
