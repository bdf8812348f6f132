-- ===== src/Ui/Sftp/World/Pointed.antt =====
-- The mouse over the split view, each as a change of the copies.
use tui_ssh_client.Prelude.{ℕ, ◌≡◌, refl, Option, none, some, arith, if_both}
use tui_ssh_client.Prelude.Int.{ℤ}
use tui_ssh_client.Ui.State.{Focus}
use tui_ssh_client.Ui.Sftp.Pane.{Pane, row_to_index, move_cursor}
use tui_ssh_client.Ui.Sftp.State.{nothing, Drag, SplitView, pane, set_pane, side_at}
use tui_ssh_client.Ui.Sftp.Pointer.{
  Mouse, handle_sftp_mouse, wheel_up, wheel_down, press, motion, release, drag_over, press_at,
  release_at, wheel, wheel_in, press_in, press_row,
}
use tui_ssh_client.Ui.Sftp.World.Change.{Kept, Steady, idle-Kept, build_transfer-Kept}
use tui_ssh_client.Ui.Sftp.Pane.Window.{IsShown, move_cursor-IsShown, press-IsShown}
use tui_ssh_client.Ui.Sftp.World.Routes.{set_pane-Kept, pane-IsShown}

module _ (a : SplitView) (h : Steady a) where
  wheel-Kept : (d : ℤ) (o : Option Focus) → Kept a (wheel a d o)
  unfolding wheel
  wheel-Kept d none = idle-Kept a h
  wheel-Kept d (some side) = at (pane a side) refl
    where
      at : (o : Option Pane) → pane a side ≡ o → Kept a (wheel_in a d side o)
      at none e = idle-Kept a h
      at (some p) e =
          set_pane-Kept a h side (move_cursor p d)
            (move_cursor-IsShown p d (pane-IsShown a h side p e))

  press_row-Kept :
      (side : Focus) (p : Pane) (y : ℕ) (o : Option ℕ)
      → IsShown p
      → row_to_index p y ≡ o
      → Kept a (press_row (record a { focus = side }) side p o, nothing)
  unfolding press_row set_pane
  press_row-Kept side p y none s e = ground arith
  press_row-Kept side p y (some i) s e = ground (arith, press-IsShown p y i s e)

  press_at-Kept : (y : ℕ) (o : Option Focus) → Kept a (press_at a y o, nothing)
  unfolding press_at
  press_at-Kept y none = idle-Kept a h
  press_at-Kept y (some side) = at (pane a side) refl
    where
      at : (o : Option Pane) → pane a side ≡ o → Kept a (press_in a y side o, nothing)
      at none e = idle-Kept a h
      at (some p) e = press_row-Kept side p y _ (pane-IsShown a h side p e) refl

  drag_over-Kept : (f : Option Focus) (o : Option Drag) → Kept a (drag_over a f o, nothing)
  unfolding drag_over
  drag_over-Kept f none = idle-Kept a h
  drag_over-Kept f (some d) = ground arith

  release_at-Kept :
      a.pending ≡ none → (f : Option Focus) (o : Option Drag) → Kept a (release_at a f o)
  unfolding release_at
  release_at-Kept clear f none = idle-Kept a h
  release_at-Kept clear none (some d) = ground arith
  release_at-Kept clear (some side) (some d) =
      let k =
        if_both (Kept (record a { drag = none })) _ _ _
          (build_transfer-Kept (record a { drag = none }) free d.from d.entries clear)
          (idle-Kept (record a { drag = none }) free) in
      record {
        same_gen = k.same_gen;
        same_copy = k.same_copy;
        cancels = k.cancels;
        same_contexts = k.same_contexts;
        starts_none = k.starts_none;
        alone = k.alone;
        quiet = k.quiet;
        shown = k.shown;
      }
    where
      free : Steady (record a { drag = none })
      free = record { alone = h.alone; quiet = h.quiet; shown = h.shown }

  -- The mouse, only where no question is up.
  pub handle_sftp_mouse-Kept : a.pending ≡ none → (m : Mouse) → Kept a (handle_sftp_mouse a m)
  unfolding handle_sftp_mouse
  handle_sftp_mouse-Kept clear (wheel_up x y) = wheel-Kept _ (side_at a x)
  handle_sftp_mouse-Kept clear (wheel_down x y) = wheel-Kept _ (side_at a x)
  handle_sftp_mouse-Kept clear (press x y) = press_at-Kept y (side_at a x)
  handle_sftp_mouse-Kept clear (motion x y) = drag_over-Kept (side_at a x) a.drag
  handle_sftp_mouse-Kept clear (release x y) = release_at-Kept clear (side_at a x) a.drag
