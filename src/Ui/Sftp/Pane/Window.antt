-- ===== src/Ui/Sftp/Pane/Window.antt =====
-- The cursor of a pane stays on the listing and in the window, and a row of the screen picks the
-- entry that is drawn there.
use tui_ssh_client.Prelude.{
  ℕ, ◌+◌, ◌-◌, ◌≤◌, ◌<◌, ◌≡◌, ◌⊎◌, inl, inr, refl, List, [], ◌∷◌, Option, none, some, max, arith,
  length, get_elem?,
}
use tui_ssh_client.Prelude.Int.{ℤ, pos, negsuc, ◌+ℤ◌}
use tui_ssh_client.Prelude.Text.{Text}
use tui_ssh_client.Sftp.Tree.{FileEntry}
use tui_ssh_client.Ui.Sftp.Pane.{
  Side, Pane, new_pane, clamp_int, set_entries, list_failed, toggle_mark, clear_marks, clamp_offset,
  move_cursor, row_to_index, Line, blank, message, entry, resize_pane, ScreenRow, body, pane_screen,
}

-- The cursor is on an entry, if there are any, and in the window, and the window does not run past
-- the end of a listing that fills it. A message stands over an empty listing.
pub record IsShown (p : Pane) : Type 0 where
  pub on_entry : (p.cursor < length p.entries) ⊎ ((p.entries ≡ []) × (p.cursor ≡ 0))
  pub below_top : p.offset ≤ p.cursor
  pub above_end : p.cursor < p.offset + max p.rows 1
  pub filled : p.offset ≤ length p.entries - max p.rows 1
  pub told : (p.err ≡ []) ⊎ (p.entries ≡ [])

pub new_pane-IsShown : (s : Option Side) (rows : ℕ) → IsShown (new_pane s rows)
new_pane-IsShown s rows = record {
  on_entry = inr (refl, refl);
  below_top = omega arith;
  above_end = ground arith;
  filled = omega arith;
  told = inl refl;
}

clamp_int_le : (z : ℤ) (hi : ℕ) → clamp_int z hi ≤ hi
unfolding clamp_int
clamp_int_le (negsuc n) hi = omega arith
clamp_int_le (pos n) hi = ground arith

-- Whatever the offset was, the window is where the cursor is.
pub clamp_offset-IsShown :
    (p : Pane)
    → (p.cursor < length p.entries) ⊎ ((p.entries ≡ []) × (p.cursor ≡ 0))
    → (p.err ≡ []) ⊎ (p.entries ≡ [])
    → IsShown (clamp_offset p)
unfolding clamp_offset
clamp_offset-IsShown p h e = ground arith

pub move_cursor-IsShown : (p : Pane) (d : ℤ) → IsShown p → IsShown (move_cursor p d)
unfolding move_cursor
move_cursor-IsShown p d h = ground (arith, clamp_int_le (pos p.cursor +ℤ d) (length p.entries - 1))

pub set_entries-IsShown :
    (p : Pane) (dir : Text) (es : List FileEntry) → IsShown (set_entries p dir es)
unfolding set_entries
set_entries-IsShown p dir [] = ground arith
set_entries-IsShown p dir (e ∷ es) = ground arith

pub list_failed-IsShown : (p : Pane) (dir err : Text) → IsShown (list_failed p dir err)
unfolding list_failed
list_failed-IsShown p dir err = record {
  on_entry = inr (refl, refl);
  below_top = omega arith;
  above_end = ground arith;
  filled = omega arith;
  told = inr refl;
}

pub toggle_mark-IsShown : (p : Pane) → IsShown p → IsShown (toggle_mark p)
unfolding toggle_mark
toggle_mark-IsShown p h = ground arith

pub clear_marks-IsShown : (p : Pane) → IsShown p → IsShown (clear_marks p)
unfolding clear_marks
clear_marks-IsShown p h = ground arith

pub resize_pane-IsShown : (rows : ℕ) (p : Pane) → IsShown p → IsShown (resize_pane rows p)
unfolding resize_pane
resize_pane-IsShown rows p h = clamp_offset-IsShown (record p { rows = rows }) h.on_entry h.told

-- pane.cursor = idx, after a press on a row
pub press-IsShown :
    (p : Pane) (y i : ℕ) → IsShown p → row_to_index p y ≡ some i → IsShown (record p { cursor = i })
unfolding row_to_index
press-IsShown p y i h e = ground arith

abbrev pub entry_in : Option Line → Option FileEntry
entry_in none = none
entry_in (some blank) = none
entry_in (some (message t)) = none
entry_in (some (entry e)) = some e

abbrev pub entry_on : Option ScreenRow → Option FileEntry
entry_on (some (body l)) = entry_in (some l)
entry_on _ = none

-- The entry that is drawn on row `y` of the screen.
abbrev pub drawn : Text → Pane → ℕ → Option FileEntry
drawn name p y = entry_on (get_elem? (pane_screen name p) y)

abbrev pub picked_in : List FileEntry → Option ℕ → Option FileEntry
picked_in es none = none
picked_in es (some i) = get_elem? es i

-- The entry that a click on row `y` of the screen picks.
abbrev pub picked : Pane → ℕ → Option FileEntry
picked p y = picked_in p.entries (row_to_index p y)
