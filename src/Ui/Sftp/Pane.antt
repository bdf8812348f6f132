-- ===== src/Ui/Sftp/Pane.antt =====
-- internal/ui/sftp.go: filePane, one side of the split view.
pub mod Window
use tui_ssh_client.Prelude.{
  ℕ, zero, suc, ◌+◌, ◌-◌, Bool, true, false, ◌&&◌, ◌||◌, not, List, [], ◌∷◌, ◌++◌, Option, none,
  some, max, ltb, leb, ◌==◌, length, get_elem?, if◌then◌else◌,
}
use tui_ssh_client.Prelude.Int.{ℤ, pos, negsuc, ltb_ℤ, ◌+ℤ◌, ◌-ℤ◌}
use tui_ssh_client.Prelude.Text.{Text, codes, text_eq}
use tui_ssh_client.Prelude.Words.{has}
use tui_ssh_client.Prelude.Path.{dir_path}
use tui_ssh_client.Sftp.Tree.{FileEntry}
use tui_ssh_client.Ui.State.{top_margin, right_header_rows}

-- Browser, as the panes hold it: this machine, or a connection by its number. Both join and split
-- at slashes.
pub data Side : Type 0 where
  this_machine : Side
  server : ℕ → Side

abbrev pub parent_name : Text
parent_name = codes ".."

-- filePane. The cursor and the offset are never negative: each is 0, clamped at 0, or a row.
-- `marked` has the names that the map holds.
pub record Pane : Type 0 where
  pub br : Option Side
  pub dir : Text
  pub entries : List FileEntry
  pub cursor : ℕ
  pub offset : ℕ
  pub rows : ℕ
  pub err : Text
  pub marked : List Text

-- filePane{br: br, rows: rows}
abbrev pub new_pane : Option Side → ℕ → Pane
new_pane br rows = record {
  br = br;
  dir = [];
  entries = [];
  cursor = 0;
  offset = 0;
  rows = rows;
  err = [];
  marked = [];
}

-- clampInt, with the lower end 0
unfoldable pub clamp_int : ℤ → ℕ → ℕ
clamp_int (negsuc n) hi = 0
clamp_int (pos n) hi = if ltb hi n then hi else n

abbrev pub up_row : FileEntry
up_row = record { name = parent_name; size = 0; link = false; is_dir = true }

has_parent : Option Side → Text → Bool
has_parent none dir = false
has_parent (some s) dir = not (text_eq (dir_path dir) dir)

-- (p *filePane) setEntries
unfoldable pub set_entries : Pane → Text → List FileEntry → Pane
unfolding has_parent
set_entries p dir entries = record p {
  dir = dir;
  err = [];
  marked = [];
  entries = if has_parent p.br dir then up_row ∷ entries else entries;
  cursor = 0;
  offset = 0;
}

-- The case of listedMsg for an error.
unfoldable pub list_failed : Pane → Text → Text → Pane
list_failed p dir err = record p { dir = dir; entries = []; cursor = 0; offset = 0; err = err }

-- (p *filePane) selected
unfoldable pub selected : Pane → Option FileEntry
selected p = get_elem? p.entries p.cursor

abbrev pub is_cargo : FileEntry → Bool
is_cargo e = not (text_eq e.name parent_name)

abbrev pub cargo_of : Option FileEntry → Option FileEntry
cargo_of none = none
cargo_of (some e) = if is_cargo e then some e else none

-- (p *filePane) transferable
unfoldable pub transferable : Pane → Option FileEntry
unfolding selected
transferable p = cargo_of (selected p)

without : Text → List Text → List Text
without n [] = []
without n (m ∷ ms) = let rest = without n ms in if text_eq m n then rest else m ∷ rest

toggle : Option FileEntry → Pane → Pane
unfolding without
toggle none p = p
toggle (some e) p =
    if has e.name p.marked
    then record p { marked = without e.name p.marked }
    else record p { marked = e.name ∷ p.marked }

-- (p *filePane) toggleMark
unfoldable pub toggle_mark : Pane → Pane
unfolding toggle transferable
toggle_mark p = toggle (transferable p) p

unfoldable pub clear_marks : Pane → Pane
clear_marks p = record p { marked = [] }

-- The marked entries, in the order of the listing.
unfoldable pub marked_of : List Text → List FileEntry → List FileEntry
marked_of marked [] = []
marked_of marked (e ∷ es) =
    let rest = marked_of marked es in if is_cargo e && has e.name marked then e ∷ rest else rest

abbrev pub one_or_none : Option FileEntry → List FileEntry
one_or_none none = []
one_or_none (some e) = e ∷ []

abbrev pub marked_or : List FileEntry → List FileEntry → List FileEntry
marked_or [] other = other
marked_or (e ∷ es) other = e ∷ es

-- (p *filePane) targets
unfoldable pub targets : Pane → List FileEntry
unfolding marked_of transferable
targets p = marked_or (marked_of p.marked p.entries) (one_or_none (transferable p))

-- (p *filePane) clampOffset: the two scrolls, and the last clamp.
scroll_up : Pane → ℕ
scroll_up p = if ltb p.cursor p.offset then p.cursor else p.offset

scroll_down : ℕ → ℕ → ℕ → ℕ
scroll_down rows cursor offset = if leb (offset + rows) cursor then cursor + 1 - rows else offset

unfoldable pub clamp_offset : Pane → Pane
unfolding scroll_up scroll_down clamp_int
clamp_offset p =
    let rows = max p.rows 1 in
    if length p.entries == 0 then record p { offset = 0 } else record p {
      offset = clamp_int (pos (scroll_down rows p.cursor (scroll_up p))) (length p.entries - rows);
    }

-- (p *filePane) moveCursor
unfoldable pub move_cursor : Pane → ℤ → Pane
unfolding clamp_offset clamp_int
move_cursor p delta =
    if length p.entries == 0
    then record p { cursor = 0; offset = 0 }
    else clamp_offset
        (record p { cursor = clamp_int (pos p.cursor +ℤ delta) (length p.entries - 1) })

abbrev pub pane_body_top : ℕ
pane_body_top = top_margin + 1 + right_header_rows

-- (p *filePane) rowToIndex
unfoldable pub row_to_index : Pane → ℕ → Option ℕ
row_to_index p y =
    if ltb y pane_body_top
    then none
    else if leb (max p.rows 1) (y - pane_body_top)
    then none
    else if leb (length p.entries) (y - pane_body_top + p.offset)
    then none
    else some (y - pane_body_top + p.offset)

-- (p *filePane) View, before the styling: the message, an entry, or a blank line.
pub data Line : Type 0 where
  blank : Line
  message : Text → Line
  entry : FileEntry → Line

abbrev pub line_of : Option FileEntry → Line
line_of none = blank
line_of (some e) = entry e

entry_lines : ℕ → ℕ → List FileEntry → List Line
entry_lines zero i es = []
entry_lines (suc n) i es = line_of (get_elem? es i) ∷ entry_lines n (suc i) es

blanks : ℕ → List Line
blanks zero = []
blanks (suc n) = blank ∷ blanks n

body_lines : ℕ → ℕ → List FileEntry → Text → List Line
body_lines rows offset es [] = entry_lines rows offset es
body_lines rows offset es (c ∷ s) = message (c ∷ s) ∷ blanks (rows - 1)

unfoldable pub view : Pane → List Line
unfolding body_lines entry_lines blanks
view p = body_lines (max p.rows 1) p.offset p.entries p.err

-- After a.local.rows = rows: the last lines of the resize of a pane.
unfoldable pub resize_pane : ℕ → Pane → Pane
unfolding clamp_offset
resize_pane rows p = clamp_offset (record p { rows = rows })

-- The rows of the screen in the columns of a pane: the margin, the border, the header, and View.
pub data ScreenRow : Type 0 where
  margin border : ScreenRow
  title : Text → ScreenRow
  body : Line → ScreenRow

-- paneHeader
abbrev pane_header : Text → Text → List ScreenRow
pane_header label dir = title label ∷ title dir ∷ []

body_rows : List Line → List ScreenRow
body_rows [] = []
body_rows (l ∷ ls) = body l ∷ body_rows ls

margin_rows : ℕ → List ScreenRow → List ScreenRow
margin_rows zero rows = rows
margin_rows (suc n) rows = margin ∷ margin_rows n rows

-- (a *App) renderPane under the margin of (a *App) View, down to the last row of the body.
unfoldable pub pane_screen : Text → Pane → List ScreenRow
unfolding body_rows margin_rows
pane_screen label p =
    margin_rows top_margin (border ∷ pane_header label p.dir ++ body_rows (view p))
