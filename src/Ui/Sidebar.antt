-- ===== src/Ui/Sidebar.antt =====
-- internal/ui/sidebar.go: the list of servers, in groups that can be folded. The list widget is
-- third-party; of it the cursor is kept.
pub mod Shown
pub mod Tests
use tui_ssh_client.Prelude.{
  ℕ, zero, suc, ◌+◌, ◌-◌, Bool, true, false, not, ◌&&◌, List, [], ◌∷◌, ◌++◌, Option, none, some,
  length, map, get_elem?, ltb, leb, if◌then◌else◌,
}
use tui_ssh_client.Prelude.Text.{Text, codes, text_eq, text_lt, is_empty, to_lower, trim_space}
use tui_ssh_client.Prelude.Dict.{Dict, lookup, insert}
use tui_ssh_client.Model.Server.{Server}

-- item: the action to connect, the header of a group with how many are in it and whether one that is
-- folded has a session, or a server with the number of its sessions.
pub data Row : Type 0 where
  connect_row : Row
  header_row : Text → Bool → ℕ → Bool → Row
  server_row : Server → ℕ → Row

pub record Sidebar : Type 0 where
  pub rows : List Row
  pub cursor : ℕ
  pub servers : List Server
  pub sessions : Dict ℕ
  pub collapsed : Dict Bool
  pub sort_recent : Bool

-- m[k], where a missing key has the zero value
abbrev pub or_zero : Option ℕ → ℕ
or_zero none = 0
or_zero (some n) = n

abbrev pub or_false : Option Bool → Bool
or_false none = false
or_false (some b) = b

-- sort.SliceStable by the time of the last connection, the latest first.
unfoldable pub insert_recent : Server → List Server → List Server
insert_recent s [] = s ∷ []
insert_recent s (t ∷ ts) =
    let rest = insert_recent s ts in if ltb s.last_used t.last_used then t ∷ rest else s ∷ t ∷ ts

unfoldable pub sort_recent_first : List Server → List Server
unfolding insert_recent
sort_recent_first [] = []
sort_recent_first (s ∷ ss) = insert_recent s (sort_recent_first ss)

unfoldable pub sort_servers : Bool → List Server → List Server
unfolding sort_recent_first
sort_servers recent ss = if recent then sort_recent_first ss else ss

-- The groups in the order in which they are first seen, each with its members.
pub record Grouped : Type 0 where
  pub loose : List Server
  pub groups : Dict (List Server)

-- byName[g] = append(byName[g], s)
unfoldable pub join_group : Text → Server → Dict (List Server) → Dict (List Server)
join_group g s [] = (g, s ∷ []) ∷ []
join_group g s ((k, ms) ∷ m) =
    let rest = join_group g s m in if text_eq k g then (k, ms ++ s ∷ []) ∷ m else (k, ms) ∷ rest

unfoldable pub group_of : Server → Text
group_of s = trim_space s.group

unfoldable pub group_one : Server → Grouped → Grouped
unfolding join_group group_of
group_one s g =
    if is_empty (group_of s)
    then record g { loose = g.loose ++ s ∷ [] }
    else record g { groups = join_group (group_of s) s g.groups }

unfoldable pub group_all : List Server → Grouped → Grouped
unfolding group_one
group_all [] g = g
group_all (s ∷ ss) g = group_all ss (group_one s g)

-- sort.Slice by the names without regard to case; names that differ in case alone stay as they are.
unfoldable pub insert_group : Text × List Server → Dict (List Server) → Dict (List Server)
insert_group e [] = e ∷ []
insert_group e (f ∷ m) =
    let rest = insert_group e m in
    if text_lt (to_lower f.0) (to_lower e.0) then f ∷ rest else e ∷ f ∷ m

unfoldable pub sort_groups : Dict (List Server) → Dict (List Server)
unfolding insert_group
sort_groups [] = []
sort_groups (e ∷ m) = insert_group e (sort_groups m)

unfoldable pub server_rows : Dict ℕ → List Server → List Row
server_rows sessions [] = []
server_rows sessions (s ∷ ss) =
    server_row s (or_zero (lookup s.id sessions)) ∷ server_rows sessions ss

unfoldable pub any_open : Dict ℕ → List Server → Bool
any_open sessions [] = false
any_open sessions (s ∷ ss) =
    let rest = any_open sessions ss in if ltb 0 (or_zero (lookup s.id sessions)) then true else rest

unfoldable pub group_rows : Dict ℕ → Dict Bool → Bool → Dict (List Server) → List Row
unfolding server_rows any_open sort_servers
group_rows sessions collapsed recent [] = []
group_rows sessions collapsed recent ((g, ms) ∷ m) =
    let folded = or_false (lookup g collapsed) in
    header_row g folded (length ms) (any_open sessions ms)
      ∷ (if folded then [] else server_rows sessions (sort_servers recent ms))
    ++ group_rows sessions collapsed recent m

-- itemsFor
unfoldable pub items_for : List Server → Dict ℕ → Dict Bool → Bool → List Row
unfolding group_all sort_groups group_rows server_rows sort_servers
items_for ss sessions collapsed recent =
    let g = group_all ss (record { loose = []; groups = [] }) in
    connect_row ∷ server_rows sessions (sort_servers recent g.loose)
    ++ group_rows sessions collapsed recent (sort_groups g.groups)

-- (s *sidebar) reload
unfoldable pub reload : Sidebar → Sidebar
unfolding items_for
reload s =
    let items = items_for s.servers s.sessions s.collapsed s.sort_recent in
    record s {
      rows = items;
      cursor = if leb (length items) s.cursor then length items - 1 else s.cursor;
    }

unfoldable pub set_servers : List Server → Sidebar → Sidebar
unfolding reload
set_servers ss s = reload (record s { servers = ss })

unfoldable pub set_open : Dict ℕ → Sidebar → Sidebar
unfolding reload
set_open sessions s = reload (record s { sessions = sessions })

unfoldable pub set_sort_recent : Bool → Sidebar → Sidebar
unfolding reload
set_sort_recent on s = reload (record s { sort_recent = on })

all_folded : List Text → Dict Bool → Dict Bool
all_folded [] m = m
all_folded (g ∷ gs) m = all_folded gs (insert g true m)

unfoldable pub set_collapsed : List Text → Sidebar → Sidebar
unfolding reload all_folded
set_collapsed gs s = reload (record s { collapsed = all_folded gs [] })

toggle_at : Option Row → Sidebar → Sidebar × Bool
unfolding reload
toggle_at (some (header_row g folded count has_open)) s =
    let fold = not (or_false (lookup g s.collapsed)) in
    (reload (record s { collapsed = insert g fold s.collapsed }), true)
toggle_at _ s = (s, false)

-- (s *sidebar) ToggleGroup, and whether the cursor was on a header.
unfoldable pub toggle_group : Sidebar → Sidebar × Bool
unfolding toggle_at
toggle_group s = toggle_at (get_elem? s.rows s.cursor) s

abbrev same : Bool → Bool → Bool
same true b = b
same false b = not b

fold_at : Bool → Option Row → Sidebar → Sidebar × Bool
unfolding reload
fold_at fold (some (header_row g folded count has_open)) s =
    if same (or_false (lookup g s.collapsed)) fold
    then (s, false)
    else (reload (record s { collapsed = insert g fold s.collapsed }), true)
fold_at fold _ s = (s, false)

-- (s *sidebar) SetGroupCollapsed, and whether anything changed.
unfoldable pub set_group_collapsed : Bool → Sidebar → Sidebar × Bool
unfolding fold_at
set_group_collapsed fold s = fold_at fold (get_elem? s.rows s.cursor) s
