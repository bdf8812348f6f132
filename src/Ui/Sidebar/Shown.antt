-- ===== src/Ui/Sidebar/Shown.antt =====
-- Which servers the rows show.
use tui_ssh_client.Prelude.{
  ℕ, ◌+◌, ◌≡◌, ◌<◌, refl, ap, ◌∙◌, Bool, true, false, not, ◌&&◌, List, [], ◌∷◌, ◌++◌, length, arith,
  if◌then◌else◌,
}
use tui_ssh_client.Prelude.Text.{Text, text_eq_iff, is_empty}
use tui_ssh_client.Prelude.Dict.{Dict, lookup}
use tui_ssh_client.Model.Server.{Server}
use tui_ssh_client.Ui.Sidebar.{
  Row, connect_row, header_row, server_row, Sidebar, or_false, insert_recent, sort_recent_first,
  sort_servers, Grouped, join_group, group_of, group_one, group_all, insert_group, sort_groups,
  server_rows, group_rows, items_for, reload,
}

abbrev pub one : Bool → ℕ
one true = 1
one false = 0

-- How many of the servers pass a test.
unfoldable pub count : (Server → Bool) → List Server → ℕ
count p [] = 0
count p (s ∷ ss) = one (p s) + count p ss

-- How many rows show a server that passes it.
unfoldable pub shown : (Server → Bool) → List Row → ℕ
shown p [] = 0
shown p (server_row s n ∷ rows) = one (p s) + shown p rows
shown p (connect_row ∷ rows) = shown p rows
shown p (header_row g folded n has_open ∷ rows) = shown p rows

-- Whether the group of a server is folded.
unfoldable pub hidden : Dict Bool → Server → Bool
unfolding group_of
hidden collapsed s =
    if is_empty (group_of s) then false else or_false (lookup (group_of s) collapsed)

module _ (p : Server → Bool) where
  count-append : (xs ys : List Server) → count p (xs ++ ys) ≡ count p xs + count p ys
  unfolding count
  count-append [] ys = omega arith
  count-append (x ∷ xs) ys = omega (arith, count-append xs ys)

  shown-append : (xs ys : List Row) → shown p (xs ++ ys) ≡ shown p xs + shown p ys
  unfolding shown
  shown-append [] ys = omega arith
  shown-append (server_row s n ∷ xs) ys = omega (arith, shown-append xs ys)
  shown-append (connect_row ∷ xs) ys = shown-append xs ys
  shown-append (header_row g f n o ∷ xs) ys = shown-append xs ys

  count-insert_recent :
      (s : Server) (ss : List Server) → count p (insert_recent s ss) ≡ one (p s) + count p ss
  unfolding count insert_recent
  count-insert_recent s [] = refl
  count-insert_recent s (t ∷ ts) = ground (arith, count-insert_recent s ts)

  count-sort_recent_first : (ss : List Server) → count p (sort_recent_first ss) ≡ count p ss
  unfolding count sort_recent_first
  count-sort_recent_first [] = refl
  count-sort_recent_first (s ∷ ss) =
      omega (arith, count-insert_recent s (sort_recent_first ss), count-sort_recent_first ss)

  count-sort_servers :
      (recent : Bool) (ss : List Server) → count p (sort_servers recent ss) ≡ count p ss
  unfolding sort_servers
  count-sort_servers true ss = count-sort_recent_first ss
  count-sort_servers false ss = refl

  shown-server_rows : (o : Dict ℕ) (ss : List Server) → shown p (server_rows o ss) ≡ count p ss
  unfolding shown server_rows count
  shown-server_rows o [] = refl
  shown-server_rows o (s ∷ ss) = omega (arith, shown-server_rows o ss)

  module _ (collapsed : Dict Bool) where
    -- The members of the groups that are not folded.
    total : Dict (List Server) → ℕ
    total [] = 0
    total ((g, ms) ∷ m) = (if or_false (lookup g collapsed) then 0 else count p ms) + total m

    total-insert_group :
        (e : Text × List Server) (m : Dict (List Server)) → total (insert_group e m) ≡ total (e ∷ m)
    unfolding total insert_group
    total-insert_group e [] = refl
    total-insert_group e (f ∷ m) = ground (arith, total-insert_group e m)

    total-sort_groups : (m : Dict (List Server)) → total (sort_groups m) ≡ total m
    unfolding total sort_groups
    total-sort_groups [] = refl
    total-sort_groups (e ∷ m) =
        total-insert_group e (sort_groups m)
        ∙ ap (λ n. (if or_false (lookup e.0 collapsed) then 0 else count p e.1) + n)
            (total-sort_groups m)

    total-join_group :
        (g : Text) (s : Server) (m : Dict (List Server))
        → total (join_group g s m)
          ≡ (if or_false (lookup g collapsed) then 0 else one (p s)) + total m
    unfolding total join_group count
    total-join_group g s [] = ground arith
    total-join_group g s ((k, ms) ∷ m) =
        ground (arith, text_eq_iff k g, count-append ms (s ∷ []), total-join_group g s m)

    shown-group_rows :
        (o : Dict ℕ) (recent : Bool) (m : Dict (List Server))
        → shown p (group_rows o collapsed recent m) ≡ total m
    unfolding total group_rows shown
    shown-group_rows o recent [] = refl
    shown-group_rows o recent ((g, ms) ∷ m) =
        let members = server_rows o (sort_servers recent ms) in
        let folded = or_false (lookup g collapsed) in
        ground (
          arith,
          shown-append (if folded then [] else members) (group_rows o collapsed recent m),
          shown-server_rows o (sort_servers recent ms),
          count-sort_servers recent ms,
          shown-group_rows o recent m,
        )

    count_all : Grouped → ℕ
    unfolding total
    count_all g = count p g.loose + total g.groups

    none_counted : count_all (record { loose = []; groups = [] }) ≡ 0
    unfolding count_all total count
    none_counted = omega arith

    count_all-group_one :
        (s : Server) (g : Grouped)
        → count_all (group_one s g) ≡ (if hidden collapsed s then 0 else one (p s)) + count_all g
    unfolding count_all group_one hidden group_of count
    count_all-group_one s g =
        ground (arith, count-append g.loose (s ∷ []), total-join_group (group_of s) s g.groups)

    count_all-group_all :
        (ss : List Server) (g : Grouped)
        → count_all (group_all ss g) ≡ count (λ s. p s && not (hidden collapsed s)) ss + count_all g
    unfolding group_all count
    count_all-group_all [] g = omega arith
    count_all-group_all (s ∷ ss) g =
        ground (arith, count_all-group_one s g, count_all-group_all ss (group_one s g))

  shown-items_for :
      (ss : List Server) (o : Dict ℕ) (collapsed : Dict Bool) (recent : Bool)
      → shown p (items_for ss o collapsed recent) ≡ count (λ s. p s && not (hidden collapsed s)) ss
  unfolding items_for shown count_all
  shown-items_for ss o collapsed recent =
      let g = group_all ss (record { loose = []; groups = [] }) in
      omega (
        arith,
        shown-append (server_rows o (sort_servers recent g.loose))
            (group_rows o collapsed recent (sort_groups g.groups)),
        shown-server_rows o (sort_servers recent g.loose),
        count-sort_servers recent g.loose,
        shown-group_rows collapsed o recent (sort_groups g.groups),
        total-sort_groups collapsed g.groups,
        count_all-group_all collapsed ss (record { loose = []; groups = [] }),
        none_counted collapsed,
      )

items_for-length :
    (ss : List Server) (o : Dict ℕ) (collapsed : Dict Bool) (recent : Bool)
    → 0 < length (items_for ss o collapsed recent)
unfolding items_for
items_for-length ss o collapsed recent = omega arith

-- After a reload, the rows show each server as often as it is in the list if its group is not folded,
-- and else not at all, whatever the order (as many of them pass any test), and the cursor is on a row.
pub reload_shows :
    (p : Server → Bool) (s : Sidebar)
    → (shown p (reload s).rows ≡ count (λ x. p x && not (hidden s.collapsed x)) s.servers)
      × ((reload s).cursor < length (reload s).rows)
unfolding reload
reload_shows p s = (
  shown-items_for p s.servers s.sessions s.collapsed s.sort_recent,
  ground (arith, items_for-length s.servers s.sessions s.collapsed s.sort_recent),
)
