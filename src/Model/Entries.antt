-- ===== src/Model/Entries.antt =====
-- internal/model/server.go, SortEntries: the order in which both panes show a directory.
pub mod Order
pub mod Shown
pub mod Tests
use tui_ssh_client.Prelude.{Bool, true, false, not, List, [], ◌∷◌, if◌then◌else◌}
use tui_ssh_client.Prelude.Text.{Text, text_eq, text_lt, to_lower}
use tui_ssh_client.Sftp.Tree.{FileEntry}

abbrev differ : Bool → Bool → Bool
differ true b = not b
differ false b = b

-- The less function of SortEntries.
unfoldable pub entry_less : FileEntry → FileEntry → Bool
entry_less a b =
    if differ a.is_dir b.is_dir
    then a.is_dir
    else if text_eq (to_lower a.name) (to_lower b.name)
    then text_lt a.name b.name
    else text_lt (to_lower a.name) (to_lower b.name)

unfoldable pub insert_entry : FileEntry → List FileEntry → List FileEntry
unfolding entry_less
insert_entry e [] = e ∷ []
insert_entry e (x ∷ xs) =
    let rest = insert_entry e xs in if entry_less x e then x ∷ rest else e ∷ x ∷ xs

-- sort.SliceStable
unfoldable pub sort_entries : List FileEntry → List FileEntry
unfolding insert_entry
sort_entries [] = []
sort_entries (e ∷ es) = insert_entry e (sort_entries es)
