-- ===== src/Sftp/RunSet/Tests.antt =====
-- Witnesses for the properties of RunSet, on the tree of Sftp/Tree/Tests.
use tui_ssh_client.Prelude.{◌≡◌, refl, true, false, List, [], ◌∷◌, ◌++◌, map, none}
use tui_ssh_client.Prelude.Text.{codes}
use tui_ssh_client.Sftp.Tests.{good_answers}
use tui_ssh_client.Sftp.Tree.Tests.{root_dir, tiny, tiny_walk, plan-tiny}
use tui_ssh_client.Sftp.RunSet.{Set, Given, run_of, to, run_set}
use tui_ssh_client.Sftp.RunSet.Parents.{IsBuilt, parents_first}
use tui_ssh_client.Sftp.RunSet.Whole.{files_of, is_finished, targets, set_in_turn}
use tui_ssh_client.Sftp.Tree.{Item}

abbrev tiny_set : Set
tiny_set = record {
  upload = true;
  src_root = root_dir;
  dst_root = codes "/copy";
  items = tiny_walk.items;
  skipped = 1;
}

abbrev granted : Given
granted = record { stop = none; made = true; answers = good_answers; old = none }

abbrev refused : Given
refused = record { stop = none; made = false; answers = good_answers; old = none }

abbrev all_granted : List Given
all_granted = granted ∷ granted ∷ granted ∷ granted ∷ []

parents_first_example :
    IsBuilt tiny root_dir tiny
      (codes "/copy")
      (run_of (run_set tiny tiny tiny_set all_granted none)).ops
parents_first_example = parents_first 2 tiny tiny tiny_set tiny_walk all_granted none plan-tiny refl

-- The second directory cannot be made.
set_in_turn_example :
    (through : List Item) × (left : List Item) × (tiny_set.items ≡ through ++ left)
    × (targets (run_of (run_set tiny tiny tiny_set (granted ∷ refused ∷ []) none)).ops
        ≡ map (to tiny tiny_set) through)
    × ((is_finished (run_set tiny tiny tiny_set (granted ∷ refused ∷ []) none) ≡ true)
        → (left ≡ [])
          × ((run_of (run_set tiny tiny tiny_set (granted ∷ refused ∷ []) none)).files
              ≡ files_of tiny_set.items))
    × ((run_of (run_set tiny tiny tiny_set (granted ∷ refused ∷ []) none)).skipped
        ≡ tiny_set.skipped)
set_in_turn_example = set_in_turn tiny tiny tiny_set (granted ∷ refused ∷ []) none
