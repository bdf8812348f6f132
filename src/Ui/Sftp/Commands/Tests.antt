-- ===== src/Ui/Sftp/Commands/Tests.antt =====
-- Witness for the property of the transfer commands, on the tree of Sftp/Tree/Tests.
use tui_ssh_client.Prelude.{◌+◌, ◌≡◌, refl, true, List, [], ◌∷◌, none}
use tui_ssh_client.Prelude.Text.{codes, split, text_eq}
use tui_ssh_client.Sftp.Tests.{good_answers}
use tui_ssh_client.Sftp.Tree.Tests.{root_dir, dir_of, tiny, tiny_walk}
use tui_ssh_client.Sftp.Tree.{plan, walk, listed, visit_all, join_rel, visit}
use tui_ssh_client.Sftp.RunSet.{Given, run_set, run_item}
use tui_ssh_client.Ui.Sftp.Pane.{this_machine, server}
use tui_ssh_client.Ui.Sftp.State.{Request, PlanArgs}
use tui_ssh_client.Ui.Sftp.Commands.{
  scanned, plan_transfer, Total, done_all, run_transfer, with_set, count_files, count_dirs,
}
use tui_ssh_client.Ui.Sftp.Commands.Confirmed.{all_sizes, all_items, transfer_as_confirmed}
use tui_ssh_client.Prelude.Words.{has}
use tui_ssh_client.Sftp.Transfer.Files.{upload}
use tui_ssh_client.Sftp.Transfer.{copy_ctx}

abbrev granted : Given
granted = record { stop = none; made = true; answers = good_answers; old = none }

abbrev tiny_args : PlanArgs
tiny_args = record {
  src = this_machine;
  dst = server 1;
  upload = true;
  src_dir = [];
  dst_dir = codes "/in";
  entries = dir_of (codes "r") ∷ [];
  existing = codes "r" ∷ [];
  gen = 0;
}

abbrev tiny_request : Request
tiny_request = record {
  upload = true;
  entries = dir_of (codes "r") ∷ [];
  src_dir = [];
  dst_dir = codes "/in";
  overwrite = codes "r" ∷ [];
  sets =
      record {
        upload = true;
        src_root = root_dir;
        dst_root = codes "/in/r";
        items = tiny_walk.items;
        skipped = 1;
      }
      ∷ [];
  total = 7;
  files = 2;
  dirs = 2;
  skipped = 1;
}

abbrev tiny_answers : List (List Given)
tiny_answers = (granted ∷ granted ∷ granted ∷ granted ∷ []) ∷ []

abbrev tiny_total : Total
tiny_total = record { files = 2; bytes = 6; skipped = 1 }

plan_transfer-tiny : plan_transfer 2 tiny_args tiny tiny ≡ scanned tiny_request
unfolding plan_transfer plan walk listed visit_all join_rel visit split with_set has count_files
    count_dirs text_eq
plan_transfer-tiny = refl

run_transfer-tiny : run_transfer tiny tiny tiny_request tiny_answers none ≡ done_all tiny_total
unfolding run_transfer run_set run_item upload copy_ctx
run_transfer-tiny = refl

transfer_as_confirmed_example :
    (tiny_request.total ≡ all_sizes tiny_request.sets)
    × (tiny_request.files + tiny_request.dirs ≡ all_items tiny_request.sets)
    × (tiny_total.files ≡ tiny_request.files)
    × (tiny_total.skipped ≡ tiny_request.skipped)
transfer_as_confirmed_example =
    transfer_as_confirmed 2 tiny_args tiny tiny tiny_request tiny_answers none tiny_total
      plan_transfer-tiny run_transfer-tiny
