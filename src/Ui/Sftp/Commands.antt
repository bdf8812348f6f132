-- ===== src/Ui/Sftp/Commands.antt =====
-- internal/ui/app.go: the commands of the split view that walk, copy, delete and rename.
pub mod Confirmed
pub mod Tests
use tui_ssh_client.Prelude.{
  ℕ, zero, suc, ◌+◌, Bool, true, false, List, [], ◌∷◌, ◌++◌, Option, none, some, length,
  if◌then◌else◌,
}
use tui_ssh_client.Prelude.Text.{Text}
use tui_ssh_client.Prelude.Words.{has}
use tui_ssh_client.Sftp.Transfer.{Progress}
use tui_ssh_client.Sftp.Tree.{
  FileEntry, Item, Browser, Walk, Plan, planned, not_listed, not_stated, not_there, unfinished,
  plan,
}
use tui_ssh_client.Sftp.RunSet.{
  Set, Given, SetError, SetRun, SetEnd, finished, broke, waits, run_set,
}
use tui_ssh_client.Ui.Sftp.State.{Request, PlanArgs}

-- The kinds of item, as the loops of planTransfer and planDelete count them.
unfoldable pub count_dirs : List Item → ℕ
count_dirs [] = 0
count_dirs (i ∷ is) = (if i.is_dir then 1 else 0) + count_dirs is

unfoldable pub count_files : List Item → ℕ
count_files [] = 0
count_files (i ∷ is) = (if i.is_dir then 0 else 1) + count_files is

-- A request, the error of a walk, or a walk that needs more rounds.
pub data Scan : Type 0 where
  scanned : Request → Scan
  scan_failed scanning : Scan

-- What one picked root adds to the request.
unfoldable pub with_set : PlanArgs → Browser → Text → FileEntry → Walk → Request → Request
with_set args dst root e w req = record req {
  sets =
      req.sets
      ++ record {
        upload = args.upload;
        src_root = root;
        dst_root = dst.join args.dst_dir e.name;
        items = w.items;
        skipped = w.skipped;
      }
        ∷ [];
  total = req.total + w.total;
  skipped = req.skipped + w.skipped;
  dirs = req.dirs + count_dirs w.items;
  files = req.files + count_files w.items;
  overwrite = if has e.name args.existing then req.overwrite ++ e.name ∷ [] else req.overwrite;
}

unfoldable pub walked : Plan → (Walk → Scan) → Scan
walked (planned w) rest = rest w
walked unfinished rest = scanning
walked _ rest = scan_failed

-- The loop over the picked roots, each walked for at most n rounds.
unfoldable pub plan_entries : ℕ → PlanArgs → Browser → Browser → List FileEntry → Request → Scan
unfolding walked
plan_entries n args src dst [] req = scanned req
plan_entries n args src dst (e ∷ es) req =
    let root = src.join args.src_dir e.name in
    walked (plan n src root) (λ w. plan_entries n args src dst es (with_set args dst root e w req))

-- planTransfer
unfoldable pub plan_transfer : ℕ → PlanArgs → Browser → Browser → Scan
unfolding plan_entries
plan_transfer n args src dst = plan_entries n args src dst args.entries (record {
  upload = args.upload;
  entries = args.entries;
  src_dir = args.src_dir;
  dst_dir = args.dst_dir;
  overwrite = [];
  sets = [];
  total = 0;
  files = 0;
  dirs = 0;
  skipped = 0;
})

-- The Result that runTransfer adds up.
pub record Total : Type 0 where
  pub files : ℕ
  pub bytes : ℕ
  pub skipped : ℕ

pub data TransferEnd : Type 0 where
  done_all : Total → TransferEnd
  done_until : Total → SetError → TransferEnd
  copying : TransferEnd

abbrev pub plus : Total → SetRun → Total
plus t s = record {
  files = t.files + s.files;
  bytes = t.bytes + s.bytes;
  skipped = t.skipped + s.skipped;
}

unfoldable pub after_set : Total → SetEnd → (Total → Option Progress → TransferEnd) → TransferEnd
after_set t (finished s) rest = rest (plus t s) s.progress
after_set t (broke s e) rest = done_until (plus t s) e
after_set t (waits s) rest = copying

-- The loop of runTransfer, with the answers for the items of each set.
unfoldable pub run_sets :
    Browser → Browser → List Set → List (List Given) → Total → Option Progress → TransferEnd
unfolding after_set
run_sets src dst [] gss t p = done_all t
run_sets src dst (set ∷ sets) [] t p = copying
run_sets src dst (set ∷ sets) (gs ∷ gss) t p =
    after_set t (run_set src dst set gs p) (run_sets src dst sets gss)

-- runTransfer
unfoldable pub run_transfer :
    Browser → Browser → Request → List (List Given) → Option Progress → TransferEnd
unfolding run_sets
run_transfer src dst req gss p =
    run_sets src dst req.sets gss (record { files = 0; bytes = 0; skipped = 0 }) p

-- The counts of deletePlannedMsg.
pub data DeleteScan : Type 0 where
  counted : ℕ → ℕ → DeleteScan
  count_failed counting : DeleteScan

walked_for : Plan → (Walk → DeleteScan) → DeleteScan
walked_for (planned w) rest = rest w
walked_for unfinished rest = counting
walked_for _ rest = count_failed

-- planDelete
unfoldable pub plan_delete : ℕ → Browser → Text → List FileEntry → ℕ → ℕ → DeleteScan
unfolding walked_for
plan_delete n br dir [] files dirs = counted files dirs
plan_delete n br dir (e ∷ es) files dirs =
    walked_for (plan n br (br.join dir e.name))
      (λ w. plan_delete n br dir es (files + count_files w.items) (dirs + count_dirs w.items))

-- fileOpDoneMsg of runDelete: how many went, and whether all did. `answers` has those of Remove, and
-- `asked` gathers its calls.
pub record Deletion : Type 0 where
  pub gone : ℕ
  pub failed : Bool
  pub asked : List (Text × Bool)

unfoldable pub run_delete : Browser → Text → List FileEntry → List Bool → Deletion → Option Deletion
run_delete br dir [] answers d = some d
run_delete br dir (e ∷ es) [] d = none
run_delete br dir (e ∷ es) (ok ∷ answers) d =
    let tried = record d { asked = d.asked ++ (br.join dir e.name, e.is_dir) ∷ [] } in
    let rest = run_delete br dir es answers (record tried { gone = d.gone + 1 }) in
    if ok then rest else some (record tried { failed = true })
