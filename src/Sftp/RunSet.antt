-- ===== src/Sftp/RunSet.antt =====
-- internal/sftp/tree.go: Set and RunSet, one confirmed copy of everything under a root.
pub mod Parents
pub mod Whole
pub mod Tests
use tui_ssh_client.Prelude.{
  ℕ, ◌+◌, Bool, true, false, not, List, [], ◌∷◌, ◌++◌, Option, none, some, if◌then◌else◌,
}
use tui_ssh_client.Prelude.Text.{Text}
use tui_ssh_client.Sftp.Transfer.{Stop, Failure, Progress, cancelled}
use tui_ssh_client.Sftp.Transfer.Files.{
  Answers, Written, Transfer, Transferred, TransferError, returned, running, upload, download,
}
use tui_ssh_client.Sftp.Tree.{Item, Browser, join_rel}

pub record Set : Type 0 where
  pub upload : Bool
  pub src_root : Text
  pub dst_root : Text
  pub items : List Item
  pub skipped : ℕ

-- What both sides answer for one item: the context's error, whether MkdirAll succeeds, the answers
-- of Upload or Download, and what stands at the destination.
pub record Given : Type 0 where
  pub stop : Option Stop
  pub made : Bool
  pub answers : Answers
  pub old : Option Written

pub data SetError : Type 0 where
  stopped_by : Failure → SetError
  not_made : Text → SetError
  not_copied : TransferError → SetError

-- What was done at the destination, with the path.
pub data Op : Type 0 where
  made_dir : Text → Op
  copied : Text → Text → Option Written → Op

-- Result, the counter, and what was done.
pub record SetRun : Type 0 where
  pub files : ℕ
  pub bytes : ℕ
  pub skipped : ℕ
  pub progress : Option Progress
  pub ops : List Op

-- RunSet has returned, with or without an error, or the copy of an item waits for an answer.
pub data SetEnd : Type 0 where
  finished : SetRun → SetEnd
  broke : SetRun → SetError → SetEnd
  waits : SetRun → SetEnd

abbrev pub run_of : SetEnd → SetRun
run_of (finished s) = s
run_of (broke s e) = s
run_of (waits s) = s

unfoldable pub did : Op → SetRun → SetRun
did op s = record s { ops = s.ops ++ op ∷ [] }

abbrev pub to : Browser → Set → Item → Text
to dst set i = join_rel dst set.dst_root i.rel_path

-- After Upload or Download, and then the rest of the loop.
unfoldable pub counted : Transferred → SetRun → Option TransferError → (SetRun → SetEnd) → SetEnd
counted t s none rest = rest (record s { files = s.files + 1 })
counted t s (some e) rest = broke s (not_copied e)

unfoldable pub transferred : Text → Text → SetRun → Transfer → (SetRun → SetEnd) → SetEnd
unfolding did counted
transferred from path s running rest = waits s
transferred from path s (returned t) rest =
    counted t
      (did (copied from path t.left)
        (record s { bytes = s.bytes + t.count; progress = t.progress }))
      t.error rest

-- One round of the loop, and then the rest.
unfoldable pub run_item :
    Browser → Browser → Set → Item → Given → Option Stop → SetRun → (SetRun → SetEnd) → SetEnd
unfolding did transferred
run_item src dst set i g (some e) s rest = broke s (stopped_by (cancelled e))
run_item src dst set i g none s rest =
    if i.is_dir
    then if g.made
      then rest (did (made_dir (to dst set i)) s)
      else broke s (not_made (to dst set i))
    else transferred (join_rel src set.src_root i.rel_path) (to dst set i) s
        (if set.upload
          then upload g.answers g.old s.progress
          else download g.answers g.old s.progress)
        rest

unfoldable pub run_items : Browser → Browser → Set → List Item → List Given → SetRun → SetEnd
run_items src dst set [] gs s = finished s
run_items src dst set (i ∷ is) [] s = waits s
run_items src dst set (i ∷ is) (g ∷ gs) s =
    run_item src dst set i g g.stop s (run_items src dst set is gs)

-- RunSet; `src` and `dst` are this machine and the server, or the other way round.
unfoldable pub run_set : Browser → Browser → Set → List Given → Option Progress → SetEnd
unfolding run_items
run_set src dst set gs p =
    run_items src dst set set.items gs
      (record { files = 0; bytes = 0; skipped = set.skipped; progress = p; ops = [] })
