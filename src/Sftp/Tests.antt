-- ===== src/Sftp/Tests.antt =====
-- Witnesses for the properties of internal/sftp, and a copy on a small input.
use tui_ssh_client.Prelude.{
  ◌≡◌, ◌≢◌, refl, true, false, List, [], ◌∷◌, Option, none, some, arith, All,
}
use tui_ssh_client.Prelude.Text.{codes}
use tui_ssh_client.Sftp.Transfer.{more, eof, Round, Copy, waiting, copy_ctx}
use tui_ssh_client.Sftp.Transfer.Counting.{content, IsHonest, Moved, copy_ctx-Moved}
use tui_ssh_client.Sftp.Transfer.Whole.{copy_ctx-returns}
use tui_ssh_client.Sftp.Transfer.Files.{Answers, Written, upload, download}
use tui_ssh_client.Sftp.Transfer.Left.{Clean, transfer_leaves}

-- Two chunks, and then the end.
abbrev pub two_chunks : List Round
two_chunks =
    record { stop = none; chunk = codes "ab"; end = more; took = 2; write_err = none }
    ∷ record { stop = none; chunk = codes "c"; end = eof; took = 1; write_err = none }
    ∷ []

two_chunks-IsHonest : All IsHonest two_chunks
two_chunks-IsHonest = (omega arith, (omega arith, tt))

abbrev nothing_yet : Copy
nothing_yet = record {
  total = 0;
  written = [];
  progress = some (record { done = 5; total = 8; name = codes "x" });
}

copy_ctx-Moved_example : Moved nothing_yet (copy_ctx two_chunks nothing_yet).0 (content two_chunks)
copy_ctx-Moved_example = copy_ctx-Moved two_chunks nothing_yet two_chunks-IsHonest

copy_ctx-returns_example : (copy_ctx two_chunks nothing_yet).1 ≢ waiting
copy_ctx-returns_example = copy_ctx-returns two_chunks nothing_yet refl

copies_all : (copy_ctx two_chunks nothing_yet).0.written ≡ codes "abc"
unfolding copy_ctx
copies_all = refl

abbrev pub good_answers : Answers
good_answers = record {
  stat = true;
  regular = true;
  directory = false;
  name = codes "notes";
  perm = 420;
  opened = true;
  created = true;
  rounds = two_chunks;
  close_err = none;
  remove = true;
  chmod = true;
}

abbrev old_file : Option Written
old_file = some (record { bytes = codes "old"; mode = some 384 })

-- The connection is lost after the first chunk, and with it Remove.
abbrev lost_answers : Answers
lost_answers = record good_answers {
  rounds =
      record { stop = none; chunk = codes "ab"; end = more; took = 2; write_err = none }
      ∷ record { stop = none; chunk = codes "c"; end = eof; took = 0; write_err = some [] }
      ∷ [];
  remove = false;
}

transfer_leaves_example :
    Clean lost_answers old_file (upload lost_answers old_file none)
    × Clean lost_answers old_file (download lost_answers old_file none)
transfer_leaves_example =
    transfer_leaves lost_answers old_file none (omega arith, (omega arith, tt))
