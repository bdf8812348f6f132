-- ===== src/Sftp/Transfer/Files.antt =====
-- internal/sftp/transfer.go: Upload and Download.
use tui_ssh_client.Prelude.{ℕ, Bool, true, false, not, List, [], Option, none, some, if◌then◌else◌}
use tui_ssh_client.Prelude.Text.{Text}
use tui_ssh_client.Sftp.Transfer.{
  Failure, close_failed, Round, Progress, set_name, Copy, Outcome, over, waiting, copy_ctx,
}

-- What a transfer finds at the destination path: nothing, or a file with its bytes and its mode.
pub record Written : Type 0 where
  pub bytes : Text
  pub mode : Option ℕ

-- The answers of both sides, from os.Stat to the last Chmod: whether each call succeeds, the name
-- and permission bits that Stat reports, and the rounds of the copy.
pub record Answers : Type 0 where
  pub stat : Bool
  pub regular : Bool
  pub directory : Bool
  pub name : Text
  pub perm : ℕ
  pub opened : Bool
  pub created : Bool
  pub rounds : List Round
  pub close_err : Option Text
  pub remove : Bool
  pub chmod : Bool

pub data TransferError : Type 0 where
  not_found not_a_file not_opened not_created : TransferError
  failed : Failure → TransferError

-- Upload and Download: the bytes that are counted, the error, and what stands at the destination.
-- `running` while the copy waits for another round.
pub record Transferred : Type 0 where
  pub count : ℕ
  pub error : Option TransferError
  pub left : Option Written
  pub progress : Option Progress

pub data Transfer : Type 0 where
  returned : Transferred → Transfer
  running : Transfer

abbrev pub refuse : TransferError → Option Written → Option Progress → Transfer
refuse e old p = returned (record { count = 0; error = some e; left = old; progress = p })

-- firstErr(copyErr, closeErr)
abbrev pub first_err : Option Failure → Option Text → Option Failure
first_err (some f) o = some f
first_err none none = none
first_err none (some t) = some (close_failed t)

abbrev pub chmod_to : Bool → ℕ → Option ℕ → Option ℕ
chmod_to true perm old = some perm
chmod_to false perm old = old

-- From Close on: the partial file is removed, or the mode is set, both as far as the server lets us.
unfoldable pub finish : Answers → Option ℕ → Copy → Option Failure → Transfer
finish a mode c none = returned (record {
  count = c.total;
  error = none;
  left = some (record { bytes = c.written; mode = chmod_to a.chmod a.perm mode });
  progress = c.progress;
})
finish a mode c (some f) = returned (record {
  count = c.total;
  error = some (failed f);
  left = if a.remove then none else some (record { bytes = c.written; mode = mode });
  progress = c.progress;
})

unfoldable pub close : Answers → Option ℕ → Copy × Outcome → Transfer
unfolding finish
close a mode (c, waiting) = running
close a mode (c, over e) = finish a mode c (first_err e a.close_err)

-- The copy into a file that was just created, with the mode that creating it gave.
unfoldable pub copy_into : Answers → Option ℕ → Option Progress → Transfer
unfolding close
copy_into a mode p =
    close a mode
      (copy_ctx a.rounds (record { total = 0; written = []; progress = set_name a.name p }))

-- Upload. Creating the remote file leaves its mode to the server.
unfoldable pub upload : Answers → Option Written → Option Progress → Transfer
unfolding copy_into
upload a old p =
    if not a.stat
    then refuse not_found old p
    else if not a.regular
    then refuse not_a_file old p
    else if not a.opened
    then refuse not_opened old p
    else if not a.created
    then refuse not_created old p
    else copy_into a none p

-- Download. The local file is opened with the remote's permission bits.
unfoldable pub download : Answers → Option Written → Option Progress → Transfer
unfolding copy_into
download a old p =
    if not a.stat
    then refuse not_found old p
    else if a.directory
    then refuse not_a_file old p
    else if not a.opened
    then refuse not_opened old p
    else if not a.created
    then refuse not_created old p
    else copy_into a (some a.perm) p
