-- ===== src/Sftp/Transfer.antt =====
-- internal/sftp/transfer.go: one copy with its cancellation, its counter, and what is left behind.
pub mod Counting
pub mod Whole
pub mod Files
pub mod Left
use tui_ssh_client.Prelude.{
  ℕ, zero, suc, ◌+◌, Bool, true, false, not, List, [], ◌∷◌, ◌++◌, Option, none, some, ltb, ◌==◌,
  length, take, if◌then◌else◌,
}
use tui_ssh_client.Prelude.Text.{Text}

-- context.Canceled, context.DeadlineExceeded, and any other error of a context.
pub data Stop : Type 0 where
  canceled deadline_exceeded : Stop
  stopped : Text → Stop

pub data Failure : Type 0 where
  err_cancelled : Failure
  context_error : Text → Failure
  read_failed write_failed close_failed : Text → Failure
  short_write : Failure

-- cancelled
unfoldable pub cancelled : Stop → Failure
cancelled canceled = err_cancelled
cancelled deadline_exceeded = err_cancelled
cancelled (stopped t) = context_error t

-- How a Read ends: with no error, with io.EOF, or with another error.
pub data ReadEnd : Type 0 where
  more eof : ReadEnd
  broken : Text → ReadEnd

-- What the context, the reader and the writer answer in one round of the loop: the context's error,
-- the bytes read, how the Read ended, how many bytes the Write took, and its error.
pub record Round : Type 0 where
  pub stop : Option Stop
  pub chunk : Text
  pub end : ReadEnd
  pub took : ℕ
  pub write_err : Option Text

-- Progress; the pointer may be nil.
pub record Progress : Type 0 where
  pub done : ℕ
  pub total : ℕ
  pub name : Text

-- (p *Progress) add: nothing for a nil pointer, and nothing for 0.
unfoldable pub add : ℕ → Option Progress → Option Progress
add n none = none
add n (some p) = some (record p { done = p.done + n })

unfoldable pub set_total : ℕ → Option Progress → Option Progress
set_total n none = none
set_total n (some p) = some (record p { total = n })

unfoldable pub set_name : Text → Option Progress → Option Progress
set_name n none = none
set_name n (some p) = some (record p { name = n })

-- The state of the loop, with what the destination has received.
pub record Copy : Type 0 where
  pub total : ℕ
  pub written : Text
  pub progress : Option Progress

-- A copy that is over, with its error or none, or one that waits for another round.
pub data Outcome : Type 0 where
  over : Option Failure → Outcome
  waiting : Outcome

abbrev receive : Round → Copy → Copy
receive r c = record {
  total = c.total + r.took;
  written = c.written ++ take r.took r.chunk;
  progress = add r.took c.progress;
}

-- The `if n > 0` part: what it returns, if it returns.
write_error : Round → Option Failure
write_error r = elim r.write_err [
  | some e ↦ some (write_failed e)
  | none ↦ if r.took == length r.chunk then none else some short_write
]

-- The destination and the counter after the Write of a round, if there is one.
feed_of : Text → Round → Copy → Copy
feed_of [] r c = c
feed_of (b ∷ bs) r c = receive r c

unfoldable pub feed : Round → Copy → Copy
unfolding feed_of
feed r c = feed_of r.chunk r c

write_result_of : Text → Round → Option Failure
unfolding write_error
write_result_of [] r = none
write_result_of (b ∷ bs) r = write_error r

unfoldable pub write_result : Round → Option Failure
unfolding write_result_of
write_result r = write_result_of r.chunk r

-- The last two tests of the loop: `none` to go round again.
after_read : ReadEnd → Option Outcome
after_read more = none
after_read eof = some (over none)
after_read (broken t) = some (over (some (read_failed t)))

after_write : Option Failure → ReadEnd → Option Outcome
unfolding after_read
after_write none e = after_read e
after_write (some f) e = some (over (some f))

go_on : Option Outcome → Copy → Copy × Outcome → Copy × Outcome
go_on none c rest = rest
go_on (some o) c rest = (c, o)

copy_round : Option Stop → Round → Copy → Copy × Outcome → Copy × Outcome
unfolding after_write go_on write_result
copy_round (some s) r c rest = (c, over (some (cancelled s)))
copy_round none r c rest = go_on (after_write (write_result r) r.end) (feed r c) rest

-- copyCtx, for the rounds that its context, reader and writer answer.
unfoldable pub copy_ctx : List Round → Copy → Copy × Outcome
unfolding copy_round feed
copy_ctx [] c = (c, waiting)
copy_ctx (r ∷ rs) c = copy_round r.stop r c (copy_ctx rs (feed r c))
