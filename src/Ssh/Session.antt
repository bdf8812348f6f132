-- ===== src/Ssh/Session.antt =====
-- internal/ssh/session.go: a live shell, as the goroutines that share it. Each step is one critical
-- section or one blocking call; a step that is not enabled gives `none`.
pub mod Ending
pub mod Stream
pub mod Leak
use tui_ssh_client.Prelude.{
  ℕ, zero, suc, Bool, true, false, not, ◌&&◌, ◌||◌, List, [], ◌∷◌, ◌++◌, Option, none, some, ltb,
  ◌==◌, length, if◌then◌else◌,
}
use tui_ssh_client.Prelude.Text.{Text, codes}
use tui_ssh_client.Ssh.Errors.{Err, sentinel, plain, join, connection_lost}

-- pump, between two of its blocking calls: reading; with a chunk that send has not looked at yet;
-- blocked on the channel with it; or returned. The flag says that Read gave an error with the chunk.
pub data Pump : Type 0 where
  reading returned : Pump
  holding sending : Text → Bool → Pump

-- keepalive: waiting for the ticker, waiting for the answer, or returned.
pub data Keepalive : Type 0 where
  idle asked ended : Keepalive

-- The goroutine that Connect starts last: in sess.Wait; in pumps.Wait, with the answer of sess.Wait;
-- before finish; and after it.
pub data Waiter : Type 0 where
  waiting finishing finished : Waiter
  draining : Option Err → Waiter

-- `out` is the buffer of the channel, the oldest chunk first; `delivered` is what was received from
-- it, and `dropped` tells whether the client was closed.
pub record Session : Type 0 where
  pub exit_err : Option Err
  pub closed : Bool
  pub sent_cols : ℕ
  pub sent_rows : ℕ
  pub out : List Text
  pub out_closed : Bool
  pub delivered : List Text
  pub dropped : Bool
  pub stdout : Pump
  pub stderr : Pump
  pub alive : Keepalive
  pub waiter : Waiter

abbrev pub capacity : ℕ
capacity = 64

-- What may happen next. The Boolean says which pump: stdout for `true`.
pub data Event : Type 0 where
  read : Bool → Text → Bool → Event
  read_nothing look send : Bool → Event
  receive close ticked answered no_reply drained finish : Event
  refused : Err → Event
  exited : Option Err → Event
  resize : ℕ → ℕ → Event

abbrev pub pump_of : Bool → Session → Pump
pump_of true s = s.stdout
pump_of false s = s.stderr

abbrev pub set_pump : Bool → Pump → Session → Session
set_pump true p s = record s { stdout = p }
set_pump false p s = record s { stderr = p }

-- The loop after a chunk is sent: round again, or out, if Read gave an error with it.
abbrev pub after : Bool → Pump
after true = returned
after false = reading

on_read : Bool → Text → Bool → Pump → Session → Option Session
on_read which chunk last reading s = some (set_pump which (holding chunk last) s)
on_read which chunk last _ s = none

on_read_nothing : Bool → Pump → Session → Option Session
on_read_nothing which reading s = some (set_pump which returned s)
on_read_nothing which _ s = none

-- The test of `closed` in send.
on_look : Bool → Pump → Session → Option Session
on_look which (holding chunk last) s =
    some (set_pump which (if s.closed then returned else sending chunk last) s)
on_look which _ s = none

-- `s.out <- chunk`: it panics on a closed channel, where send recovers and reports false, and blocks
-- on a full one.
push : Bool → Text → Bool → Session → Option Session
push which chunk last s =
    if s.out_closed
    then some (set_pump which returned s)
    else if ltb (length s.out) capacity
    then some (set_pump which (after last) (record s { out = s.out ++ chunk ∷ [] }))
    else none

on_send : Bool → Pump → Session → Option Session
unfolding push
on_send which (sending chunk last) s = push which chunk last s
on_send which _ s = none

on_receive : List Text → Session → Option Session
on_receive [] s = none
on_receive (chunk ∷ chunks) s =
    some (record s { out = chunks; delivered = s.delivered ++ chunk ∷ [] })

-- Close: once.
unfoldable pub close_session : Session → Session
close_session s = if s.closed then s else record s { closed = true; dropped = true }

abbrev pub first : Option Err → Option Err → Option Err
first none e = e
first (some x) e = some x

-- fail
unfoldable pub fail : Err → Session → Session
fail e s = if s.closed then s else record s { exit_err = first s.exit_err (some e); dropped = true }

-- "%w: …" of ErrConnectionLost
abbrev pub no_answer : Err
no_answer = join (sentinel connection_lost) (plain (codes "no keepalive reply"))

on_tick : Keepalive → Session → Option Session
on_tick idle s = some (record s { alive = if s.closed then ended else asked })
on_tick _ s = none

on_answer : Keepalive → Session → Option Session
on_answer asked s = some (record s { alive = idle })
on_answer _ s = none

on_failure : Err → Keepalive → Session → Option Session
on_failure e asked s = some (record (fail e s) { alive = ended })
on_failure e _ s = none

on_exit : Option Err → Waiter → Session → Option Session
on_exit e waiting s = some (record s { waiter = draining e })
on_exit e _ s = none

abbrev pub is_returned : Pump → Bool
is_returned returned = true
is_returned _ = false

-- After pumps.Wait: the exit error is filled in only where none is recorded and nobody closed.
on_drained : Waiter → Session → Option Session
on_drained (draining e) s =
    if is_returned s.stdout && is_returned s.stderr
    then some (record s {
      exit_err = if s.closed then s.exit_err else first s.exit_err e;
      waiter = finishing;
    })
    else none
on_drained _ s = none

-- finish: what Close has not closed yet, and then the channel.
on_finish : Waiter → Session → Option Session
on_finish finishing s =
    some (record s { closed = true; dropped = true; out_closed = true; waiter = finished })
on_finish _ s = none

-- Resize: a size that is not positive, or the one that was sent last, is dropped.
unfoldable pub resize_to : ℕ → ℕ → Session → Session
resize_to cols rows s =
    if ltb cols 1 || ltb rows 1 || s.closed || (s.sent_cols == cols && s.sent_rows == rows)
    then s
    else record s { sent_cols = cols; sent_rows = rows }

unfoldable pub step : Event → Session → Option Session
unfolding on_read on_read_nothing on_look on_send on_receive on_tick on_answer on_failure on_exit
    on_drained on_finish
step (read which chunk last) s = on_read which chunk last (pump_of which s) s
step (read_nothing which) s = on_read_nothing which (pump_of which s) s
step (look which) s = on_look which (pump_of which s) s
step (send which) s = on_send which (pump_of which s) s
step receive s = on_receive s.out s
step close s = some (close_session s)
step ticked s = on_tick s.alive s
step answered s = on_answer s.alive s
step (refused e) s = on_failure (join (sentinel connection_lost) e) s.alive s
step no_reply s = on_failure no_answer s.alive s
step (exited e) s = on_exit e s.waiter s
step drained s = on_drained s.waiter s
step finish s = on_finish s.waiter s
step (resize cols rows) s = some (resize_to cols rows s)

unfoldable pub and_then : Option Session → (Session → Option Session) → Option Session
and_then none f = none
and_then (some s) f = f s

-- Steps in a row; `none` where one of them is not enabled.
unfoldable pub run : List Event → Session → Option Session
run [] s = some s
run (e ∷ es) s = and_then (step e s) (run es)
