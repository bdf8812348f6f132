-- ===== src/Ssh/Session/Ending.antt =====
-- How a session ends: the reason that it gives, and the channel that is closed last.
use tui_ssh_client.Prelude.{
  ◌≡◌, ◌≢◌, refl, subst, ◌∙◌, ap, ◌⊎◌, inl, inr, Bool, true, false, ◌&&◌, List, [], ◌∷◌, Option,
  none, some, arith, Option-cases,
}
use tui_ssh_client.Ssh.Errors.{Err, is, sentinel, join, connection_lost}
use tui_ssh_client.Ssh.Session.{
  returned, Waiter, waiting, finishing, finished, Session, Event, no_reply, refused, on_read,
  on_read_nothing, on_look, push, on_send, on_receive, close_session, fail, no_answer, on_tick,
  on_answer, on_failure, on_exit, is_returned, on_drained, on_finish, resize_to, step, run,
  and_then,
}

abbrev pub is_past : Waiter → Bool
is_past finishing = true
is_past finished = true
is_past _ = false

abbrev is_finished : Waiter → Bool
is_finished finished = true
is_finished _ = false

-- The channel is closed by the last goroutine alone, and that one waits for both pumps.
pub record IsOrderly (s : Session) : Type 0 where
  pub both_first : is_past s.waiter ≡ true → (is_returned s.stdout && is_returned s.stderr) ≡ true
  pub closed_last : s.out_closed ≡ is_finished s.waiter

-- After a Close by the user, and after the end, the reason never changes.
step-closed :
    (e : Event) (s t : Session)
    → step e s ≡ some t
    → s.closed ≡ true
    → (t.closed ≡ true) × (t.exit_err ≡ s.exit_err)
unfolding step on_read on_read_nothing on_look push on_send on_receive close_session fail on_tick
    on_answer on_failure on_exit on_drained on_finish resize_to
step-closed e s t h c = ground arith

-- A reason that is recorded stays.
step-reason :
    (e : Event) (s t : Session) (x : Err)
    → step e s ≡ some t
    → s.exit_err ≡ some x
    → t.exit_err ≡ some x
unfolding step on_read on_read_nothing on_look push on_send on_receive close_session fail on_tick
    on_answer on_failure on_exit on_drained on_finish resize_to
step-reason e s t x h c = ground arith

step-IsOrderly : (e : Event) (s t : Session) → step e s ≡ some t → IsOrderly s → IsOrderly t
unfolding step on_read on_read_nothing on_look push on_send on_receive close_session fail on_tick
    on_answer on_failure on_exit on_drained on_finish resize_to
step-IsOrderly e s t h o = record {
  both_first = ground (arith, o.both_first, o.closed_last);
  closed_last = ground (arith, o.closed_last);
}

pub none-some : {t : Session} → none ≢ some t
none-some h = cc

pub some-inj : (s t : Session) → some s ≡ some t → s ≡ t
some-inj s t h = ap (λ o. elim o [ none ↦ s | some u ↦ u ]) h

pub run-keeps :
    (P : Session → Type 0)
    → ((e : Event) (s t : Session) → step e s ≡ some t → P s → P t)
    → (es : List Event) (s t : Session) → run es s ≡ some t
    → P s
    → P t
unfolding run and_then
run-keeps P keeps [] s t h p = subst P (some-inj s t h) p
run-keeps P keeps (e ∷ es) s t h p = elim (Option-cases (step e s)) [
  | inl q ↦ absurd (none-some (rw (q, and_then) at h))
  | inr (u, q) ↦ run-keeps P keeps es u t (rw (q, and_then) at h) (keeps e s u q p)
]

-- A session as Connect returns it.
pub record IsNew (s : Session) : Type 0 where
  pub running : s.waiter ≡ waiting
  pub open_out : s.out_closed ≡ false

-- However the goroutines take turns, from a new session on: the channel is closed only once both
-- pumps have returned, so no pump ever sends on a closed channel.
pub channel_closed_last :
    (es : List Event) (s t : Session)
    → IsNew s
    → run es s ≡ some t
    → (t.out_closed ≡ false) ⊎ ((t.stdout ≡ returned) × (t.stderr ≡ returned))
channel_closed_last es s t n h =
    let o : IsOrderly t = run-keeps IsOrderly step-IsOrderly es s t h (record {
      both_first = ground (arith, n.running);
      closed_last = ground (arith, n.running, n.open_out);
    }) in
    ground (arith, o.both_first, o.closed_last)

-- After Close has been called, whatever happens next, the session counts as closed and the reason
-- that ExitErr gives is the one that was recorded before, or none if none was.
pub close_keeps_reason :
    (es : List Event) (s t : Session)
    → run es (close_session s) ≡ some t
    → (t.closed ≡ true) × (t.exit_err ≡ s.exit_err)
unfolding close_session
close_keeps_reason es s t h =
    run-keeps (λ u. (u.closed ≡ true) × (u.exit_err ≡ s.exit_err))
      (λ e u v q p. let r = step-closed e u v q p.0 in (r.0, r.1 ∙ p.1)) es (close_session s) t h
      (ground arith)

-- The keepalive's two ways to fail: no reply in time, and an error.
abbrev pub failure : Option Err → Event
failure none = no_reply
failure (some x) = refused x

abbrev reason : Option Err → Err
reason none = no_answer
reason (some x) = join (sentinel connection_lost) x

step-failure :
    (x : Option Err) (s u : Session)
    → s.closed ≡ false
    → s.exit_err ≡ none
    → step (failure x) s ≡ some u
    → u.exit_err ≡ some (reason x)
unfolding step on_failure fail
step-failure none s u c n h = ground arith
step-failure (some x) s u c n h = ground arith

reason-lost : (x : Option Err) → is connection_lost (reason x) ≡ true
unfolding is
reason-lost none = refl
reason-lost (some x) = refl

-- Where the keepalive got no reply in time, or an error, on a session that nobody closed and that had
-- no reason to end yet, ExitErr gives ErrConnectionLost ever after, whatever sess.Wait reports.
pub keepalive_reason_stays :
    (x : Option Err) (es : List Event) (s u t : Session)
    → s.closed ≡ false
    → s.exit_err ≡ none
    → step (failure x) s ≡ some u
    → run es u ≡ some t
    → (y : Err) × (t.exit_err ≡ some y) × (is connection_lost y ≡ true)
keepalive_reason_stays x es s u t c n h r = (
  reason x,
  run-keeps (λ v. v.exit_err ≡ some (reason x)) (λ e v w q p. step-reason e v w (reason x) q p) es u
      t r (step-failure x s u c n h),
  reason-lost x,
)
