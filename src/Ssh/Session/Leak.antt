-- ===== src/Ssh/Session/Leak.antt =====
-- What becomes of a pump when a session is closed and its output is read no more.
use tui_ssh_client.Prelude.{
  ◌≡◌, inl, inr, Bool, true, false, ◌||◌, List, [], ◌∷◌, some, arith, length, Option-cases,
}
use tui_ssh_client.Prelude.Text.{Text}
use tui_ssh_client.Ssh.Session.{
  sending, Session, Event, receive, pump_of, on_read, on_read_nothing, on_look, push, on_send,
  on_receive, close_session, fail, on_tick, on_answer, on_failure, on_exit, on_drained, on_finish,
  resize_to, step, run, and_then, capacity,
}
use tui_ssh_client.Ssh.Session.Ending.{is_past, some-inj, none-some}

abbrev is_receive : Event → Bool
is_receive receive = true
is_receive _ = false

abbrev is_read : List Event → Bool
is_read [] = false
is_read (e ∷ es) = is_receive e || is_read es

-- A pump that is blocked on a full channel, while the last goroutine still waits.
abbrev Blocked : Bool → Text → Bool → Session → Type 0
Blocked which chunk last s =
    (pump_of which s ≡ sending chunk last)
    × (length s.out ≡ capacity)
    × (s.out_closed ≡ false)
    × (is_past s.waiter ≡ false)

step-Blocked :
    (which : Bool) (chunk : Text) (last : Bool) (e : Event) (s t : Session)
    → is_receive e ≡ false
    → step e s ≡ some t
    → Blocked which chunk last s
    → Blocked which chunk last t
unfolding step on_read on_read_nothing on_look push on_send on_receive close_session fail on_tick
    on_answer on_failure on_exit on_drained on_finish resize_to
step-Blocked true chunk last e s t n h b = ground arith
step-Blocked false chunk last e s t n h b = ground arith

-- A pump that is blocked on a full channel stays so while nobody receives, whatever else happens,
-- a Close included: it does not return, and the channel is never closed.
pub unread_pump_stays :
    (which : Bool) (chunk : Text) (last : Bool) (es : List Event) (s t : Session)
    → Blocked which chunk last s
    → is_read es ≡ false
    → run es s ≡ some t
    → (pump_of which t ≡ sending chunk last) × (t.out_closed ≡ false)
unfolding run and_then
unread_pump_stays which chunk last [] s t b n h = rw⁻¹ (some-inj s t h) (b.0, b.2)
unread_pump_stays which chunk last (e ∷ es) s t b n h = elim (Option-cases (step e s)) [
  | inl q ↦ absurd (none-some (rw (q, and_then) at h))
  | inr (u, q) ↦
      unread_pump_stays which chunk last es u t
        (step-Blocked which chunk last e s u (ground (arith, n)) q b) (ground (arith, n))
        (rw (q, and_then) at h)
]
