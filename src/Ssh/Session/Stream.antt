-- ===== src/Ssh/Session/Stream.antt =====
-- The bytes of a session: what send publishes, the reader gets in that order, unless nobody reads.
use tui_ssh_client.Prelude.{
  ◌≡◌, refl, sym, ◌∙◌, ap, inl, inr, Bool, true, false, append_assoc, append-nil, List, [], ◌∷◌,
  ◌++◌, Option, none, some, arith, Option-cases, if◌then◌else◌, not,
}
use tui_ssh_client.Prelude.Text.{Text}
use tui_ssh_client.Ssh.Session.{
  Pump, holding, sending, read, Session, Event, send, receive, pump_of, on_read, on_read_nothing,
  on_look, push, on_send, on_receive, close_session, fail, on_tick, on_answer, on_failure, on_exit,
  on_drained, on_finish, resize_to, step, run, and_then,
}
use tui_ssh_client.Ssh.Session.Ending.{some-inj, none-some}

-- The chunk that a pump has as it sends: it is lost only on a channel that is closed.
abbrev pub published : Event → Session → List Text
published (send which) s = elim (pump_of which s) [
  | sending chunk last ↦ if s.out_closed then [] else chunk ∷ []
  | _ ↦ []
]
published _ s = []

abbrev pub onward : Option Session → (Session → List Text) → List Text
onward none f = []
onward (some t) f = f t

abbrev pub published_by : List Event → Session → List Text
published_by [] s = []
published_by (e ∷ es) s = published e s ++ onward (step e s) (published_by es)

abbrev is_quiet : Event → Bool
is_quiet (send which) = false
is_quiet receive = false
is_quiet _ = true

step-quiet :
    (e : Event) (s t : Session)
    → is_quiet e ≡ true
    → step e s ≡ some t
    → (t.delivered ≡ s.delivered) × (t.out ≡ s.out) × (published e s ≡ [])
unfolding step on_read on_read_nothing on_look push on_send on_receive close_session fail on_tick
    on_answer on_failure on_exit on_drained on_finish resize_to
step-quiet e s t q h = ground arith

step-send :
    (which : Bool) (s t : Session)
    → step (send which) s ≡ some t
    → (t.delivered ≡ s.delivered) × (t.out ≡ s.out ++ published (send which) s)
unfolding step on_send push
step-send which s t h = ground (arith, append-nil s.out)

step-receive :
    (out : List Text) (s t : Session)
    → s.out ≡ out
    → on_receive out s ≡ some t
    → t.delivered ++ t.out ≡ s.delivered ++ s.out
unfolding on_receive
step-receive [] s t q h = absurd (cc)
step-receive (c ∷ cs) s t q h = rw⁻¹ (some-inj _ t h) (rw q (append_assoc s.delivered (c ∷ []) cs))

quiet-stream : (d o d' o' w : List Text) → d' ≡ d → o' ≡ o → w ≡ [] → d' ++ o' ≡ (d ++ o) ++ w
quiet-stream d o d' o' w e f g = rw (e, f, g) (sym (append-nil (d ++ o)))

step-stream :
    (e : Event) (s t : Session)
    → step e s ≡ some t
    → t.delivered ++ t.out ≡ (s.delivered ++ s.out) ++ published e s
unfolding step
step-stream (send which) s t h =
    let (d, o) = step-send which s t h in
    rw (d, o) (sym (append_assoc s.delivered s.out (published (send which) s)))
step-stream receive s t h = step-receive s.out s t refl h ∙ sym (append-nil _)
step-stream e s t h = let (d, o, w) = step-quiet e s t refl h in quiet-stream _ _ _ _ _ d o w

-- However the goroutines take turns: what the reader has received, with what waits in the channel
-- behind it, is what it was before, followed by the chunks that the two pumps published, each once
-- and in the order in which they were published.
pub stream_in_order :
    (es : List Event) (s t : Session)
    → run es s ≡ some t
    → t.delivered ++ t.out ≡ (s.delivered ++ s.out) ++ published_by es s
unfolding run and_then
stream_in_order [] s t h = rw⁻¹ (some-inj s t h) (sym (append-nil _))
stream_in_order (e ∷ es) s t h = elim (Option-cases (step e s)) [
  | inl q ↦ absurd (none-some (rw (q, and_then) at h))
  | inr (u, q) ↦ rw q (
      stream_in_order es u t (rw (q, and_then) at h)
      ∙ (ap (λ x. x ++ published_by es u) (step-stream e s u q)
          ∙ append_assoc (s.delivered ++ s.out) (published e s) (published_by es u)))
]

-- The chunk that a pump has read and not sent.
abbrev pub held : Pump → List Text
held (holding chunk last) = chunk ∷ []
held (sending chunk last) = chunk ∷ []
held _ = []

abbrev pub same_pump : Bool → Bool → Bool
same_pump true b = b
same_pump false b = not b

-- What the pump reads in a run, and what it has sent on in it.
abbrev pub read_by : Bool → List Event → List Text
read_by which [] = []
read_by which (read w chunk last ∷ es) =
    if same_pump which w then chunk ∷ read_by which es else read_by which es
read_by which (e ∷ es) = read_by which es

abbrev pub sent_now : Bool → Event → Session → List Text
sent_now which (send w) s = if same_pump which w then held (pump_of w s) else []
sent_now which _ s = []

abbrev pub sent_by : Bool → List Event → Session → List Text
sent_by which [] s = []
sent_by which (e ∷ es) s = sent_now which e s ++ onward (step e s) (sent_by which es)

read_now : Bool → Event → List Text
read_now which e = read_by which (e ∷ [])

-- One step of a session that is still open after it.
record Keeps (which : Bool) (e : Event) (s t : Session) : Type 0 where
  open_before : s.closed ≡ false
  channel : t.out_closed ≡ s.out_closed
  chunks : held (pump_of which s) ++ read_now which e ≡ sent_now which e s ++ held (pump_of which t)
