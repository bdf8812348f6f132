-- ===== src/Ssh/Tests.antt =====
-- Witnesses for the properties of internal/ssh.
use tui_ssh_client.Prelude.{◌≡◌, refl, ◌⊎◌, true, false, List, [], ◌∷◌, ◌++◌, none, some}
use tui_ssh_client.Prelude.Text.{Text, codes}
use tui_ssh_client.Ssh.Errors.{
  Err, plain, op, key_error, timeout, is, is_timeout, as_revoked, as_key_error, is_any, sentinels,
  is_deadline, dial_error,
}
use tui_ssh_client.Ssh.Errors.Classify.{dial_error_timeout}
use tui_ssh_client.Ssh.HostKey.{Offer, Asked, host_key_callback}
use tui_ssh_client.Ssh.HostKey.Trust.{trust_decided, Recorded, IsNewHost, Approved, Refused}
use tui_ssh_client.Ssh.Session.{
  Session, reading, returned, sending, idle, asked, waiting, draining, Event, read, look, send,
  receive, close, ticked, exited, close_session, step, run, and_then, pump_of,
}
use tui_ssh_client.Ssh.Session.Ending.{IsNew, channel_closed_last, close_keeps_reason}
use tui_ssh_client.Ssh.Session.Stream.{stream_in_order, published_by}
use tui_ssh_client.Ssh.Session.Leak.{unread_pump_stays}

abbrev slow : Err
slow = plain (codes "i/o timeout")

slow-none : is_any sentinels slow ≡ false
unfolding is_any is
slow-none = refl

slow-plain : (as_revoked slow ≡ false) × (as_key_error slow ≡ none) × (is_deadline slow ≡ false)
unfolding as_revoked as_key_error is_deadline
slow-plain = (refl, refl, refl)

dial_error_timeout_example :
    (is_timeout (op true (codes "dial tcp") slow) ≡ true)
    × (is timeout (dial_error (codes "web:22") (op true (codes "dial tcp") slow)) ≡ false)
dial_error_timeout_example =
    dial_error_timeout (codes "web:22") (codes "dial tcp") slow slow-none slow-plain.0 slow-plain.1
      slow-plain.2

abbrev offer : Offer
offer = record {
  hostname = codes "web:22";
  key_type = codes "ssh-ed25519";
  fingerprint = codes "SHA256:x";
  line = codes "web ssh-ed25519 AAAA";
}

-- Somebody is there, and says yes and then no.
abbrev there : Asked
there = record {
  prompts = true;
  append = true;
  listening = true;
  replies = true ∷ false ∷ [];
  append_err = none;
}

trust_decided_example :
    let v = host_key_callback there offer none (some (key_error 0 (codes "unknown"))) in
    Recorded (some (key_error 0 (codes "unknown"))) v
    ⊎ ((IsNewHost (some (key_error 0 (codes "unknown")))
          × ((v.err ≡ none) × (v.appended ≡ offer.line ∷ []) × Approved there))
        ⊎ Refused v)
trust_decided_example = trust_decided there offer none (some (key_error 0 (codes "unknown")))

abbrev new_session : Session
new_session = record {
  exit_err = none;
  closed = false;
  sent_cols = 80;
  sent_rows = 24;
  out = [];
  out_closed = false;
  delivered = [];
  dropped = false;
  stdout = reading;
  stderr = reading;
  alive = idle;
  waiter = waiting;
}

new_session-IsNew : IsNew new_session
new_session-IsNew = record { running = refl; open_out = refl }

-- A chunk is read and published, the keepalive asks, and the user closes.
abbrev busy : List Event
busy = read true (codes "$ ") false ∷ look true ∷ send true ∷ ticked ∷ close ∷ receive ∷ []

abbrev busy_end : Session
busy_end = record new_session {
  closed = true;
  dropped = true;
  delivered = codes "$ " ∷ [];
  alive = asked;
}

busy-runs : run busy new_session ≡ some busy_end
unfolding run step and_then close_session
busy-runs = refl

channel_closed_last_example :
    (busy_end.out_closed ≡ false) ⊎ ((busy_end.stdout ≡ returned) × (busy_end.stderr ≡ returned))
channel_closed_last_example =
    channel_closed_last busy new_session busy_end new_session-IsNew busy-runs

stream_in_order_example :
    busy_end.delivered ++ busy_end.out
    ≡ (new_session.delivered ++ new_session.out) ++ published_by busy new_session
stream_in_order_example = stream_in_order busy new_session busy_end busy-runs

-- Stdout has sent one chunk and read another one.
abbrev talking : List Event
talking =
    read true (codes "$ ") false
    ∷ look true
    ∷ send true
    ∷ receive
    ∷ read true (codes "x") false
    ∷ look true
    ∷ []

abbrev talking_end : Session
talking_end = record new_session { delivered = codes "$ " ∷ []; stdout = sending (codes "x") false }

abbrev closed_session : Session
closed_session = record new_session { closed = true; dropped = true }

closed-runs :
    run (exited (some slow) ∷ []) (close_session new_session)
    ≡ some (record closed_session { waiter = draining (some slow) })
unfolding run step close_session and_then
closed-runs = refl

close_keeps_reason_example : (true ≡ true) × (none ≡ new_session.exit_err)
close_keeps_reason_example =
    close_keeps_reason (exited (some slow) ∷ []) new_session
      (record closed_session { waiter = draining (some slow) }) closed-runs

abbrev eight : List Text
eight = [] ∷ [] ∷ [] ∷ [] ∷ [] ∷ [] ∷ [] ∷ [] ∷ []

abbrev full : List Text
full = eight ++ (eight ++ (eight ++ (eight ++ (eight ++ (eight ++ (eight ++ eight))))))

abbrev full_session : Session
full_session = record new_session { out = full; stdout = sending (codes "x") false }

abbrev full_end : Session
full_end = record full_session { closed = true; dropped = true }

full-runs : run (close ∷ []) full_session ≡ some full_end
unfolding run step and_then close_session
full-runs = refl

unread_pump_stays_example :
    (pump_of true full_end ≡ sending (codes "x") false) × (full_end.out_closed ≡ false)
unread_pump_stays_example =
    unread_pump_stays true (codes "x") false (close ∷ []) full_session full_end
      (refl, refl, refl, refl) refl full-runs
