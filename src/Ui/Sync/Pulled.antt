-- ===== src/Ui/Sync/Pulled.antt =====
-- What a pull that fetches does to the register.
use tui_ssh_client.Prelude.{
  ◌+◌, ◌≡◌, refl, subst, inr, Bool, true, Option, none, some, if_cases, false, Bool-cases, inl, sym,
  if-true,
}
use tui_ssh_client.Prelude.Text.{Text, text_eq}
use tui_ssh_client.Prelude.Words.{has}
use tui_ssh_client.Prelude.Dict.{lookup}
use tui_ssh_client.Config.VaultFile.{Outside, Plain, no_plain, plain, decrypt}
use tui_ssh_client.Config.Bundle.Apply.{Json, Summary, no_summary, summary, bundle_servers}
use tui_ssh_client.Sync.Github.{
  Reply, Got, got, refused, Contents, get_file, contents, SyncError, status_error, request, got_or,
  decoded, then_got,
}
use tui_ssh_client.Ui.Sync.Commands.{fetch, fetch_got, fetch_plain, fetch_summary}
use tui_ssh_client.Ui.Sync.World.{GitHub, World, Answers, file_reply, post}
use tui_ssh_client.Ui.Sync.Register.{Register, takes, brought, taken, is_own, rests}
use tui_ssh_client.Ui.Sync.Simulates.{is_set, IsBrought, MsgOk, Simulates, has-head}
use tui_ssh_client.Ui.Sync.Moves.{Moved, unmoved, post-Simulates, brought-Simulates}
use tui_ssh_client.Ui.Sync.Labels.{fetch_move}

module _ (g : GitHub) (o : Outside) where
  -- What Get gives: the contents of a file with their sha, if anything.
  FileOk : Register → Got (Text × Text) → Type 0
  FileOk s (got x) = (has x.0 s.fetched ≡ true) × (x.1 ≡ g.sha_of x.0)
  FileOk s (refused e) = Unit

  file-FileOk :
      (s : Register) (a : Answers) (file : Option Text)
      → ((c : Text) → a.serves ≡ true → file ≡ some c → has c s.fetched ≡ true)
      → FileOk s (get_file (file_reply g a file))
  unfolding FileOk get_file file_reply request got_or status_error contents decoded then_got text_eq
  file-FileOk s a none h = tt
  file-FileOk s a (some c) h =
      if_cases (λ (r : Reply Contents). FileOk s (get_file r)) a.serves _ _
        (λ yes_so. (h c yes_so refl, refl)) (λ no_so. no_body (status_error (300 + a.status)))
    where
      no_body : (e : Option SyncError) → FileOk s (then_got (got_or e none) contents)
      no_body none = tt
      no_body (some e) = tt

  summary-MsgOk :
      (s : Register) (b : Bool) (blob sha : Text) (x : Summary)
      → b ≡ true
      → IsBrought g o s blob sha
      → MsgOk g o s b (fetch_summary blob sha x)
  unfolding fetch_summary
  summary-MsgOk s b blob sha (no_summary e) r k = tt
  summary-MsgOk s b blob sha (summary n updated device) r k = (r, k)

  plain-MsgOk :
      (s : Register) (b : Bool) (j : Json) (c pass sha : Text) (x : Plain)
      → decrypt o c pass ≡ x
      → b ≡ true
      → (has c s.fetched ≡ true) × (sha ≡ g.sha_of c)
      → MsgOk g o s b (fetch_plain j sha x)
  unfolding fetch_plain
  plain-MsgOk s b j c pass sha (no_plain e) q r k = tt
  plain-MsgOk s b j c pass sha (plain blob) q r k =
      summary-MsgOk s b blob sha (bundle_servers j blob) r (c, k.0, k.1, (pass, q))

  got-MsgOk :
      (s : Register) (b : Bool) (j : Json) (pass : Text) (x : Got (Text × Text))
      → b ≡ true
      → FileOk s x
      → MsgOk g o s b (fetch_got o j pass x)
  unfolding fetch_got FileOk
  got-MsgOk s b j pass (refused e) r k = tt
  got-MsgOk s b j pass (got (c, sha)) r k = plain-MsgOk s b j c pass sha (decrypt o c pass) refl r k

  fetched_nothing :
      (j : Json) (w : World) (s : Register) (a : Answers) (f : Text) (file : Option Text)
      → ((c : Text) → a.serves ≡ true → file ≡ some c → ⊥)
      → is_set w.app.registration ≡ true
      → Simulates g o w s
      → Moved g o (post (fetch o j a.pass (file_reply g a file)) w) s (fetch_move a.serves f)
  unfolding fetch
  fetched_nothing j w s a f file never set h = unmoved g o _ s _ (own_fetch a.serves) (
      post-Simulates g o _ w s
        (got-MsgOk s _ j a.pass (get_file (file_reply g a file)) set
          (file-FileOk s a file (λ c y x. absurd (never c y x))))
        h)
    where
      own_fetch : (b : Bool) → is_own (fetch_move b f) ≡ true
      own_fetch true = refl
      own_fetch false = refl

  fetched_file :
      (j : Json) (w : World) (s : Register) (a : Answers) (f c : Text)
      → lookup f s.files ≡ some c
      → is_set w.app.registration ≡ true
      → Simulates g o w s
      → Moved g o (post (fetch o j a.pass (file_reply g a (some c))) w) s (takes f)
  unfolding fetch
  fetched_file j w s a f c e set h =
      let t = brought c s in
      record {
        to = t;
        moved = taken s f c e;
        holds =
            post-Simulates g o _ w t
              (got-MsgOk t _ j a.pass (get_file (file_reply g a (some c))) set (
                file-FileOk t a (some c) (λ d y x.
                  subst (λ z. has z t.fetched ≡ true) (value c d x) (has-head c s.fetched))))
              (brought-Simulates g o w s c h);
      }
    where
      value : (c d : Text) → some c ≡ some d → c ≡ d
      value c d e = cc

  -- What a file holds is fetched, if GitHub answers with it.
  pub pulled-Moved :
      (j : Json) (w : World) (s : Register) (a : Answers) (f : Text) (file : Option Text)
      → lookup f s.files ≡ file
      → is_set w.app.registration ≡ true
      → Simulates g o w s
      → Moved g o (post (fetch o j a.pass (file_reply g a file)) w) s (fetch_move a.serves f)
  pulled-Moved j w s a f none e set h = fetched_nothing j w s a f none (λ c y x. absurd (cc)) set h
  pulled-Moved j w s a f (some c) e set h = elim (Bool-cases a.serves) [
    | inl yes_so ↦
        subst (Moved g o _ s) (sym (if-true a.serves (takes f) rests yes_so))
          (fetched_file j w s a f c e set h)
    | inr no_so ↦ fetched_nothing j w s a f (some c) (λ d y x. clash y no_so) set h
  ]
    where
      clash : {b : Bool} → b ≡ true → b ≡ false → ⊥
      clash x y = cc
