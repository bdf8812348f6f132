-- ===== src/Ui/Sync/Sent.antt =====
-- An upload that is taken: the one move of the register that is this machine's own.
use tui_ssh_client.Prelude.{
  ℕ, ◌+◌, ◌≡◌, refl, sym, ap, ◌∙◌, subst, inl, inr, ◌⊎◌, Bool, true, false, ◌&&◌, [], ◌∷◌, Option,
  none, some, if_cases, arith,
}
use tui_ssh_client.Prelude.Text.{Text, is_empty}
use tui_ssh_client.Prelude.Words.{has}
use tui_ssh_client.Prelude.Dict.{lookup}
use tui_ssh_client.Config.VaultFile.{Outside, Sealed, no_cipher, cipher, encrypt}
use tui_ssh_client.Config.Bundle.Apply.{Json, Packed, packed, not_packed}
use tui_ssh_client.Sync.Github.{
  Reply, Payload, payload, put_file, SyncError, status_error, Repo, request, got_or, reply,
}
use tui_ssh_client.Ui.Sync.{Auth}
use tui_ssh_client.Ui.Sync.Commands.{
  Upload, not_sent, sends, upload, checked_then, bundle_and_send, seal_and_send, repo_of,
  after_upload, push_answer,
}
use tui_ssh_client.Ui.Sync.World.{GitHub, Promises, World, Answers, put_reply, arrive, send}
use tui_ssh_client.Ui.Sync.Register.{Register, own_puts, put_by_us, IsFree, written, learned}
use tui_ssh_client.Ui.Sync.Simulates.{is_set, IsShaOf, MsgOk, Simulates, has-head}
use tui_ssh_client.Ui.Sync.Moves.{
  Moved, unmoved, post-Simulates, learned-Simulates, written-Simulates,
}

-- The payload has the sha that it was given, unless that is empty.
abbrev pub Sends : Text → Upload → Type 0
Sends sha (not_sent e) = Unit
Sends sha (sends p n) = (p.sha ≡ none) ⊎ (p.sha ≡ some sha) × (is_empty sha ≡ false)

payload-Sends : (r : Repo) (c sha : Text) (n : ℕ) → Sends sha (sends (payload r c sha) n)
unfolding payload
payload-Sends r c [] n = inl refl
payload-Sends r c (x ∷ t) n = inr (refl, refl)

seal-Sends : (r : Repo) (sha : Text) (n : ℕ) (x : Sealed) → Sends sha (seal_and_send r sha n x)
unfolding seal_and_send
seal-Sends r sha n (no_cipher e) = tt
seal-Sends r sha n (cipher c) = payload-Sends r c sha n

bundle-Sends :
    (o : Outside) (j : Json) (r : Repo) (pass sha : Text) (b : Packed)
    → Sends sha (bundle_and_send o j r pass sha b)
unfolding bundle_and_send
bundle-Sends o j r pass sha (not_packed e) = tt
bundle-Sends o j r pass sha (packed b) = seal-Sends r sha _ (encrypt o (j.write b) pass)

checked-Sends :
    (sha : Text) (e : Option SyncError) (u : Upload) → Sends sha u → Sends sha (checked_then e u)
unfolding checked_then
checked-Sends sha none u h = h
checked-Sends sha (some e) u h = tt

pub upload-Sends :
    (o : Outside) (j : Json) (a : Auth) (pass sha : Text) (p : Reply Bool) (b : Packed)
    → Sends sha (upload o j a pass sha p b)
unfolding upload
upload-Sends o j a pass sha p b = checked-Sends sha _ _ (bundle-Sends o j (repo_of a) pass sha b)

module _ (g : GitHub) (o : Outside) (law : Promises g) where
  -- An upload that is taken is over a file that this machine has seen.
  taken-IsFree :
      (s : Register) (f sha : Text) (n : ℕ) (p : Payload) (file : Option Text)
      → lookup f s.files ≡ file
      → Sends sha (sends p n)
      → IsShaOf g o s.seen sha
      → g.accepts file p.sha ≡ true
      → IsFree f s
  taken-IsFree s f sha n p none e h k a = inl e
  taken-IsFree s f sha n p (some old) e (inl q) k a =
      absurd (clash (subst (λ x. g.accepts (some old) x ≡ true) q a) (law.needed old))
    where
      clash : {b : Bool} → b ≡ true → b ≡ false → ⊥
      clash x y = cc
  taken-IsFree s f sha n p (some old) e (inr (q, full)) (inl z) a = absurd (ground (arith, z, full))
  taken-IsFree s f sha n p (some old) e (inr (q, full)) (inr (c, there, z)) a =
      let is_old : c ≡ old =
        law.apart c old
          (sym z ∙ law.stale old sha (subst (λ x. g.accepts (some old) x ≡ true) q a)) in
      inr (old, e, subst (λ x. has x s.seen ≡ true) is_old there)

  after_upload-MsgOk :
      (s : Register) (b heard : Bool) (n : ℕ) (c : Text)
      → has c s.seen ≡ true
      → MsgOk g o s b (after_upload n (put_reply g heard c))
  unfolding after_upload push_answer put_file request got_or status_error put_reply
  after_upload-MsgOk s b true n c h = inr (c, h, refl)
  after_upload-MsgOk s b false n c h = tt

  refused-MsgOk :
      (s : Register) (b : Bool) (n status : ℕ)
      → MsgOk g o s b (after_upload n (reply (300 + status) none))
  unfolding after_upload push_answer put_file request got_or status_error
  refused-MsgOk s b n status = no_body (status_error (300 + status))
    where
      no_body : (e : Option SyncError) → MsgOk g o s b (push_answer n (got_or e none))
      no_body none = tt
      no_body (some e) = tt

  arrive-Moved :
      (w : World) (s : Register) (a : Answers) (f sha : Text) (n : ℕ) (p : Payload)
      → Simulates g o w s
      → Sends sha (sends p n)
      → IsShaOf g o s.seen sha
      → Moved g o (arrive g a f n p w) s (own_puts f)
  unfolding arrive
  arrive-Moved w s a f sha n p h sent k =
      let b = is_set w.app.registration in
      let c = p.content in
      let t = learned c (written f c s) in
      if_cases (λ x. Moved g o x s (own_puts f)) (a.serves && g.accepts (lookup f w.files) p.sha) _
        _
        (λ yes_so. record {
          to = t;
          moved = put_by_us s f c (
              taken-IsFree s f sha n p (lookup f w.files) (ap (lookup f) h.files) sent k
                (and_right a.serves _ yes_so));
          holds =
              post-Simulates g o _ _ t (after_upload-MsgOk t b a.heard n c (has-head c s.seen))
                (learned-Simulates g o _ (written f c s) c (written-Simulates g o w s f c h));
        })
        (λ no_so.
          unmoved g o _ s (own_puts f) refl
            (post-Simulates g o _ w s (refused-MsgOk s b n a.status) h))
    where
      and_right : (x y : Bool) → (x && y) ≡ true → y ≡ true
      and_right true y e = e
      and_right false y e = absurd (cc)

  pub send-Moved :
      (w : World) (s : Register) (a : Answers) (f sha : Text) (u : Upload)
      → Simulates g o w s
      → Sends sha u
      → IsShaOf g o s.seen sha
      → Moved g o (send g a f u w) s (own_puts f)
  unfolding send
  send-Moved w s a f sha (not_sent e) h sent k =
      unmoved g o _ s (own_puts f) refl (post-Simulates g o _ w s tt h)
  send-Moved w s a f sha (sends p n) h sent k = arrive-Moved w s a f sha n p h sent k
