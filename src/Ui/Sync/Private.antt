-- ===== src/Ui/Sync/Private.antt =====
-- What a push puts on GitHub: ciphertext, and only where the repository was just found private.
use tui_ssh_client.Prelude.{
  ℕ, ◌≡◌, refl, ◌∙◌, inl, inr, ◌⊎◌, Bool, ◌&&◌, List, [], ◌∷◌, Option, none, some, if_both,
  Bool-cases, if-true, if-false, get_elem?,
}
use tui_ssh_client.Prelude.Text.{Text, text_eq, text_eq_iff}
use tui_ssh_client.Prelude.Dict.{Dict, lookup, insert, lookup-insert}
use tui_ssh_client.Config.VaultFile.{Outside, Sealed, no_cipher, cipher, encrypt}
use tui_ssh_client.Config.Bundle.Apply.{Json, Bundle, Packed, packed, not_packed}
use tui_ssh_client.Sync.Github.{SyncError, Reply, check, payload, Repo, IsPrivate, check-IsPrivate}
use tui_ssh_client.Ui.Sync.{
  Auth, Cmd, check_repo, push_cmd, pull_cmd, apply_pull, persist, load_servers, Msg,
}
use tui_ssh_client.Ui.Sync.Commands.{
  Upload, not_sent, sends, upload, checked_then, bundle_and_send, seal_and_send, repo_of,
}
use tui_ssh_client.Ui.Sync.Handlers.{sha_at}
use tui_ssh_client.Ui.Sync.World.{
  GitHub, World, Answers, Event, key, opens, pushes, pulls, restarts, answers, delivered, runs,
  others_write, file_of, post, arrive, send, execute, run_cmd, deliver_msg, took, step, run,
}

module _ (o : Outside) (j : Json) where
  -- The ciphertext of the bundle that was made, for a repository that is private.
  abbrev pub IsSealed : Reply Bool → Packed → Text → Text → Type 0
  IsSealed private_ made pass c =
      IsPrivate private_
      × (b : Bundle) × (made ≡ packed b)
      × (encrypt o (j.write b) pass ≡ cipher c)

  abbrev pub Puts : Reply Bool → Packed → Text → Upload → Type 0
  Puts private_ made pass (not_sent e) = Unit
  Puts private_ made pass (sends p n) = IsSealed private_ made pass p.content

  seal-Puts :
      (q : Reply Bool) (r : Repo) (sha pass : Text) (n : ℕ) (b : Bundle) (x : Sealed)
      → IsPrivate q
      → encrypt o (j.write b) pass ≡ x
      → Puts q (packed b) pass (seal_and_send r sha n x)
  unfolding seal_and_send payload
  seal-Puts q r sha pass n b (no_cipher e) h z = tt
  seal-Puts q r sha pass n b (cipher c) h z = (h, b, refl, z)

  bundle-Puts :
      (q : Reply Bool) (r : Repo) (sha pass : Text) (made : Packed)
      → IsPrivate q
      → Puts q made pass (bundle_and_send o j r pass sha made)
  unfolding bundle_and_send
  bundle-Puts q r sha pass (not_packed e) h = tt
  bundle-Puts q r sha pass (packed b) h = seal-Puts q r sha pass _ b _ h refl

  checked-Puts :
      (q : Reply Bool) (made : Packed) (pass : Text) (x : Option SyncError) (u : Upload)
      → (x ≡ none → Puts q made pass u)
      → Puts q made pass (checked_then x u)
  unfolding checked_then
  checked-Puts q made pass none u h = h refl
  checked-Puts q made pass (some e) u h = tt

  upload-Puts :
      (a : Auth) (pass sha : Text) (q : Reply Bool) (made : Packed)
      → Puts q made pass (upload o j a pass sha q made)
  unfolding upload
  upload-Puts a pass sha q made =
      checked-Puts q made pass (check q) _
        (λ h. bundle-Puts q (repo_of a) sha pass made (check-IsPrivate q h))

  -- An event that puts `c` into the file `f`.
  abbrev pub Wrote : Text → Text → Event → Type 0
  Wrote f c (others_write k d) = (k ≡ f) × (d ≡ c)
  Wrote f c (runs i s) = IsSealed s.private_ s.made s.pass c
  Wrote f c _ = ⊥

  abbrev pub SomeWrote : Text → Text → List Event → Type 0
  SomeWrote f c [] = ⊥
  SomeWrote f c (e ∷ es) = Wrote f c e ⊎ SomeWrote f c es

  -- The file is as it was, or some event of them put there what is in it.
  abbrev pub Accounted : Text → Dict Text → Dict Text → List Event → Type 0
  Accounted f m n es =
      (lookup f n ≡ lookup f m) ⊎ (c : Text) × (lookup f n ≡ some c) × SomeWrote f c es

  insert-Accounted :
      (f k c : Text) (m : Dict Text) (e : Event)
      → (k ≡ f → Wrote f c e)
      → Accounted f m (insert k c m) (e ∷ [])
  insert-Accounted f k c m e h = elim (Bool-cases (text_eq k f)) [
    | inl q ↦
        inr
          (c, lookup-insert k f c m ∙ if-true (text_eq k f) _ _ q, inl (h ((text_eq_iff k f).0 q)))
    | inr q ↦ inl (lookup-insert k f c m ∙ if-false (text_eq k f) _ _ q)
  ]

  send-Accounted :
      (g : GitHub) (s : Answers) (i : ℕ) (f k : Text) (u : Upload) (w : World)
      → Puts s.private_ s.made s.pass u
      → Accounted f w.files (send g s k u w).files (runs i s ∷ [])
  unfolding send arrive post
  send-Accounted g s i f k (not_sent e) w h = inl refl
  send-Accounted g s i f k (sends p n) w h =
      if_both (λ (v : World). Accounted f w.files v.files (runs i s ∷ []))
        (s.serves && g.accepts (lookup k w.files) p.sha) _ _
        (insert-Accounted f k p.content w.files (runs i s) (λ e. h)) (inl refl)

  execute-Accounted :
      (g : GitHub) (s : Answers) (i : ℕ) (f : Text) (c : Cmd) (w : World)
      → Accounted f w.files (execute g o j s c w).files (runs i s ∷ [])
  unfolding execute post
  execute-Accounted g s i f (check_repo a) w = inl refl
  execute-Accounted g s i f (push_cmd r) w =
      let sha = sha_at w.app.shas r.cell in
      send-Accounted g s i f (file_of r.auth) _ w (upload-Puts r.auth s.pass sha s.private_ s.made)
  execute-Accounted g s i f (pull_cmd r) w = inl refl
  execute-Accounted g s i f (apply_pull blob sha r) w = inl refl
  execute-Accounted g s i f (persist r) w = inl refl
  execute-Accounted g s i f load_servers w = inl refl

  run_cmd-Accounted :
      (g : GitHub) (s : Answers) (i : ℕ) (f : Text) (c : Option Cmd) (w : World)
      → Accounted f w.files (run_cmd g o j s i c w).files (runs i s ∷ [])
  unfolding run_cmd
  run_cmd-Accounted g s i f none w = inl refl
  run_cmd-Accounted g s i f (some c) w = execute-Accounted g s i f c _

  deliver-Accounted :
      (f : Text) (i : ℕ) (m : Option Msg) (w : World)
      → Accounted f w.files (deliver_msg i m w).files (delivered i ∷ [])
  unfolding deliver_msg took
  deliver-Accounted f i none w = inl refl
  deliver-Accounted f i (some m) w = inl refl

  step-Accounted :
      (g : GitHub) (e : Event) (f : Text) (w : World)
      → Accounted f w.files (step g o j e w).files (e ∷ [])
  unfolding step took
  step-Accounted g (key k) f w = inl refl
  step-Accounted g opens f w = inl refl
  step-Accounted g pushes f w = inl refl
  step-Accounted g pulls f w = inl refl
  step-Accounted g restarts f w = inl refl
  step-Accounted g (answers b) f w = inl refl
  step-Accounted g (delivered i) f w = deliver-Accounted f i (get_elem? w.mail i) w
  step-Accounted g (runs i s) f w = run_cmd-Accounted g s i f (get_elem? w.running i) w
  step-Accounted g (others_write k c) f w =
      insert-Accounted f k c w.files (others_write k c) (λ q. (q, refl))

  Accounted-more :
      (f : Text) (m n l : Dict Text) (e : Event) (es : List Event)
      → Accounted f m n (e ∷ [])
      → Accounted f n l es
      → Accounted f m l (e ∷ es)
  Accounted-more f m n l e es a (inr (c, q, h)) = inr (c, q, inr h)
  Accounted-more f m n l e es (inl p) (inl q) = inl (q ∙ p)
  Accounted-more f m n l e es (inr (c, p, inl h)) (inl q) = inr (c, q ∙ p, inl h)
  Accounted-more f m n l e es (inr (c, p, inr h)) (inl q) = absurd h

  -- However keys, commands and messages come one after the other, a file on GitHub is at the end what it
  -- was at the start, or what another wrote, or the ciphertext of a bundle that a push of this machine
  -- sealed with its passphrase, right after the answer that the repository is private.
  pub pushed_sealed :
      (g : GitHub) (es : List Event) (w : World) (f : Text)
      → Accounted f w.files (run g o j es w).files es
  unfolding run
  pushed_sealed g [] w f = inl refl
  pushed_sealed g (e ∷ es) w f =
      Accounted-more f w.files (step g o j e w).files (run g o j es (step g o j e w)).files e es
        (step-Accounted g e f w) (pushed_sealed g es (step g o j e w) f)
