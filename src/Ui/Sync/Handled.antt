-- ===== src/Ui/Sync/Handled.antt =====
-- What the keys and the messages of sync do to the register: nothing.
use tui_ssh_client.Prelude.{
  ◌≡◌, refl, sym, ap, ◌∙◌, subst, inl, Bool, true, List, [], ◌∷◌, ◌++◌, Option, none, some, All,
  All-append, All-set, if_both,
}
use tui_ssh_client.Prelude.Text.{Text}
use tui_ssh_client.Config.VaultFile.{Outside}
use tui_ssh_client.Ui.Sync.{
  Auth, Registration, Form, Checked, wrong, right, form_auth, Fetched, Cmd, apply_pull, SyncApp,
  SyncKey, sync_cancel, sync_next, sync_prev, sync_submit, close_sync, open_sync,
}
use tui_ssh_client.Ui.Sync.Handlers.{
  submit, form_key, form_keys, handle_sync_key, start_push_with, start_push, start_pull_with,
  start_pull, confirm_yes, answer_pull, kept_sha, same_file, pushed_with,
}
use tui_ssh_client.Ui.Sync.World.{GitHub, World, took}
use tui_ssh_client.Ui.Sync.Register.{Register}
use tui_ssh_client.Ui.Sync.Simulates.{
  is_set, IsShaOf, IsBrought, CmdOk, AskOk, Simulates, Grows, AskOk-Grows, sha_at-IsShaOf,
}
use tui_ssh_client.Ui.Sync.Moves.{took-Simulates}

module _ (g : GitHub) (o : Outside) (w : World) (s : Register) (h : Simulates g o w s) where
  -- A handler that leaves registration, shas and question alone.
  pub same-Simulates :
      (a : SyncApp) (cs : List Cmd)
      → a.registration ≡ w.app.registration
      → a.shas ≡ w.app.shas
      → a.confirm ≡ w.app.confirm
      → All (CmdOk g o s (is_set w.app.registration)) cs
      → Simulates g o (took w (a, cs)) s
  same-Simulates a cs r q f ok =
      took-Simulates g o w s a cs h (λ x. ap is_set r ∙ x)
        (subst (All (IsShaOf g o s.seen)) (sym q) h.shas)
        (subst (AskOk g o s (is_set a.registration)) (sym f)
          (subst (λ x. AskOk g o s (is_set x) w.app.confirm) (sym r) h.ask))
        (subst (λ x. All (CmdOk g o s (is_set x)) cs) (sym r) ok)

  submit-Simulates : (f : Form) (c : Checked) → Simulates g o (took w (submit f c w.app)) s
  unfolding submit
  submit-Simulates f (wrong e) = same-Simulates _ [] refl refl refl tt
  submit-Simulates f (right auth) = same-Simulates _ _ refl refl refl (tt, tt)

  form_key-Simulates : (f : Form) (k : SyncKey) → Simulates g o (took w (form_key f k w.app)) s
  unfolding form_key close_sync
  form_key-Simulates f sync_cancel = same-Simulates _ [] refl refl refl tt
  form_key-Simulates f sync_next = same-Simulates _ [] refl refl refl tt
  form_key-Simulates f sync_prev = same-Simulates _ [] refl refl refl tt
  form_key-Simulates f (sync_submit fields) =
      submit-Simulates f (form_auth fields w.app.registration)

  form_keys-Simulates :
      (f : Option Form) (k : SyncKey) → Simulates g o (took w (form_keys f k w.app)) s
  unfolding form_keys
  form_keys-Simulates none k = same-Simulates w.app [] refl refl refl tt
  form_keys-Simulates (some f) k =
      if_both (λ (x : SyncApp × List Cmd). Simulates g o (took w x) s) f.busy _ _
        (same-Simulates w.app [] refl refl refl tt) (form_key-Simulates f k)

  pub key-Simulates : (k : SyncKey) → Simulates g o (took w (handle_sync_key k w.app)) s
  unfolding handle_sync_key
  key-Simulates k = form_keys-Simulates w.app.form k

  pub open-Simulates : Simulates g o (took w (open_sync w.app, [])) s
  unfolding open_sync
  open-Simulates = same-Simulates _ [] refl refl refl tt

  push_with-Simulates :
      (r : Option Registration) → Simulates g o (took w (start_push_with r w.app)) s
  unfolding start_push_with
  push_with-Simulates none = same-Simulates _ [] refl refl refl tt
  push_with-Simulates (some r) = same-Simulates _ _ refl refl refl (tt, tt)

  pub push-Simulates : Simulates g o (took w (start_push w.app)) s
  unfolding start_push
  push-Simulates = push_with-Simulates w.app.registration

  pull_with-Simulates :
      (r : Option Registration)
      → w.app.registration ≡ r
      → Simulates g o (took w (start_pull_with r w.app)) s
  unfolding start_pull_with
  pull_with-Simulates none e = same-Simulates _ [] refl refl refl tt
  pull_with-Simulates (some r) e = same-Simulates _ _ refl refl refl (ap is_set e, tt)

  pub pull-Simulates : Simulates g o (took w (start_pull w.app)) s
  unfolding start_pull
  pull-Simulates = pull_with-Simulates w.app.registration refl

  apply_pull-CmdOk :
      (blob sha : Text) (r : Option Registration)
      → is_set r ≡ true
      → IsBrought g o s blob sha
      → CmdOk g o s (is_set r) (apply_pull blob sha r)
  apply_pull-CmdOk blob sha none e p = absurd (cc)
  apply_pull-CmdOk blob sha (some r) e p = p

  confirm-Simulates :
      (f : Option Fetched)
      → AskOk g o s (is_set w.app.registration) f
      → Simulates g o (took w (confirm_yes f w.app)) s
  unfolding confirm_yes
  confirm-Simulates none k = same-Simulates w.app [] refl refl refl tt
  confirm-Simulates (some f) k =
      took-Simulates g o w s _ _ h (λ x. x) h.shas tt
        (apply_pull-CmdOk f.blob f.sha w.app.registration k.0 k.1, tt)

  pub answer-Simulates : (b : Bool) → Simulates g o (took w (answer_pull b w.app)) s
  unfolding answer_pull
  answer-Simulates b =
      if_both (λ (x : SyncApp × List Cmd). Simulates g o (took w x) s) b _ _
        (confirm-Simulates w.app.confirm h.ask)
        (took-Simulates g o w s _ [] h (λ x. x) h.shas tt tt)

  -- A new pointer, with a sha that is known.
  pub register-Simulates :
      (auth : Auth) (sha : Text) (a : SyncApp) (cs : List Cmd)
      → IsShaOf g o s.seen sha
      → is_set a.registration ≡ true
      → a.shas ≡ w.app.shas ++ sha ∷ []
      → a.confirm ≡ w.app.confirm
      → All (CmdOk g o s true) cs
      → Simulates g o (took w (a, cs)) s
  register-Simulates auth sha a cs known r q f ok =
      let b = is_set w.app.registration in
      let k : Grows g o s b s true = record {
        seen = λ c x. x;
        fetched = λ c x. x;
        set = λ x. refl;
      } in
      took-Simulates g o w s a cs h (λ x. r)
        (subst (All (IsShaOf g o s.seen)) (sym q)
          (All-append (IsShaOf g o s.seen) w.app.shas (sha ∷ []) h.shas (known, tt)))
        (subst (AskOk g o s (is_set a.registration)) (sym f) (
          subst (λ x. AskOk g o s x w.app.confirm) (sym r)
            (AskOk-Grows g o s b s true k w.app.confirm h.ask)))
        (subst (λ x. All (CmdOk g o s x) cs) (sym r) ok)

  pub kept_sha-IsShaOf :
      (r : Option Registration) (auth : Auth) → IsShaOf g o s.seen (kept_sha r auth w.app.shas)
  unfolding kept_sha
  kept_sha-IsShaOf none auth = inl refl
  kept_sha-IsShaOf (some old) auth =
      if_both (IsShaOf g o s.seen) (same_file old.auth auth) _ _
        (sha_at-IsShaOf g o s.seen w.app.shas old.cell h.shas) (inl refl)

  pub pushed_with-All :
      (r : Option Registration) (sha : Text)
      → IsShaOf g o s.seen sha
      → All (IsShaOf g o s.seen) (pushed_with r sha w.app.shas)
  unfolding pushed_with
  pushed_with-All none sha k = h.shas
  pushed_with-All (some r) sha k = All-set (IsShaOf g o s.seen) w.app.shas r.cell sha h.shas k
