-- ===== src/Config/Migrate/Gone.antt =====
-- What a move that succeeds leaves behind.
use tui_ssh_client.Prelude.{◌≡◌, sym, ap, ◌∙◌, subst, inl, inr, ◌⊎◌, true, false, none, some, All}
use tui_ssh_client.Config.Writes.{and_then, and_then-both, and_then-none}
use tui_ssh_client.Prelude.Text.{Text}
use tui_ssh_client.Prelude.Dict.{lookup}
use tui_ssh_client.Vault.Secrets.{Secrets}
use tui_ssh_client.Config.VaultFile.{Outside, Promises, Holds, load_secrets, loaded, versioned}
use tui_ssh_client.Config.Migrate.{
  Home, Plaintext, MigrateCalls, Run, has_bytes, back_up, fill, seal_vault, rewrite_list,
  remove_keys, unmark, start, finish_move, move_secrets, move_if, any, migrate,
}
use tui_ssh_client.Config.Migrate.Steps.{
  IsCleanList, Rewritten, rewrite_list-Rewritten, seal_vault-backup, seal_vault-Holds,
  remove_keys-Same, remove_keys-gone, unmark-Same, unmark-key_files, back_up-backup,
}

-- What a move that goes through leaves, from the run in which the vault was sealed on.
record Left (pt : Plaintext) (r t : Run) : Type 0 where
  clean : IsCleanList pt t.now.listing
  gone : All (λ e. lookup e.1 t.now.key_files ≡ none) pt.key_files
  backup : t.now.backup ≡ r.now.backup
  vault : t.now.vault ≡ r.now.vault

remove_then-Left :
    (c : MigrateCalls) (pt : Plaintext) (r t : Run)
    → Rewritten pt r t
    → t.err ≡ none
    → (and_then (remove_keys c pt.key_files t) (unmark c)).err ≡ none
    → Left pt r (and_then (remove_keys c pt.key_files t) (unmark c))
remove_then-Left c pt r t w n e =
    let q = and_then-none (remove_keys c pt.key_files t) (unmark c) e in
    let k = remove_keys-Same c pt.key_files t in
    let u = unmark-Same c (remove_keys c pt.key_files t) in
    subst (Left pt r) (sym q.1) (record {
      clean = elim w.clean [
        | inl bad ↦ absurd (bad n)
        | inr good ↦ subst (IsCleanList pt) (sym (u.listing ∙ k.listing)) good
      ];
      gone =
          subst (λ f. All (λ e. lookup e.1 f ≡ none) pt.key_files)
            (sym (unmark-key_files c (remove_keys c pt.key_files t)))
            (remove_keys-gone c pt.key_files t q.0);
      backup = u.backup ∙ (k.backup ∙ w.backup);
      vault = u.vault ∙ (k.vault ∙ w.vault);
    })

finish_move-Left :
    (c : MigrateCalls) (pt : Plaintext) (r : Run)
    → (finish_move c pt r).err ≡ none
    → Left pt r (finish_move c pt r)
unfolding finish_move
finish_move-Left c pt r e =
    let t = rewrite_list c pt r in
    let removal : Run → Run = λ x. and_then (remove_keys c pt.key_files x) (unmark c) in
    let q = and_then-none t removal e in
    subst (Left pt r) (sym q.1) (
      remove_then-Left c pt r t (rewrite_list-Rewritten c pt r) q.0 (ap (λ x. x.err) (sym q.1) ∙ e))

record Finished (o : Outside) (c : MigrateCalls) (pt : Plaintext) (full : Secrets) (pass : Text)
    (h x : Home) : Type 0 where
  clean : IsCleanList pt x.listing
  gone : All (λ e. lookup e.1 x.key_files ≡ none) pt.key_files
  vault : Holds o pass full x.vault
  backup : (has_bytes c h.listing ≡ false) ⊎ (x.backup ≡ some h.listing)

move_secrets-Finished :
    (o : Outside) (c : MigrateCalls) (pt : Plaintext) (s : Secrets) (pass : Text) (r : Run)
    → Promises o
    → (move_secrets o c pt s pass r).err ≡ none
    → Finished o c pt (fill pt s) pass r.now (move_secrets o c pt s pass r).now
unfolding move_secrets
move_secrets-Finished o c pt s pass r law e =
    let b = back_up c r in
    let t = seal_vault o c pt s pass b in
    let q = and_then-both b (seal_vault o c pt s pass) (finish_move c pt) e in
    let both : move_secrets o c pt s pass r ≡ finish_move c pt t = q.2 in
    let l = finish_move-Left c pt t (ap (λ x. x.err) (sym both) ∙ e) in
    subst (λ (x : Run). Finished o c pt (fill pt s) pass r.now x.now) (sym both)
      (record {
        clean = l.clean;
        gone = l.gone;
        vault =
            subst (Holds o pass (fill pt s)) (sym l.vault)
              (seal_vault-Holds o c pt s pass b law q.1);
        backup = elim (back_up-backup c r) [
          | inl bad ↦ absurd (bad q.0)
          | inr (inl none_there) ↦ inl none_there
          | inr (inr copied) ↦ inr (l.backup ∙ (seal_vault-backup o c pt s pass b ∙ copied))
        ];
      })

-- A move that had something to move and reports no error leaves a list in which no entry has a
-- password, nor the path of a key that was moved, none of the key files that were found, a vault that
-- opens with the passphrase to the filled secrets, and, where the list had any bytes, a copy of it as
-- it was.
pub migrate_leaves_none :
    (o : Outside) (c : MigrateCalls) (pt : Plaintext) (s : Secrets) (pass : Text) (h : Home)
    → Promises o
    → any pt ≡ true
    → (migrate o c pt (some s) pass h).err ≡ none
    → IsCleanList pt (migrate o c pt (some s) pass h).now.listing
      × All (λ e. lookup e.1 (migrate o c pt (some s) pass h).now.key_files ≡ none) pt.key_files
      × (load_secrets o true pass (migrate o c pt (some s) pass h).now.vault
          ≡ loaded (versioned (fill pt s)))
      × ((has_bytes c h.listing ≡ false)
          ⊎ ((migrate o c pt (some s) pass h).now.backup ≡ some h.listing))
unfolding migrate move_if start
migrate_leaves_none o c pt s pass h law some_there = rw some_there (λ e.
    let f = move_secrets-Finished o c pt s pass (start (some s) h) law e in
    (f.clean, f.gone, f.vault, f.backup))
