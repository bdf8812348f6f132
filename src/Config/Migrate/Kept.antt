-- ===== src/Config/Migrate/Kept.antt =====
-- That no secret is lost on the way, wherever the move stops.
use tui_ssh_client.Prelude.{
  ◌≡◌, refl, ap, ◌∙◌, subst, inl, inr, ◌⊎◌, true, false, Bool, none, some, All, All-mono,
}
use tui_ssh_client.Config.Writes.{states}
use tui_ssh_client.Prelude.Text.{Text, is_empty}
use tui_ssh_client.Prelude.Dict.{lookup}
use tui_ssh_client.Vault.Secrets.{Secrets, password, or_empty}
use tui_ssh_client.Config.Store.{System}
use tui_ssh_client.Config.VaultFile.{Outside, Promises, loaded, load_secrets, versioned}
use tui_ssh_client.Config.Migrate.{Home, Plaintext, MigrateCalls, fill, migrate}
use tui_ssh_client.Config.Migrate.Find.{scan_plaintext}
use tui_ssh_client.Config.Migrate.Scan.{
  last_password, entries, over, Finds, scan_plaintext-Finds, fill-password, fill-keys,
}
use tui_ssh_client.Config.Migrate.Trace.{IsSafe, migrate-AllSafe}

-- Once ScanPlaintext has found what is in the clear, and for any id: however far Migrate gets and
-- wherever it fails, at every moment the list, the key files and the vault are as they were, or the
-- vault opens with the passphrase and has, for that id, the password of its last entry in the list
-- that has one, and the key that was found; where nothing was found, what the secrets had before.
pub migrate_keeps_secrets :
    (y : System) (reads : Text → Bool) (o : Outside) (c : MigrateCalls) (s : Secrets) (pass : Text)
    (h : Home) (pt : Plaintext) (id : Text)
    → Promises o
    → scan_plaintext y reads h ≡ (pt, none)
    → is_empty id ≡ false
    → All
        (λ x.
          (x.listing ≡ h.listing) × (x.key_files ≡ h.key_files) × (x.vault ≡ h.vault)
          ⊎ (t : Secrets) × (load_secrets o true pass x.vault ≡ loaded t)
            × (password t id ≡ over (last_password id (entries h.listing)) (password s id))
            × (or_empty (lookup id t.keys)
                ≡ over (lookup id pt.keys) (or_empty (lookup id s.keys))))
        (states (migrate o c pt (some s) pass h))
unfolding versioned password
migrate_keeps_secrets y reads o c s pass h pt id law found n =
    All-mono (IsSafe o pass (fill pt s) h) _ (states (migrate o c pt (some s) pass h))
      (λ x w. elim w [
        | inl raw ↦ inl raw
        | inr held ↦ inr (versioned (fill pt s), held, pw, fill-keys id pt s)
      ])
      (migrate-AllSafe o pass (fill pt s) h c pt s law refl).each
  where
    pw :
        password (versioned (fill pt s)) id
        ≡ over (last_password id (entries h.listing)) (password s id)
    pw =
        fill-password id pt s
        ∙ ap (λ q. over q (password s id))
            (subst (Finds id (last_password id (entries h.listing))) found
              (scan_plaintext-Finds y reads h id h.listing n refl))
