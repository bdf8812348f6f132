-- ===== src/Config/Migrate/Trace.antt =====
-- What each step of Migrate does to the files, as they are after each change: up to the sealing of
-- the vault nothing is touched, and from then on the vault stays.
use tui_ssh_client.Prelude.{
  ◌&&◌, map, ◌≡◌, refl, sym, subst, inl, inr, ◌⊎◌, not, List, [], ◌∷◌, Option, none, some, All,
  if_both, ◌≢◌, All-mono,
}
use tui_ssh_client.Config.Writes.{and_then, and_then-kept, become, states, stop}
use tui_ssh_client.Prelude.Text.{Text}
use tui_ssh_client.Prelude.Dict.{Dict}
use tui_ssh_client.Vault.Secrets.{Secrets}
use tui_ssh_client.Config.Store.{Result, failed, ok, Disk, StoreError, save, load}
use tui_ssh_client.Config.VaultFile.{
  Outside, VaultError, Promises, save_secrets, Holds, Saves, save_secrets-Saves,
}
use tui_ssh_client.Config.Migrate.{
  Home, Plaintext, MigrateError, MigrateCalls, Run, back_up, fill, after_seal, seal_vault,
  after_save, rewrite, rewrite_list, decoded, remove_keys, unmark, start, move_secrets, move_if,
  migrate, any, is_absent, clear_moved, has_bytes, finish_move,
}
use tui_ssh_client.Model.Server.{Server}

-- The list, the key files and the vault are as they were.
abbrev pub IsRaw : Home → Home → Type 0
IsRaw h x = (x.listing ≡ h.listing) × (x.key_files ≡ h.key_files) × (x.vault ≡ h.vault)

module _ (o : Outside) (pass : Text) (full : Secrets) (h : Home) where
  abbrev pub IsSafe : Home → Type 0
  IsSafe x = IsRaw h x ⊎ Holds o pass full x.vault

  record Early (r : Run) : Type 0 where
    raw : All (IsRaw h) (states r)

  record Later (r : Run) : Type 0 where
    holds : Holds o pass full r.now.vault
    safe : All IsSafe (states r)

  become-Early : (r : Run) (x : Home) → Early r → IsRaw h x → Early (become x r)
  unfolding become
  become-Early r x e q = record { raw = (q, e.raw) }

  become-Later : (r : Run) (x : Home) → Later r → x.vault ≡ r.now.vault → Later (become x r)
  unfolding become
  become-Later r x l q =
      let held = subst (Holds o pass full) (sym q) l.holds in
      record { holds = held; safe = (inr held, l.safe) }

  stop-Later : (e : MigrateError) (r : Run) → Later r → Later (stop e r)
  unfolding stop
  stop-Later e r l = record { holds = l.holds; safe = l.safe }

  stop-Early : (e : MigrateError) (r : Run) → Early r → Early (stop e r)
  unfolding stop
  stop-Early e r l = record { raw = l.raw }

  raw-IsSafe : (xs : List Home) → All (IsRaw h) xs → All IsSafe xs
  raw-IsSafe xs a = All-mono (IsRaw h) IsSafe xs (λ x r. inl r) a

  back_up-Early : (c : MigrateCalls) (r : Run) → Early r → Early (back_up c r)
  unfolding back_up
  back_up-Early c r e =
      let copied = become-Early r (record r.now { backup = some r.now.listing }) e e.raw.0 in
      if_both Early (not c.read && not (is_absent r.now.listing)) _ _ (stop-Early _ r e) (
        if_both Early (not (has_bytes c r.now.listing)) _ _ e (
          if_both Early (not c.write_backup) _ _ (stop-Early _ r e) (
            if_both Early (not c.chmod_backup) _ _ (stop-Early _ _ copied)
              (record { raw = copied.raw }))))

  -- The vault was sealed, or there is an error and all is as it was.
  abbrev SealedOrStopped : Run → Type 0
  SealedOrStopped r = Later r ⊎ Early r × (r.err ≢ none)

  after_seal-Sealed :
      (pt : Plaintext) (v : Option Text × Option VaultError) (r : Run)
      → Saves o pass full r.now.vault v
      → Early r
      → SealedOrStopped (after_seal pt v r)
  unfolding after_seal become stop
  after_seal-Sealed pt (file, some x) r s e = inr (record { raw = e.raw }, λ q. cc)
  after_seal-Sealed pt (file, none) r s e =
      inl (record { holds = s; safe = (inr s, raw-IsSafe (states r) e.raw) })

  after_save-Later : (d : Disk × Option StoreError) (r : Run) → Later r → Later (after_save d r)
  unfolding after_save
  after_save-Later (d, some e) r l = stop-Later _ r l
  after_save-Later (d, none) r l = become-Later r _ l refl

  rewrite-Later :
      (c : MigrateCalls) (pt : Plaintext) (ss : Result (List Server)) (r : Run)
      → Later r
      → Later (rewrite c pt ss r)
  unfolding rewrite
  rewrite-Later c pt (failed e) r l = stop-Later _ r l
  rewrite-Later c pt (ok ss) r l =
      after_save-Later
        (save c.list (map (clear_moved pt) ss) (record { servers = r.now.listing; keys = [] })) r l

  remove_keys-Later :
      (c : MigrateCalls) (m : Dict Text) (r : Run) → Later r → Later (remove_keys c m r)
  unfolding remove_keys
  remove_keys-Later c [] r l = l
  remove_keys-Later c ((id, path) ∷ m) r l =
      if_both Later (not (c.removes path)) _ _ (stop-Later _ r l)
        (remove_keys-Later c m _ (become-Later r _ l refl))

  unmark-Later : (c : MigrateCalls) (r : Run) → Later r → Later (unmark c r)
  unfolding unmark
  unmark-Later c r l = if_both Later c.unmarks _ _ (become-Later r _ l refl) l

  pub record AllSafe (r : Run) : Type 0 where
    pub each : All IsSafe (states r)

  Early-AllSafe : (r : Run) → Early r → AllSafe r
  Early-AllSafe r e = record { each = raw-IsSafe (states r) e.raw }

  finish_move-Later :
      (c : MigrateCalls) (pt : Plaintext) (r : Run) → Later r → Later (finish_move c pt r)
  unfolding finish_move rewrite_list
  finish_move-Later c pt r l =
      let w = rewrite-Later c pt (decoded c.decodes (load c.list r.now.listing)) r l in
      and_then-kept Later (rewrite_list c pt r)
        (λ t. and_then (remove_keys c pt.key_files t) (unmark c)) w
        (λ e.
          let k = remove_keys-Later c pt.key_files (rewrite_list c pt r) w in
          and_then-kept Later _ (unmark c) k (λ f. unmark-Later c _ k))

  seal_vault-Sealed :
      (c : MigrateCalls) (pt : Plaintext) (s : Secrets) (r : Run)
      → Promises o
      → fill pt s ≡ full
      → Early r
      → SealedOrStopped (seal_vault o c pt s pass r)
  unfolding seal_vault
  seal_vault-Sealed c pt s r law f e =
      after_seal-Sealed pt _ (record r { secrets = some (fill pt s) })
        (subst (λ x. Saves o pass full r.now.vault (save_secrets o c.vault x pass r.now.vault))
          (sym f) (save_secrets-Saves o c.vault full pass r.now.vault law))
        (record { raw = e.raw })

  sealed_then :
      (r : Run) (f : Run → Run)
      → SealedOrStopped r
      → (Later r → Later (f r))
      → AllSafe (and_then r f)
  sealed_then r f (inl l) k =
      and_then-kept AllSafe r f (record { each = l.safe }) (λ e. record { each = (k l).safe })
  sealed_then r f (inr (e, n)) k = and_then-kept AllSafe r f (Early-AllSafe r e) (λ q. absurd (n q))

  move_secrets-AllSafe :
      (c : MigrateCalls) (pt : Plaintext) (s : Secrets) (r : Run)
      → Promises o
      → fill pt s ≡ full
      → Early r
      → AllSafe (move_secrets o c pt s pass r)
  unfolding move_secrets
  move_secrets-AllSafe c pt s r law f e =
      let b = back_up-Early c r e in
      and_then-kept AllSafe (back_up c r)
        (λ r1. and_then (seal_vault o c pt s pass r1) (finish_move c pt)) (Early-AllSafe _ b)
        (λ q.
          sealed_then (seal_vault o c pt s pass (back_up c r)) (finish_move c pt)
            (seal_vault-Sealed c pt s (back_up c r) law f b) (finish_move-Later c pt _))

  pub migrate-AllSafe :
      (c : MigrateCalls) (pt : Plaintext) (s : Secrets)
      → Promises o
      → fill pt s ≡ full
      → AllSafe (migrate o c pt (some s) pass h)
  unfolding migrate move_if start
  migrate-AllSafe c pt s law f =
      let e : Early (start (some s) h) = record { raw = ((refl, refl, refl), tt) } in
      if_both AllSafe (not (any pt)) _ _ (Early-AllSafe _ e)
        (move_secrets-AllSafe c pt s (start (some s) h) law f e)
