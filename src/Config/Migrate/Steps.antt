-- ===== src/Config/Migrate/Steps.antt =====
-- What each step of a move that succeeds leaves behind.
use tui_ssh_client.Prelude.{
  ◌≡◌, ◌≢◌, refl, ◌∙◌, inl, inr, ◌⊎◌, false, not, ◌&&◌, List, [], ◌∷◌, Option, none, some, All, map,
  arith, Bool-cases, if_both, if_cases,
}
use tui_ssh_client.Config.Writes.{become, stop}
use tui_ssh_client.Prelude.Text.{Text, text_eq_iff}
use tui_ssh_client.Prelude.Dict.{Dict, lookup, erase, lookup-erase}
use tui_ssh_client.Model.Server.{Server}
use tui_ssh_client.Vault.Secrets.{Secrets}
use tui_ssh_client.Config.Store.{
  ServersFile, holding, System, Result, failed, ok, Disk, StoreError, load, save, stored,
}
use tui_ssh_client.Config.Store.Kept.{IsBare}
use tui_ssh_client.Config.VaultFile.{
  Outside, VaultError, Promises, Holds, Saves, save_secrets-Saves, save_secrets,
}
use tui_ssh_client.Config.Migrate.{
  Home, Plaintext, MigrateCalls, Run, has_bytes, is_absent, back_up, fill, after_seal, seal_vault,
  after_save, rewrite, rewrite_list, decoded, remove_keys, unmark, clear_moved,
}

-- An entry without secrets, and without the path of a key that has moved.
abbrev pub IsClean : Plaintext → Server → Type 0
IsClean pt s = IsBare s × ((lookup s.id pt.keys ≡ none) ⊎ (s.key_path ≡ []))

abbrev pub IsCleanList : Plaintext → ServersFile → Type 0
IsCleanList pt (holding ss) = All (IsClean pt) ss
IsCleanList pt _ = ⊥

clear_moved-id : (pt : Plaintext) (s : Server) → IsClean pt (stored (clear_moved pt s))
unfolding clear_moved stored
clear_moved-id pt s = helper (lookup s.id pt.keys) refl
  where
    helper :
        (o : Option Text)
        → lookup s.id pt.keys ≡ o
        → IsClean pt (stored (elim o [ none ↦ s | some pem ↦ record s { key_path = [] } ]))
    helper none e = ((refl, refl, refl), inl e)
    helper (some pem) e = ((refl, refl, refl), inr refl)

cleared :
    (pt : Plaintext) (ss : List Server) → All (IsClean pt) (map stored (map (clear_moved pt) ss))
cleared pt [] = tt
cleared pt (s ∷ ss) = (clear_moved-id pt s, cleared pt ss)

-- What is the same in the files of two runs.
pub record Same (h x : Home) : Type 0 where
  pub listing : x.listing ≡ h.listing
  pub backup : x.backup ≡ h.backup
  pub vault : x.vault ≡ h.vault

-- Saved the list, and touched neither backup nor vault.
pub record Rewritten (pt : Plaintext) (r t : Run) : Type 0 where
  pub backup : t.now.backup ≡ r.now.backup
  pub vault : t.now.vault ≡ r.now.vault
  pub clean : (t.err ≢ none) ⊎ IsCleanList pt t.now.listing

after_save-Rewritten :
    (pt : Plaintext) (d : Disk × Option StoreError) (r : Run)
    → (d.1 ≢ none) ⊎ IsCleanList pt d.0.servers
    → Rewritten pt r (after_save d r)
unfolding after_save become stop
after_save-Rewritten pt (d, some e) r c = record {
  backup = refl;
  vault = refl;
  clean = inl (λ q. cc);
}
after_save-Rewritten pt (d, none) r (inl n) = absurd (n refl)
after_save-Rewritten pt (d, none) r (inr c) = record { backup = refl; vault = refl; clean = inr c }

save-clean :
    (pt : Plaintext) (y : System) (ss : List Server) (d : Disk)
    → ((save y (map (clear_moved pt) ss) d).1 ≢ none)
      ⊎ IsCleanList pt (save y (map (clear_moved pt) ss) d).0.servers
unfolding save
save-clean pt y ss d =
    let P : Disk × Option StoreError → Type 0 = λ x. (x.1 ≢ none) ⊎ IsCleanList pt x.0.servers in
    if_both P (not y.mkdir) _ _ (inl (λ q. cc)) (
      if_both P (not y.write) _ _ (inl (λ q. cc))
        (if_both P (not y.rename) _ _ (inl (λ q. cc)) (inr (cleared pt ss))))

rewrite-Rewritten :
    (c : MigrateCalls) (pt : Plaintext) (ss : Result (List Server)) (r : Run)
    → Rewritten pt r (rewrite c pt ss r)
unfolding rewrite stop
rewrite-Rewritten c pt (failed e) r = record { backup = refl; vault = refl; clean = inl (λ q. cc) }
rewrite-Rewritten c pt (ok ss) r =
    after_save-Rewritten pt
      (save c.list (map (clear_moved pt) ss) (record { servers = r.now.listing; keys = [] })) r
      (save-clean pt c.list ss _)

pub remove_keys-Same :
    (c : MigrateCalls) (m : Dict Text) (r : Run) → Same r.now (remove_keys c m r).now
unfolding remove_keys become stop
remove_keys-Same c [] r = record { listing = refl; backup = refl; vault = refl }
remove_keys-Same c ((id, path) ∷ m) r = elim (Bool-cases (c.removes path)) [
  | inl h ↦
      let k =
        remove_keys-Same c m (become (record r.now { key_files = erase path r.now.key_files }) r) in
      rw h (record { listing = k.listing; backup = k.backup; vault = k.vault })
  | inr h ↦ rw h (record { listing = refl; backup = refl; vault = refl })
]

remove_keys-stays :
    (c : MigrateCalls) (m : Dict Text) (r : Run) (p : Text)
    → lookup p r.now.key_files ≡ none
    → lookup p (remove_keys c m r).now.key_files ≡ none
unfolding remove_keys become stop
remove_keys-stays c [] r p e = e
remove_keys-stays c ((id, path) ∷ m) r p e =
    let k =
      remove_keys-stays c m (become (record r.now { key_files = erase path r.now.key_files }) r) p
        (lookup-erase path p r.now.key_files ∙ ground (arith, e)) in
    if_both (λ (t : Run). lookup p t.now.key_files ≡ none) (not (c.removes path)) _ _ e k

pub remove_keys-gone :
    (c : MigrateCalls) (m : Dict Text) (r : Run)
    → (remove_keys c m r).err ≡ none
    → All (λ e. lookup e.1 (remove_keys c m r).now.key_files ≡ none) m
unfolding remove_keys become stop
remove_keys-gone c [] r = λ e. tt
remove_keys-gone c ((id, path) ∷ m) r =
    let t = become (record r.now { key_files = erase path r.now.key_files }) r in
    if_both
      (λ (u : Run). u.err ≡ none → All (λ e. lookup e.1 u.now.key_files ≡ none) ((id, path) ∷ m))
      (not (c.removes path)) _ _ (λ e. absurd (cc))
      (λ e. (
        remove_keys-stays c m t path
            (lookup-erase path path r.now.key_files ∙ ground (arith, text_eq_iff path path)),
        remove_keys-gone c m t e,
      ))

pub unmark-Same : (c : MigrateCalls) (r : Run) → Same r.now (unmark c r).now
unfolding unmark become
unmark-Same c r =
    if_both (λ (t : Run). Same r.now t.now) c.unmarks _ _
      (record { listing = refl; backup = refl; vault = refl })
      (record { listing = refl; backup = refl; vault = refl })

pub unmark-key_files : (c : MigrateCalls) (r : Run) → (unmark c r).now.key_files ≡ r.now.key_files
unfolding unmark become
unmark-key_files c r =
    if_both (λ (t : Run). t.now.key_files ≡ r.now.key_files) c.unmarks _ _ refl refl

pub back_up-backup :
    (c : MigrateCalls) (r : Run)
    → ((back_up c r).err ≢ none)
      ⊎ (has_bytes c r.now.listing ≡ false)
      ⊎ ((back_up c r).now.backup ≡ some r.now.listing)
unfolding back_up become stop
back_up-backup c r =
    let P : Run → Type 0 = λ t.
      (t.err ≢ none) ⊎ (has_bytes c r.now.listing ≡ false) ⊎ (t.now.backup ≡ some r.now.listing) in
    if_both P (not c.read && not (is_absent r.now.listing)) _ _ (inl (λ q. cc)) (
      if_cases P (not (has_bytes c r.now.listing)) _ _ (λ h. inr (inl (ground (arith, h))))
        (λ h.
          if_both P (not c.write_backup) _ _ (inl (λ q. cc))
            (if_both P (not c.chmod_backup) _ _ (inl (λ q. cc)) (inr (inr refl)))))

after_seal-backup :
    (pt : Plaintext) (v : Option Text × Option VaultError) (r : Run)
    → (after_seal pt v r).now.backup ≡ r.now.backup
unfolding after_seal become stop
after_seal-backup pt (f, none) r = refl
after_seal-backup pt (f, some e) r = refl

after_seal-Holds :
    (o : Outside) (pass : Text) (full : Secrets) (file : Option Text) (pt : Plaintext)
    (v : Option Text × Option VaultError) (r : Run)
    → Saves o pass full file v
    → (after_seal pt v r).err ≡ none
    → Holds o pass full (after_seal pt v r).now.vault
unfolding after_seal become stop
after_seal-Holds o pass full file pt (f, none) r s e = s
after_seal-Holds o pass full file pt (f, some x) r s e = absurd (cc)

pub seal_vault-backup :
    (o : Outside) (c : MigrateCalls) (pt : Plaintext) (s : Secrets) (pass : Text) (r : Run)
    → (seal_vault o c pt s pass r).now.backup ≡ r.now.backup
unfolding seal_vault
seal_vault-backup o c pt s pass r =
    after_seal-backup pt (save_secrets o c.vault (fill pt s) pass r.now.vault)
      (record r { secrets = some (fill pt s) })

pub seal_vault-Holds :
    (o : Outside) (c : MigrateCalls) (pt : Plaintext) (s : Secrets) (pass : Text) (r : Run)
    → Promises o
    → (seal_vault o c pt s pass r).err ≡ none
    → Holds o pass (fill pt s) (seal_vault o c pt s pass r).now.vault
unfolding seal_vault
seal_vault-Holds o c pt s pass r law e =
    after_seal-Holds o pass (fill pt s) r.now.vault pt
      (save_secrets o c.vault (fill pt s) pass r.now.vault)
      (record r { secrets = some (fill pt s) })
      (save_secrets-Saves o c.vault (fill pt s) pass r.now.vault law) e

pub rewrite_list-Rewritten :
    (c : MigrateCalls) (pt : Plaintext) (r : Run) → Rewritten pt r (rewrite_list c pt r)
unfolding rewrite_list
rewrite_list-Rewritten c pt r =
    rewrite-Rewritten c pt (decoded c.decodes (load c.list r.now.listing)) r
