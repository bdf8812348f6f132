-- ===== src/Config/Bundle/Apply/Undo.antt =====
-- That a pull can be undone, wherever it stops.
use tui_ssh_client.Prelude.{
  ◌≡◌, ◌≢◌, refl, sym, ap, subst, inl, inr, ◌⊎◌, Bool, true, false, not, List, [], Option, none,
  some, All, All-mono, ltb, if_both,
}
use tui_ssh_client.Config.Writes.{and_then, and_then-kept, become, states, stop}
use tui_ssh_client.Prelude.Text.{Text}
use tui_ssh_client.Vault.Secrets.{Secrets}
use tui_ssh_client.Config.Store.{
  ServersFile, absent, blank, unparsable, holding, Disk, StoreError, save,
}
use tui_ssh_client.Config.VaultFile.{VaultCalls}
use tui_ssh_client.Config.Bundle.{Merged, merge_known_hosts}
use tui_ssh_client.Config.Bundle.Apply.{
  Bundle, Json, BundleError, Local, or_empty, Parsed, parsed, refused, supported, ApplyCalls, Pull,
  back_up_file, back_up_list, back_up, after_save, replace_list, write_known, merge_text,
  merge_read, merge_known, begin, apply_parsed, apply_bundle, known_text,
}

-- The list from before is there, or there was none, or the copy is it.
abbrev pub CanUndo : Local → Local → Type 0
CanUndo d x = (x.listing ≡ d.listing) ⊎ (d.listing ≡ absent) ⊎ (x.backup ≡ some d.listing)

-- known_hosts from before, or its union with the lines that came.
abbrev pub KnowsHosts : Local → Text → Local → Type 0
KnowsHosts d theirs x =
    (x.known ≡ d.known) ⊎ (x.known ≡ some (merge_known_hosts (or_empty d.known) theirs).text)

abbrev IsRaw : Local → Local → Type 0
IsRaw d x = (x.listing ≡ d.listing) × (x.known ≡ d.known) × (x.vault ≡ d.vault)

abbrev pub IsSafe : Local → Text → Local → Type 0
IsSafe d theirs x = CanUndo d x × KnowsHosts d theirs x × (x.vault ≡ d.vault)

-- The states up to the copy, and the copy is made unless there is an error.
record Early (d : Local) (r : Pull) : Type 0 where
  raw : All (IsRaw d) (states r)
  copied : (r.err ≢ none) ⊎ (d.listing ≡ absent) ⊎ (r.now.backup ≡ some d.listing)

back_up_file-Early :
    (c : ApplyCalls) (d : Local) (r : Pull)
    → r.now ≡ d
    → All (IsRaw d) (states r)
    → Early d (back_up_file c r)
unfolding back_up_file become stop
back_up_file-Early c d r same raw =
    if_both (Early d) (not c.read_list) _ _ (record { raw = raw; copied = inl (λ q. cc) })
      (if_both (Early d) (not c.write_backup) _ _ (record { raw = raw; copied = inl (λ q. cc) })
        (record { raw = (raw.0, raw); copied = inr (inr (ap (λ x. some x.listing) same)) }))

back_up-Early :
    (c : ApplyCalls) (d : Local) (r : Pull) (f : ServersFile)
    → d.listing ≡ f
    → r.now ≡ d
    → All (IsRaw d) (states r)
    → Early d (back_up_list c f r)
unfolding back_up_list
back_up-Early c d r absent e same raw = record { raw = raw; copied = inr (inl e) }
back_up-Early c d r blank e same raw = back_up_file-Early c d r same raw
back_up-Early c d r unparsable e same raw = back_up_file-Early c d r same raw
back_up-Early c d r (holding ss) e same raw = back_up_file-Early c d r same raw

record Late (d : Local) (theirs : Text) (r : Pull) : Type 0 where
  safe : All (IsSafe d theirs) (states r)
  known : r.now.known ≡ d.known

raw-IsSafe :
    (d : Local) (theirs : Text) (xs : List Local) → All (IsRaw d) xs → All (IsSafe d theirs) xs
raw-IsSafe d theirs xs a =
    All-mono (IsRaw d) (IsSafe d theirs) xs (λ x r. (inl r.0, inl r.1, r.2)) a

after_save-Late :
    (b : Bundle) (d : Local) (theirs : Text) (v : Disk × Option StoreError) (r : Pull)
    → Early d r
    → (d.listing ≡ absent) ⊎ (r.now.backup ≡ some d.listing)
    → Late d theirs (after_save b v r)
unfolding after_save become stop
after_save-Late b d theirs (f, some e) r a copied = record {
  safe = raw-IsSafe d theirs (states r) a.raw;
  known = a.raw.0.1;
}
after_save-Late b d theirs (f, none) r a copied = record {
  safe = ((inr copied, inl a.raw.0.1, a.raw.0.2), raw-IsSafe d theirs (states r) a.raw);
  known = a.raw.0.1;
}

pub record Undoable (d : Local) (theirs : Text) (r : Pull) : Type 0 where
  pub each : All (IsSafe d theirs) (states r)

write_known-Undoable :
    (y : VaultCalls) (d : Local) (theirs : Text) (r : Pull)
    → Undoable d theirs r
    → Undoable d theirs (write_known y (merge_known_hosts (or_empty d.known) theirs).text r)
unfolding write_known become stop
write_known-Undoable y d theirs r u =
    let P : Pull → Type 0 = Undoable d theirs in
    if_both P (not y.mkdir) _ _ (record { each = u.each })
      (if_both P (not y.write) _ _ (record { each = u.each })
        (if_both P (not y.chmod) _ _ (record { each = u.each })
          (if_both P (not y.rename) _ _ (record { each = u.each })
            (record { each = ((u.each.0.0, inr refl, u.each.0.2), u.each) }))))

merge_text-Undoable :
    (c : ApplyCalls) (d : Local) (theirs : Text) (m : Merged) (r : Pull)
    → m ≡ merge_known_hosts (or_empty d.known) theirs
    → Undoable d theirs r
    → Undoable d theirs (merge_text c m r)
unfolding merge_text
merge_text-Undoable c d theirs m r e u =
    subst (λ x. Undoable d theirs (merge_text c x r)) (sym e)
      (if_both (Undoable d theirs) (ltb 0 (merge_known_hosts (or_empty d.known) theirs).added) _ _
        (write_known-Undoable c.known d theirs _ (record { each = u.each }))
        (record { each = u.each }))

known_text-or_empty :
    (b : Bool) (k : Option Text) → (known_text b k ≡ none) ⊎ (known_text b k ≡ some (or_empty k))
known_text-or_empty b none = inr refl
known_text-or_empty true (some t) = inr refl
known_text-or_empty false (some t) = inl refl

merge_known-Undoable :
    (c : ApplyCalls) (d : Local) (theirs : Text) (r : Pull)
    → Late d theirs r
    → Undoable d theirs (merge_known c theirs r)
unfolding merge_known merge_read stop
merge_known-Undoable c d theirs r l = elim (known_text-or_empty c.read_known r.now.known) [
  | inl e ↦ rw e (record { each = l.safe })
  | inr e ↦ rw e (
      merge_text-Undoable c d theirs _ r (ap (λ k. merge_known_hosts (or_empty k) theirs) l.known)
        (record { each = l.safe }))
]

apply_parsed-Undoable :
    (c : ApplyCalls) (b : Bundle) (sec : Secrets) (d : Local)
    → Undoable d b.known_hosts (apply_parsed c (parsed b) (begin sec d))
unfolding apply_parsed begin back_up replace_list
apply_parsed-Undoable c b sec d =
    let r = begin sec d in
    let e = back_up-Early c d r d.listing refl refl ((refl, refl, refl), tt) in
    let P : Pull → Type 0 = Undoable d b.known_hosts in
    let t = back_up c r in
    let raw : P t = record { each = raw-IsSafe d b.known_hosts (states t) e.raw } in
    and_then-kept P t (λ x. and_then (replace_list c b x) (merge_known c b.known_hosts)) raw
      (λ q.
        let copied : (d.listing ≡ absent) ⊎ (t.now.backup ≡ some d.listing) = elim e.copied [
          | inl bad ↦ absurd (bad q)
          | inr good ↦ good
        ] in
        let l =
          after_save-Late b d b.known_hosts
            (save c.list b.servers (record { servers = t.now.listing; keys = [] })) t e copied in
        and_then-kept P (replace_list c b t) (merge_known c b.known_hosts)
          (record { each = l.safe })
          (λ p. merge_known-Undoable c d b.known_hosts (replace_list c b t) l))

-- However far ApplyBundle gets and wherever it fails: if the bundle does not parse or is of a newer
-- version, nothing is touched; else at every moment the list from before is in its place or in the copy
-- (unless there was none), known_hosts is what it was or its union with the lines of the bundle in which
-- ours win, and the vault is what it was.
pub pull_undoable :
    (j : Json) (c : ApplyCalls) (blob : Text) (sec : Secrets) (d : Local)
    → ((e : BundleError) × (supported (j.read blob) ≡ refused e)
        × (apply_bundle j c blob sec d ≡ record (begin sec d) { err = some e }))
      ⊎ ((b : Bundle) × (supported (j.read blob) ≡ parsed b)
          × All
              (λ x.
                ((x.listing ≡ d.listing) ⊎ (d.listing ≡ absent) ⊎ (x.backup ≡ some d.listing))
                × ((x.known ≡ d.known)
                    ⊎ (x.known ≡ some (merge_known_hosts (or_empty d.known) b.known_hosts).text))
                × (x.vault ≡ d.vault))
              (states (apply_bundle j c blob sec d)))
unfolding apply_bundle apply_parsed stop
pull_undoable j c blob sec d = helper (supported (j.read blob)) refl
  where
    helper :
        (p : Parsed)
        → supported (j.read blob) ≡ p
        → ((e : BundleError) × (supported (j.read blob) ≡ refused e)
            × (apply_parsed c p (begin sec d) ≡ record (begin sec d) { err = some e }))
          ⊎ ((b : Bundle) × (supported (j.read blob) ≡ parsed b)
              × All (IsSafe d b.known_hosts) (states (apply_parsed c p (begin sec d))))
    helper (refused e) q = inl (e, q, refl)
    helper (parsed b) q = inr (b, q, (apply_parsed-Undoable c b sec d).each)
