-- ===== src/Config/Bundle/Apply/Applied.antt =====
-- What a pull that goes through leaves on this machine.
use tui_ssh_client.Prelude.{
  ℕ, suc, ◌≡◌, ◌≢◌, refl, sym, ap, ◌∙◌, subst, inl, inr, ◌⊎◌, Bool, true, false, not, List, [], ◌∷◌,
  Option, none, some, map, ltb, arith, length, if_both, if_cases,
}
use tui_ssh_client.Config.Writes.{and_then-both, become, stop}
use tui_ssh_client.Prelude.Text.{Text}
use tui_ssh_client.Model.Server.{Server}
use tui_ssh_client.Vault.Secrets.{Secrets}
use tui_ssh_client.Config.Store.{
  absent, blank, unparsable, ServersFile, holding, System, Disk, StoreError, stored, save,
}
use tui_ssh_client.Config.VaultFile.{VaultCalls, versioned}
use tui_ssh_client.Config.Bundle.{Merged, merge_known_hosts}
use tui_ssh_client.Config.Bundle.Apply.{
  Bundle, BundleError, Local, or_empty, known_text, parsed, ApplyCalls, Pull, back_up, after_save,
  replace_list, write_known, merge_text, merge_read, merge_known, begin, apply_parsed, back_up_file,
  back_up_list,
}

pub stored_twice : (ss : List Server) → map stored (map stored ss) ≡ map stored ss
unfolding stored
stored_twice [] = refl
stored_twice (s ∷ ss) = ap (λ ts. stored s ∷ ts) (stored_twice ss)

pub length-stored : (ss : List Server) → length (map stored ss) ≡ length ss
length-stored [] = refl
length-stored (s ∷ ss) = ap (λ n. suc n) (length-stored ss)

save-listing :
    (y : System) (ss : List Server) (d : Disk)
    → ((save y ss d).1 ≢ none) ⊎ ((save y ss d).0.servers ≡ holding (map stored ss))
unfolding save
save-listing y ss d =
    let P : Disk × Option StoreError → Type 0 =
      λ x. (x.1 ≢ none) ⊎ (x.0.servers ≡ holding (map stored ss)) in
    if_both P (not y.mkdir) _ _ (inl (λ q. cc)) (
      if_both P (not y.write) _ _ (inl (λ q. cc))
        (if_both P (not y.rename) _ _ (inl (λ q. cc)) (inr refl)))

-- The list and the secrets are those of the bundle, and known_hosts stays.
record Replaced (b : Bundle) (r t : Pull) : Type 0 where
  listing : t.now.listing ≡ holding (map stored b.servers)
  secrets : t.secrets ≡ versioned b.secrets
  servers : t.report.servers ≡ length b.servers
  known : t.now.known ≡ r.now.known

after_save-Replaced :
    (b : Bundle) (v : Disk × Option StoreError) (r : Pull)
    → (v.1 ≢ none) ⊎ (v.0.servers ≡ holding (map stored b.servers))
    → r.err ≡ none
    → (after_save b v r).err ≡ none
    → Replaced b r (after_save b v r)
unfolding after_save become stop
after_save-Replaced b (d, some e) r w n h = absurd (cc)
after_save-Replaced b (d, none) r (inl bad) n h = absurd (bad refl)
after_save-Replaced b (d, none) r (inr good) n h = record {
  listing = good;
  secrets = refl;
  servers = refl;
  known = refl;
}

-- What a merge reports and leaves, as far as known_hosts is not concerned.
record Told (m : Merged) (r t : Pull) : Type 0 where
  listing : t.now.listing ≡ r.now.listing
  secrets : t.secrets ≡ r.secrets
  servers : t.report.servers ≡ r.report.servers
  conflicts : t.report.conflicts ≡ m.conflicts

-- The merge is written where a line is new.
record Joined (m : Merged) (r t : Pull) : Type 0 where
  told : Told m r t
  known : (t.err ≢ none) ⊎ (m.added ≡ 0) × (t.now.known ≡ r.now.known) ⊎ (t.now.known ≡ some m.text)

stop-Joined : (e : BundleError) (m : Merged) (r t : Pull) → Told m r t → Joined m r (stop e t)
unfolding stop
stop-Joined e m r t j = record {
  told = record {
    listing = j.listing;
    secrets = j.secrets;
    servers = j.servers;
    conflicts = j.conflicts;
  };
  known = inl (λ q. cc);
}

write_known-Joined :
    (y : VaultCalls) (m : Merged) (r t : Pull) → Told m r t → Joined m r (write_known y m.text t)
unfolding write_known become
write_known-Joined y m r t j =
    let P : Pull → Type 0 = Joined m r in
    if_both P (not y.mkdir) _ _ (stop-Joined _ m r t j) (
      if_both P (not y.write) _ _ (stop-Joined _ m r t j) (
        if_both P (not y.chmod) _ _ (stop-Joined _ m r t j) (
          if_both P (not y.rename) _ _ (stop-Joined _ m r t j) (record {
            told = record {
              listing = j.listing;
              secrets = j.secrets;
              servers = j.servers;
              conflicts = j.conflicts;
            };
            known = inr (inr refl);
          }))))

none_added : (n : ℕ) → ltb 0 n ≡ false → n ≡ 0
none_added n h = ground arith

merge_text-Joined : (c : ApplyCalls) (m : Merged) (r : Pull) → Joined m r (merge_text c m r)
unfolding merge_text
merge_text-Joined c m r =
    let told : Pull = record r {
      report = record r.report { kept = m.kept; added = m.added; conflicts = m.conflicts };
    } in
    let facts : Told m r told = record {
      listing = refl;
      secrets = refl;
      servers = refl;
      conflicts = refl;
    } in
    if_cases (Joined m r) (ltb 0 m.added) _ _ (λ h. write_known-Joined c.known m r told facts)
      (λ h. record { told = facts; known = inr (inl (none_added m.added h, refl)) })

merge_read-Joined :
    (c : ApplyCalls) (theirs : Text) (ours : Option Text) (r : Pull) (k : Option Text)
    → known_text c.read_known ours ≡ k
    → (merge_read c theirs k r).err ≡ none
    → Joined (merge_known_hosts (or_empty ours) theirs) r (merge_read c theirs k r)
unfolding merge_read stop
merge_read-Joined c theirs ours r none e h = absurd (cc)
merge_read-Joined c theirs ours r (some t) e h =
    subst (λ x. Joined (merge_known_hosts x theirs) r (merge_text c (merge_known_hosts t theirs) r))
      (was_read c.read_known ours t e) (merge_text-Joined c (merge_known_hosts t theirs) r)
  where
    was_read : (b : Bool) (o : Option Text) (t : Text) → known_text b o ≡ some t → t ≡ or_empty o
    was_read b none t e = cc
    was_read true (some u) t e = cc
    was_read false (some u) t e = absurd (cc)

pub record Applied (b : Bundle) (d : Local) (r : Pull) : Type 0 where
  pub listing : r.now.listing ≡ holding (map stored b.servers)
  pub secrets : r.secrets ≡ versioned b.secrets
  pub servers : r.report.servers ≡ length b.servers
  pub conflicts :
      r.report.conflicts ≡ (merge_known_hosts (or_empty d.known) b.known_hosts).conflicts
  pub known :
      ((merge_known_hosts (or_empty d.known) b.known_hosts).added ≡ 0) × (r.now.known ≡ d.known)
      ⊎ (r.now.known ≡ some (merge_known_hosts (or_empty d.known) b.known_hosts).text)

back_up_file-known : (c : ApplyCalls) (r : Pull) → (back_up_file c r).now.known ≡ r.now.known
unfolding back_up_file become stop
back_up_file-known c r =
    let P : Pull → Type 0 = λ t. t.now.known ≡ r.now.known in
    if_both P (not c.read_list) _ _ refl (if_both P (not c.write_backup) _ _ refl refl)

back_up_list-known :
    (c : ApplyCalls) (f : ServersFile) (r : Pull) → (back_up_list c f r).now.known ≡ r.now.known
unfolding back_up_list
back_up_list-known c absent r = refl
back_up_list-known c blank r = back_up_file-known c r
back_up_list-known c unparsable r = back_up_file-known c r
back_up_list-known c (holding ss) r = back_up_file-known c r

pub apply_parsed-Applied :
    (c : ApplyCalls) (b : Bundle) (sec : Secrets) (d : Local)
    → (apply_parsed c (parsed b) (begin sec d)).err ≡ none
    → Applied b d (apply_parsed c (parsed b) (begin sec d))
unfolding apply_parsed begin back_up replace_list merge_known
apply_parsed-Applied c b sec d h =
    let t = back_up c (begin sec d) in
    let v = save c.list b.servers (record { servers = t.now.listing; keys = [] }) in
    let u = replace_list c b t in
    let w = merge_known c b.known_hosts u in
    let q = and_then-both t (replace_list c b) (merge_known c b.known_hosts) h in
    let end : apply_parsed c (parsed b) (begin sec d) ≡ w = q.2 in
    let a = after_save-Replaced b v t (save-listing c.list b.servers _) q.0 q.1 in
    let known : u.now.known ≡ d.known = a.known ∙ back_up_list-known c d.listing (begin sec d) in
    let j =
      merge_read-Joined c b.known_hosts u.now.known u (known_text c.read_known u.now.known) refl
        (ap (λ x. x.err) (sym end) ∙ h) in
    subst (Applied b d) (sym end) (record {
      listing = j.told.listing ∙ a.listing;
      secrets = j.told.secrets ∙ a.secrets;
      servers = j.told.servers ∙ a.servers;
      conflicts =
          j.told.conflicts
          ∙ ap (λ k. (merge_known_hosts (or_empty k) b.known_hosts).conflicts) known;
      known = elim j.known [
        | inl bad ↦ absurd (bad (ap (λ x. x.err) (sym end) ∙ h))
        | inr (inl (n, k)) ↦ inl (
          ap (λ k. (merge_known_hosts (or_empty k) b.known_hosts).added) (sym known) ∙ n,
          k ∙ known,
        )
        | inr (inr k) ↦
            inr (k ∙ ap (λ o. some (merge_known_hosts (or_empty o) b.known_hosts).text) known)
      ];
    })
