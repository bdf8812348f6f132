-- ===== src/Config/Bundle/Apply/Travels.antt =====
-- A bundle that is made on one machine and applied on another.
use tui_ssh_client.Prelude.{
  ℕ, ◌≡◌, refl, sym, ap, ◌∙◌, subst, ◌⊎◌, Bool, true, false, List, Option, none, some, map, length,
}
use tui_ssh_client.Prelude.Text.{Text}
use tui_ssh_client.Model.Server.{Server}
use tui_ssh_client.Vault.Secrets.{Secrets}
use tui_ssh_client.Config.Store.{holding, System, Result, failed, ok, load, stored}
use tui_ssh_client.Config.VaultFile.{versioned}
use tui_ssh_client.Config.Bundle.{merge_known_hosts}
use tui_ssh_client.Config.VaultFile.{versioned_twice}
use tui_ssh_client.Config.Bundle.Apply.{
  Bundle, bundle_version, Json, Reads, Local, or_empty, Packed, packed, not_packed, known_text,
  pack_known, pack_list, bundle, parsed, supported, ApplyCalls, Pull, begin, apply_parsed,
  apply_bundle,
}
use tui_ssh_client.Config.Bundle.Apply.Applied.{stored_twice, length-stored, apply_parsed-Applied}

-- What Bundle packs is what was there.
pack-holds :
    (sec : Secrets) (now : ℕ) (device : Text) (d : Local) (b : Bundle) (read : Bool)
    (r : Result (List Server))
    → pack_list sec now device (known_text read d.known) r ≡ packed b
    → (r ≡ ok b.servers)
      × (b.secrets ≡ versioned sec)
      × (b.known_hosts ≡ or_empty d.known)
      × (b.version ≡ bundle_version)
unfolding pack_list pack_known
pack-holds sec now device d b read (failed e) h = absurd (cc)
pack-holds sec now device d b read (ok ss) h = helper read d.known h
  where
    the : Packed → Bundle
    the (packed x) = x
    the (not_packed e) = b

    helper :
        (read : Bool) (o : Option Text)
        → pack_known sec now device ss (known_text read o) ≡ packed b
        → (ok ss ≡ ok b.servers)
          × (b.secrets ≡ versioned sec)
          × (b.known_hosts ≡ or_empty o)
          × (b.version ≡ bundle_version)
    helper read none h = (
      ap (λ x. ok (the x).servers) h,
      sym (ap (λ x. (the x).secrets) h),
      sym (ap (λ x. (the x).known_hosts) h),
      sym (ap (λ x. (the x).version) h),
    )
    helper true (some t) h = (
      ap (λ x. ok (the x).servers) h,
      sym (ap (λ x. (the x).secrets) h),
      sym (ap (λ x. (the x).known_hosts) h),
      sym (ap (λ x. (the x).version) h),
    )
    helper false (some t) h = absurd (cc)

servers_of : List Server → Result (List Server) → List Server
servers_of d (ok ss) = ss
servers_of d (failed e) = d

-- A bundle that was made on one machine and is applied on another without an error: its list is then
-- that of the first machine, without the secrets that no list has, the secrets are those it was made
-- with, and known_hosts is the union of both, with the same conflicts that are reported.
pub bundle_travels :
    (j : Json) (y : System) (read : Bool) (now : ℕ) (device : Text) (mine : Secrets) (here : Local)
    (b : Bundle) (ss : List Server) (c : ApplyCalls) (theirs : Secrets) (there : Local)
    → Reads j
    → load y here.listing ≡ ok ss
    → bundle y read now device mine here ≡ packed b
    → (apply_bundle j c (j.write b) theirs there).err ≡ none
    → let r = apply_bundle j c (j.write b) theirs there in
      let m = merge_known_hosts (or_empty there.known) (or_empty here.known) in
      (r.now.listing ≡ holding (map stored ss))
      × (r.secrets ≡ versioned mine)
      × (r.report.servers ≡ length ss)
      × (r.report.conflicts ≡ m.conflicts)
      × ((m.added ≡ 0) × (r.now.known ≡ there.known) ⊎ (r.now.known ≡ some m.text))
unfolding apply_bundle bundle servers_of
bundle_travels j y read now device mine here b ss c theirs there law loaded made done =
    let f = pack-holds mine now device here b read (load y here.listing) made in
    let got : Bundle = record b { servers = map stored b.servers } in
    let arrived : supported (j.read (j.write b)) ≡ parsed got =
      ap supported (law.reads b) ∙ rw f.3 refl in
    let a =
      apply_parsed-Applied c got theirs there
        (ap (λ p. (apply_parsed c p (begin theirs there)).err) (sym arrived) ∙ done) in
    let same : b.servers ≡ ss = ap (servers_of ss) (sym f.0 ∙ loaded) in
    let r_is : apply_parsed c (supported (j.read (j.write b))) (begin theirs there)
        ≡ apply_parsed c (parsed got) (begin theirs there) =
      ap (λ p. apply_parsed c p (begin theirs there)) arrived in
    (
      ap (λ r. r.now.listing) r_is
          ∙ (a.listing ∙ ap holding (stored_twice b.servers ∙ ap (map stored) same)),
      ap (λ r. r.secrets) r_is ∙ (a.secrets ∙ (ap versioned f.1 ∙ versioned_twice mine)),
      ap (λ r. r.report.servers) r_is ∙ (a.servers ∙ (length-stored b.servers ∙ ap length same)),
      ap (λ r. r.report.conflicts) r_is
          ∙ (a.conflicts ∙ ap (λ k. (merge_known_hosts (or_empty there.known) k).conflicts) f.2),
      subst
          (λ k.
            ((merge_known_hosts (or_empty there.known) k).added ≡ 0)
              × ((apply_parsed c (supported (j.read (j.write b))) (begin theirs there)).now.known
                  ≡ there.known)
            ⊎ ((apply_parsed c (supported (j.read (j.write b))) (begin theirs there)).now.known
                ≡ some (merge_known_hosts (or_empty there.known) k).text))
          f.2
          (subst
            (λ (r : Pull).
              ((merge_known_hosts (or_empty there.known) b.known_hosts).added ≡ 0)
                × (r.now.known ≡ there.known)
              ⊎ (r.now.known ≡ some (merge_known_hosts (or_empty there.known) b.known_hosts).text))
            (sym r_is) a.known),
    )
