-- ===== src/Config/Bundle/Apply/Tests.antt =====
-- Witnesses for the properties of a pull: a machine with a list and a host key, and a bundle of another.
use tui_ssh_client.Prelude.{◌≡◌, refl, true, false, [], ◌∷◌, none, some, All, ◌⊎◌, length, map}
use tui_ssh_client.Config.Writes.{and_then, become, states}
use tui_ssh_client.Prelude.Text.{codes, drop_space, split, trim_space, has_prefix, fields, text_eq}
use tui_ssh_client.Model.Server.{Server, auth_key}
use tui_ssh_client.Vault.Secrets.{Secrets}
use tui_ssh_client.Config.Store.{holding, absent, load, stored, save}
use tui_ssh_client.Config.VaultFile.{versioned}
use tui_ssh_client.Config.Bundle.{
  merge_known_hosts, merge_lines, known_host_lines, host_line, merge_line, conflicting, keys, trust,
  report, start, index,
}
use tui_ssh_client.Prelude.Words.{has, sort}
use tui_ssh_client.Prelude.Dict.{insert, lookup}
use tui_ssh_client.Config.Bundle.Apply.Sample.{sample_json, sample_json-Reads}
use tui_ssh_client.Config.Bundle.Apply.Undo.{pull_undoable}
use tui_ssh_client.Config.Bundle.Apply.Travels.{bundle_travels}
use tui_ssh_client.Config.Bundle.Apply.{
  ApplyCalls, Bundle, BundleError, Local, apply_bundle, bundle, pack_list, supported, or_empty,
  refused, begin, parsed, apply_parsed, back_up, replace_list, merge_known, write_known,
}
use tui_ssh_client.Config.Fixture.{web, system, vault_calls}

abbrev listed : Server
listed = record web { auth = auth_key; key_path = codes "/k"; last_used = 5 }

abbrev mine : Secrets
mine = record {
  version = 0;
  passwords = (codes "s1", codes "pw") ∷ [];
  keys = [];
  key_pass = [];
  github = none;
}

abbrev theirs : Secrets
theirs = record mine { passwords = [] }

abbrev here : Local
here = record {
  listing = holding (listed ∷ []);
  backup = none;
  known = some (codes "h t k2");
  vault = none;
}

abbrev there : Local
there = record {
  listing = holding (record listed { id = codes "s2" } ∷ []);
  backup = none;
  known = some (codes "h t k1");
  vault = some (codes "v");
}

abbrev calls : ApplyCalls
calls = record {
  read_list = true;
  write_backup = true;
  list = system;
  read_known = true;
  known = vault_calls;
  vault = vault_calls;
}

abbrev shared : Bundle
shared = record {
  version = 1;
  updated_at = 7;
  device = codes "laptop";
  servers = listed ∷ [];
  secrets = record mine { version = 1 };
  known_hosts = codes "h t k2";
}

went_through : (apply_bundle sample_json calls (sample_json.write shared) theirs there).err ≡ none
unfolding sample_json apply_bundle apply_parsed back_up replace_list save merge_known
    merge_known_hosts merge_lines known_host_lines split host_line trim_space has_prefix fields
    merge_line has conflicting keys trust report start index text_eq insert lookup drop_space stored
    versioned and_then begin become write_known sort
went_through = refl

bundle_travels_example :
    let r = apply_bundle sample_json calls (sample_json.write shared) theirs there in
    let m = merge_known_hosts (or_empty there.known) (or_empty here.known) in
    (r.now.listing ≡ holding (map stored (listed ∷ [])))
    × (r.secrets ≡ versioned mine)
    × (r.report.servers ≡ length (listed ∷ []))
    × (r.report.conflicts ≡ m.conflicts)
    × ((m.added ≡ 0) × (r.now.known ≡ there.known) ⊎ (r.now.known ≡ some m.text))
unfolding bundle load pack_list versioned
bundle_travels_example =
    bundle_travels sample_json system true 7 (codes "laptop") mine here shared (listed ∷ []) calls
      theirs there sample_json-Reads refl refl went_through

-- A copy that cannot be written stops the pull.
abbrev stuck : ApplyCalls
stuck = record calls { known = record vault_calls { write = false } }

pull_undoable_example :
    ((e : BundleError) × (supported (sample_json.read (sample_json.write shared)) ≡ refused e)
      × (apply_bundle sample_json stuck (sample_json.write shared) theirs there
          ≡ record (begin theirs there) { err = some e }))
    ⊎ ((b : Bundle) × (supported (sample_json.read (sample_json.write shared)) ≡ parsed b)
        × All
            (λ x.
              ((x.listing ≡ there.listing)
                ⊎ (there.listing ≡ absent)
                ⊎ (x.backup ≡ some there.listing))
              × ((x.known ≡ there.known)
                  ⊎ (x.known ≡ some (merge_known_hosts (or_empty there.known) b.known_hosts).text))
              × (x.vault ≡ there.vault))
            (states (apply_bundle sample_json stuck (sample_json.write shared) theirs there)))
pull_undoable_example = pull_undoable sample_json stuck (sample_json.write shared) theirs there
