-- ===== src/Ui/Sync/Tests.antt =====
-- Witnesses for the properties of sync, and a run in which two registrations come to share a sha.
use tui_ssh_client.Prelude.{◌≡◌, refl, Bool, true, false, List, [], ◌∷◌, Option, none, some}
use tui_ssh_client.Prelude.Text.{Text, codes, text_eq, text_eq_iff, split, trim_space, trim_byte}
use tui_ssh_client.Config.Store.{absent}
use tui_ssh_client.Config.VaultFile.{encrypt}
use tui_ssh_client.Config.VaultFile.Sample.{sample}
use tui_ssh_client.Config.Bundle.Apply.{Bundle, packed}
use tui_ssh_client.Config.Bundle.Apply.Sample.{sample_json}
use tui_ssh_client.Sync.Github.{
  reply, parse_repo, check, request, status_error, contents_url, payload, put_file,
}
use tui_ssh_client.Ui.Sync.{sync_submit, open_sync, form_auth}
use tui_ssh_client.Ui.Sync.Commands.{check_command, upload, repo_of, after_upload}
use tui_ssh_client.Prelude.Dict.{lookup, insert}
use tui_ssh_client.Ui.Sync.Handlers.{
  sha_at, handle_sync_key, on_checked, start_push, update, on_pushed,
}
use tui_ssh_client.Ui.Sync.World.{
  GitHub, Promises, World, Answers, Event, key, opens, pushes, delivered, runs, others_write, step,
  run, empty_app, pulls,
}
use tui_ssh_client.Ui.Sync.Register.{Register, Reach}
use tui_ssh_client.Ui.Sync.Labels.{moves}
use tui_ssh_client.Ui.Sync.Simulates.{Simulates}
use tui_ssh_client.Ui.Sync.Refines.{refines_register}
use tui_ssh_client.Ui.Sync.Private.{Accounted, pushed_sealed}
use tui_ssh_client.Config.Fixture.{system, vault_calls, no_secrets}

takes : Option Text → Option Text → Bool
takes none q = true
takes (some c) none = false
takes (some c) (some s) = text_eq s (1 ∷ c)

-- A service whose sha says what is in the file.
abbrev service : GitHub
service = record { sha_of = λ c. 1 ∷ c; accepts = takes }

service-Promises : Promises service
unfolding takes
service-Promises = record {
  stale = λ c s e. (text_eq_iff s (1 ∷ c)).0 e;
  needed = λ c. refl;
  apart = λ c d e. tail c d e;
}
  where
    tail : (c d : Text) → ◌≡◌ {A = Text} (1 ∷ c) (1 ∷ d) → c ≡ d
    tail c d e = cc

abbrev shared : Bundle
shared = record {
  version = 1;
  updated_at = 7;
  device = codes "pc";
  servers = [];
  secrets = no_secrets;
  known_hosts = [];
}

abbrev fine : Answers
fine = record {
  private_ = reply 200 (some true);
  made = packed shared;
  pass = codes "p";
  serves = true;
  status = 9;
  heard = true;
  saves = true;
  calls = record {
    read_list = true;
    write_backup = true;
    list = system;
    read_known = true;
    known = vault_calls;
    vault = vault_calls;
  };
  secrets = no_secrets;
  local = record { listing = absent; backup = none; known = none; vault = none };
}

abbrev fresh : World
fresh = record { app = empty_app; files = []; running = []; mail = []; vault = none }

abbrev none_written : Register
none_written = record { files = []; seen = []; fetched = [] }

-- A repository is registered, and the bundle is pushed to it; others replace it, and it is pulled.
abbrev registers_and_pushes : List Event
registers_and_pushes =
    opens
    ∷ key (sync_submit (record { repo = codes "me/a"; path = []; token = codes "t" }))
    ∷ runs 0 fine
    ∷ delivered 0
    ∷ pushes
    ∷ runs 1 fine
    ∷ others_write (codes "me/a/contents/other") (codes "x")
    ∷ delivered 0
    ∷ others_write (codes "me/a/contents/ssh-client.age") (codes "y")
    ∷ pulls
    ∷ runs 2 fine
    ∷ delivered 0
    ∷ []

fresh-Simulates : Simulates service sample fresh none_written
fresh-Simulates = record { files = refl; shas = tt; ask = tt; running = tt; mail = tt; vault = tt }

refines_register_example :
    (t : Register) × Reach sample
      (moves service sample sample_json registers_and_pushes fresh)
      none_written
      t
    × (t.files ≡ (run service sample sample_json registers_and_pushes fresh).files)
    × Simulates service sample (run service sample sample_json registers_and_pushes fresh) t
refines_register_example =
    refines_register service sample sample_json registers_and_pushes fresh none_written
      service-Promises fresh-Simulates

pushed_sealed_example :
    Accounted sample sample_json
      (codes "me/a/contents/ssh-client.age")
      []
      (run service sample sample_json registers_and_pushes fresh).files
      registers_and_pushes
pushed_sealed_example =
    pushed_sealed sample sample_json service registers_and_pushes fresh
      (codes "me/a/contents/ssh-client.age")

-- While a push to one repository runs, another is registered; the answer then puts the sha of the first
-- repository's file into the registration of the second.
abbrev other_repository : List Event
other_repository =
    opens
    ∷ key (sync_submit (record { repo = codes "me/a"; path = []; token = codes "t" }))
    ∷ runs 0 fine
    ∷ delivered 0
    ∷ pushes
    ∷ runs 1 fine
    ∷ opens
    ∷ key (sync_submit (record { repo = codes "me/b"; path = []; token = codes "t" }))
    ∷ runs 1 fine
    ∷ delivered 1
    ∷ delivered 0
    ∷ []

abbrev mixed : World
mixed = run service sample sample_json other_repository fresh

second_has_first_sha :
    lookup (codes "me/a/contents/ssh-client.age") mixed.files
    ≡ some (elim (sha_at mixed.app.shas 1) [ [] ↦ [] | c ∷ t ↦ t ])
unfolding run step lookup sha_at sample sample_json handle_sync_key open_sync form_auth parse_repo
    split trim_space trim_byte update check_command check request status_error on_checked start_push
    upload encrypt takes insert text_eq contents_url repo_of after_upload payload put_file on_pushed
second_has_first_sha = refl
