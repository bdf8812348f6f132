-- ===== src/Config/Bundle/Apply.antt =====
-- internal/config/bundle.go, Bundle, BundleServers and ApplyBundle: what is shared, and how it takes
-- the place of what is on this machine.
pub mod Undo
pub mod Applied
pub mod Travels
pub mod Sample
pub mod Tests
use tui_ssh_client.Prelude.{
  ℕ, zero, suc, ◌+◌, ◌≡◌, Bool, true, false, not, List, [], ◌∷◌, ◌++◌, Option, none, some, ltb,
  length, map, if◌then◌else◌,
}
use tui_ssh_client.Config.Writes.{Writes, and_then, become, stop}
use tui_ssh_client.Prelude.Text.{Text}
use tui_ssh_client.Model.Server.{Server}
use tui_ssh_client.Vault.Secrets.{Secrets}
use tui_ssh_client.Config.Store.{
  ServersFile, absent, blank, unparsable, holding, Disk, System, StoreError, Result, failed, ok,
  load, stored, save,
}
use tui_ssh_client.Config.VaultFile.{VaultCalls, versioned}
use tui_ssh_client.Config.Bundle.{Merged, merge_known_hosts}

-- The times are in nanoseconds.
pub record Bundle : Type 0 where
  pub version : ℕ
  pub updated_at : ℕ
  pub device : Text
  pub servers : List Server
  pub secrets : Secrets
  pub known_hosts : Text

abbrev pub bundle_version : ℕ
bundle_version = 1

-- encoding/json, which writes no secret field of a server.
pub record Json : Type 0 where
  pub write : Bundle → Text
  pub read : Text → Option Bundle

pub record Reads (j : Json) : Type 0 where
  pub reads : (b : Bundle) → j.read (j.write b) ≡ some (record b { servers = map stored b.servers })

pub data BundleError : Type 0 where
  not_parsed newer_version list_not_read not_backed_up : BundleError
  known_not_read known_not_created known_not_written known_not_protected known_not_replaced :
      BundleError
  list_failed : StoreError → BundleError

-- The files that a pull touches: the list and the copy of it, known_hosts, and the vault.
pub record Local : Type 0 where
  pub listing : ServersFile
  pub backup : Option ServersFile
  pub known : Option Text
  pub vault : Option Text

abbrev pub or_empty : Option Text → Text
or_empty none = []
or_empty (some t) = t

pub data Packed : Type 0 where
  packed : Bundle → Packed
  not_packed : BundleError → Packed

-- os.ReadFile of known_hosts, where a missing file is no error.
abbrev pub known_text : Bool → Option Text → Option Text
known_text read none = some []
known_text read (some t) = if read then some t else none

pack_known : Secrets → ℕ → Text → List Server → Option Text → Packed
unfolding versioned
pack_known sec now device ss none = not_packed known_not_read
pack_known sec now device ss (some known) = packed (record {
  version = bundle_version;
  updated_at = now;
  device = device;
  servers = ss;
  secrets = versioned sec;
  known_hosts = known;
})

pack_list : Secrets → ℕ → Text → Option Text → Result (List Server) → Packed
unfolding pack_known
pack_list sec now device known (failed e) = not_packed (list_failed e)
pack_list sec now device known (ok ss) = pack_known sec now device ss known

-- (s *Store) Bundle before it is encoded, with the clock and the name of the host.
unfoldable pub bundle : System → Bool → ℕ → Text → Secrets → Local → Packed
unfolding pack_list
bundle y read_known now device sec d =
    pack_list sec now device (known_text read_known d.known) (load y d.listing)

pub data Parsed : Type 0 where
  parsed : Bundle → Parsed
  refused : BundleError → Parsed

-- json.Unmarshal, and the test of the version
abbrev pub supported : Option Bundle → Parsed
supported none = refused not_parsed
supported (some b) = if ltb bundle_version b.version then refused newer_version else parsed b

pub data Summary : Type 0 where
  no_summary : BundleError → Summary
  summary : ℕ → ℕ → Text → Summary

abbrev summarised : Parsed → Summary
summarised (refused e) = no_summary e
summarised (parsed b) = summary (length b.servers) b.updated_at b.device

-- BundleServers
unfoldable pub bundle_servers : Json → Text → Summary
bundle_servers j blob = summarised (supported (j.read blob))

-- Whether each call succeeds.
pub record ApplyCalls : Type 0 where
  pub read_list : Bool
  pub write_backup : Bool
  pub list : System
  pub read_known : Bool
  pub known : VaultCalls
  pub vault : VaultCalls

-- ApplyReport, by whether there is a backup.
pub record Report : Type 0 where
  pub servers : ℕ
  pub kept : ℕ
  pub added : ℕ
  pub conflicts : List Text
  pub backed_up : Bool

-- The files as they were after each change, and the secrets that the pointer leads to.
abbrev pub Pull : Type 0
Pull = Writes Local Report Secrets BundleError

back_up_file : ApplyCalls → Pull → Pull
unfolding become stop
back_up_file c r =
    if not c.read_list
    then stop list_not_read r
    else if not c.write_backup
    then stop not_backed_up r
    else record (become (record r.now { backup = some r.now.listing }) r) {
      report = record r.report { backed_up = true };
    }

back_up_list : ApplyCalls → ServersFile → Pull → Pull
unfolding back_up_file
back_up_list c absent r = r
back_up_list c _ r = back_up_file c r

-- The list is copied where there is one.
unfoldable pub back_up : ApplyCalls → Pull → Pull
unfolding back_up_list
back_up c r = back_up_list c r.now.listing r

after_save : Bundle → Disk × Option StoreError → Pull → Pull
unfolding become stop versioned
after_save b (d, some e) r = stop (list_failed e) r
after_save b (d, none) r = record (become (record r.now { listing = d.servers }) r) {
  report = record r.report { servers = length b.servers };
  secrets = versioned b.secrets;
}

-- The list is replaced, and the secrets in memory.
unfoldable pub replace_list : ApplyCalls → Bundle → Pull → Pull
unfolding after_save
replace_list c b r =
    after_save b (save c.list b.servers (record { servers = r.now.listing; keys = [] })) r

-- writeKnownHosts
unfoldable pub write_known : VaultCalls → Text → Pull → Pull
unfolding become stop
write_known y t r =
    if not y.mkdir
    then stop known_not_created r
    else if not y.write
    then stop known_not_written r
    else if not y.chmod
    then stop known_not_protected r
    else if not y.rename
    then stop known_not_replaced r
    else become (record r.now { known = some t }) r

merge_text : ApplyCalls → Merged → Pull → Pull
unfolding write_known
merge_text c m r =
    let told = record r {
      report = record r.report { kept = m.kept; added = m.added; conflicts = m.conflicts };
    } in
    if ltb 0 m.added then write_known c.known m.text told else told

merge_read : ApplyCalls → Text → Option Text → Pull → Pull
unfolding merge_text stop
merge_read c theirs none r = stop known_not_read r
merge_read c theirs (some ours) r = merge_text c (merge_known_hosts ours theirs) r

-- known_hosts is merged, and written where a line is new.
unfoldable pub merge_known : ApplyCalls → Text → Pull → Pull
unfolding merge_read
merge_known c theirs r = merge_read c theirs (known_text c.read_known r.now.known) r

unfoldable pub begin : Secrets → Local → Pull
begin sec d = record {
  now = d;
  past = [];
  report = record { servers = 0; kept = 0; added = 0; conflicts = []; backed_up = false };
  secrets = sec;
  err = none;
}

unfoldable pub apply_parsed : ApplyCalls → Parsed → Pull → Pull
unfolding and_then stop
apply_parsed c (refused e) r = stop e r
apply_parsed c (parsed b) r =
    and_then (back_up c r) (λ r1. and_then (replace_list c b r1) (merge_known c b.known_hosts))

-- (s *Store) ApplyBundle; `sec` is what the pointer holds before.
unfoldable pub apply_bundle : Json → ApplyCalls → Text → Secrets → Local → Pull
unfolding begin
apply_bundle j c blob sec d = apply_parsed c (supported (j.read blob)) (begin sec d)
