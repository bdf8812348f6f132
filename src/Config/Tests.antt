-- ===== src/Config/Tests.antt =====
-- Witnesses for the properties of internal/config, and runs on small inputs.
use tui_ssh_client.Prelude.{
  ◌≡◌, refl, ◌⊎◌, true, false, List, [], ◌∷◌, ◌++◌, none, some, length, All,
}
use tui_ssh_client.Prelude.Text.{
  Text, codes, is_empty, split, trim_space, has_prefix, fields, text_eq, join, drop_space, text_lt,
}
use tui_ssh_client.Prelude.Words.{has, sort}
use tui_ssh_client.Prelude.Dict.{lookup, insert}
use tui_ssh_client.Config.Bundle.{
  HostLine, keys, raw_lines, start, conflicting, merge_lines, merge_known_hosts, known_host_lines,
  host_line, merge_line, trust, index, report,
}
use tui_ssh_client.Config.Bundle.Grown.{IsPart}
use tui_ssh_client.Config.Bundle.LocalWins.{merge_local_wins}
use tui_ssh_client.Config.Bundle.Reported.{merge_reports}
use tui_ssh_client.Config.SshConfig.{
  include_reason, match_reason, wildcard_reason, is_pattern, scanned,
}
use tui_ssh_client.Config.SshConfig.Entries.{entries_in_order}
use tui_ssh_client.Config.SshConfig.Importable.{importable_has_host}

abbrev line : Text → Text → HostLine
line host key = record {
  raw = host ++ (codes " ssh-ed25519 " ++ key);
  hosts = host;
  key_type = codes "ssh-ed25519";
  key = key;
}

abbrev ours : List HostLine
ours = line (codes "a,b") (codes "K1") ∷ []

-- A host that we trust under another key, and one that is new.
abbrev theirs : List HostLine
theirs = line (codes "b") (codes "K2") ∷ line (codes "c") (codes "K3") ∷ []

merge_local_wins_example :
    let m = merge_lines theirs (start ours) in
    (new : List HostLine) × IsPart new theirs
    × (m.out ≡ raw_lines ours ++ raw_lines new)
    × (m.kept ≡ length ours)
    × (m.added ≡ length new)
    × All
        (λ l.
          All
            (λ k. (lookup k (start ours).have ≡ none) ⊎ (lookup k (start ours).have ≡ some l.key))
            (keys l))
        new
merge_local_wins_example = merge_local_wins ours theirs

merge_reports_example :
    let m = merge_lines theirs (start ours) in
    All
      (λ l.
        (has l.raw m.out ≡ true)
        ⊎ ((has l.hosts m.conflicts ≡ true) × (conflicting m.have l.key (keys l) ≡ true)))
      theirs
merge_reports_example = merge_reports ours theirs

-- A comment and a line that is too short are gone from the file that is written.
comments_go :
    (merge_known_hosts (codes "# mine\na t K\nshort\n") (codes "b t L\n")).text
    ≡ codes "a t K\nb t L\n"
unfolding merge_known_hosts merge_lines known_host_lines split host_line trim_space has_prefix
    fields merge_line has start text_eq conflicting keys lookup trust insert join index report
    drop_space text_lt sort
comments_go = refl

abbrev config_lines : List Text
config_lines =
    codes "Host web # the front"
    ∷ codes "  HostName=10.0.0.1"
    ∷ codes "Host *.internal"
    ∷ codes "Include more"
    ∷ codes "Host db"
    ∷ codes "  Port 2222"
    ∷ []

importable_has_host_example :
    All
      (λ e.
        ((e.skip ≡ true)
          × ((e.reason ≡ include_reason)
              ⊎ ((e.reason ≡ match_reason) ⊎ (e.reason ≡ wildcard_reason))))
        ⊎ ((e.skip ≡ false) × (is_pattern e.alias ≡ false) × (is_empty e.host ≡ false)))
      (entries_in_order none config_lines).0
importable_has_host_example =
    importable_has_host none (scanned config_lines false) (entries_in_order none config_lines).0
      (entries_in_order none config_lines).1
