-- ===== src/Config/Bundle.antt =====
-- internal/config/bundle.go: known_hosts, and the union of it that a pull makes.
pub mod Grown
pub mod LocalWins
pub mod Reported
pub mod Again
pub mod Apply
use tui_ssh_client.Prelude.{
  ℕ, zero, suc, ◌+◌, Bool, true, false, not, ◌&&◌, ◌||◌, List, [], ◌∷◌, ◌++◌, Option, none, some,
  map, if◌then◌else◌,
}
use tui_ssh_client.Prelude.Text.{
  Text, codes, text_eq, is_empty, trim_space, has_prefix, split, fields, join,
}
use tui_ssh_client.Prelude.Words.{has, sort}
use tui_ssh_client.Prelude.Dict.{Dict, lookup, insert}

-- hostLine
pub record HostLine : Type 0 where
  pub raw : Text
  pub hosts : Text
  pub key_type : Text
  pub key : Text

identities : Text → List Text → List Text
identities kind [] = []
identities kind (p ∷ ps) =
    let rest = identities kind ps in
    if is_empty (trim_space p) then rest else (trim_space p ++ (codes " " ++ kind)) ∷ rest

-- (l hostLine) keys
unfoldable pub keys : HostLine → List Text
unfolding identities
keys l = identities l.key_type (split b',' l.hosts)

of_fields : Text → List Text → Option HostLine
of_fields line (h ∷ (t ∷ (k ∷ rest))) =
    some (record { raw = line; hosts = h; key_type = t; key = k })
of_fields line _ = none

unmarked : List Text → List Text
unmarked [] = []
unmarked (f ∷ fs) = if has_prefix f (codes "@") then fs else f ∷ fs

-- One round of the loop of knownHostLines.
unfoldable pub host_line : Text → Option HostLine
unfolding of_fields unmarked
host_line raw =
    let line = trim_space raw in
    if is_empty line || has_prefix line (codes "#")
    then none
    else of_fields line (unmarked (fields line))

abbrev push_line : Option HostLine → List HostLine → List HostLine
push_line none ls = ls
push_line (some l) ls = l ∷ ls

collect : List Text → List HostLine
collect [] = []
collect (raw ∷ raws) = push_line (host_line raw) (collect raws)

-- knownHostLines
unfoldable pub known_host_lines : Text → List HostLine
unfolding collect
known_host_lines s = collect (split b'\n' s)

-- rawLines
abbrev pub raw_lines : List HostLine → List Text
raw_lines ls = map (λ l. l.raw) ls

-- The maps and results of mergeKnownHosts. `clash` has the entries of `conflicts`, and so `conflicts`
-- stands for both; the newest conflict comes first until the list is sorted.
pub record Merge : Type 0 where
  pub have : Dict Text
  pub seen : List Text
  pub kept : ℕ
  pub out : List Text
  pub added : ℕ
  pub conflicts : List Text

-- The loop `have[k] = l.key`.
unfoldable pub trust : Text → List Text → Dict Text → Dict Text
trust key [] have = have
trust key (k ∷ ks) have = trust key ks (insert k key have)

-- The first loop, over the local lines.
unfoldable pub index : List HostLine → Merge → Merge
index [] m = m
index (l ∷ ls) m =
    index ls
      (record m { have = trust l.key (keys l) m.have; seen = l.raw ∷ m.seen; kept = m.kept + 1 })

abbrev pub no_lines : Merge
no_lines = record { have = []; seen = []; kept = 0; out = []; added = 0; conflicts = [] }

-- What mergeKnownHosts starts its second loop with.
unfoldable pub start : List HostLine → Merge
unfolding index
start local = record (index local no_lines) { out = raw_lines local }

abbrev differs : Text → Option Text → Bool
differs key none = false
differs key (some existing) = not (text_eq existing key)

-- Whether a line of this key disagrees with one that is trusted.
unfoldable pub conflicting : Dict Text → Text → List Text → Bool
conflicting have key [] = false
conflicting have key (k ∷ ks) = differs key (lookup k have) || conflicting have key ks

unfoldable pub report : Text → List Text → List Text
report hosts conflicts = if has hosts conflicts then conflicts else hosts ∷ conflicts

-- A line that is trusted from now on.
abbrev pub add_line : HostLine → Merge → Merge
add_line l m = record m {
  have = trust l.key (keys l) m.have;
  seen = l.raw ∷ m.seen;
  out = m.out ++ l.raw ∷ [];
  added = m.added + 1;
}

-- One round of the second loop, over the incoming lines.
unfoldable pub merge_line : HostLine → Merge → Merge
merge_line l m =
    if has l.raw m.seen
    then m
    else if conflicting m.have l.key (keys l)
    then record m { conflicts = report l.hosts m.conflicts }
    else add_line l m

unfoldable pub merge_lines : List HostLine → Merge → Merge
merge_lines [] m = m
merge_lines (l ∷ ls) m = merge_lines ls (merge_line l m)

pub record Merged : Type 0 where
  pub text : Text
  pub kept : ℕ
  pub added : ℕ
  pub conflicts : List Text

abbrev file : List Text → Text
file [] = []
file (l ∷ ls) = join (codes "\n") (l ∷ ls) ++ codes "\n"

-- (s *Store) mergeKnownHosts, with the text that was read from our file: the empty one where the
-- file does not exist.
unfoldable pub merge_known_hosts : Text → Text → Merged
merge_known_hosts local incoming =
    let m = merge_lines (known_host_lines incoming) (start (known_host_lines local)) in
    record { text = file m.out; kept = m.kept; added = m.added; conflicts = sort m.conflicts }
