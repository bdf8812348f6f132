-- ===== src/Config/SshConfig.antt =====
-- internal/config/sshconfig.go: reading ~/.ssh/config for the import.
pub mod Entries
pub mod Importable
use tui_ssh_client.Prelude.{
  ℕ, zero, suc, ◌+◌, ◌*◌, ◌-◌, ◌^◌, Bool, true, false, not, ◌&&◌, ◌||◌, List, [], ◌∷◌, ◌++◌, Option,
  none, some, map, ltb, leb, ◌==◌, length, if◌then◌else◌,
}
use tui_ssh_client.Prelude.Int.{ℤ, pos, negsuc}
use tui_ssh_client.Prelude.Path.{join_path}
use tui_ssh_client.Prelude.Text.{
  Text, codes, text_eq, is_empty, trim_space, to_lower, has_prefix, contains_any, cut_at, fields,
  trim_byte,
}
use tui_ssh_client.Model.Server.{Server, AuthMethod, auth_key, auth_password, default_port, is_zero}

-- SSHConfigEntry
pub record Entry : Type 0 where
  pub alias : Text
  pub host : Text
  pub user : Text
  pub port : ℤ
  pub identity : Text
  pub skip : Bool
  pub reason : Text

-- (e SSHConfigEntry) Server
unfoldable pub server : Entry → Server
server e = record {
  id = [];
  name = e.alias;
  host = e.host;
  port = if is_zero e.port then default_port else e.port;
  user = e.user;
  auth = if is_empty e.identity then auth_password else auth_key;
  password = [];
  key_pem = [];
  key_passphrase = [];
  key_path = e.identity;
  group = codes "ssh_config";
  last_used = 0;
}

abbrev pub no_entry : Entry
no_entry = record {
  alias = [];
  host = [];
  user = [];
  port = pos 0;
  identity = [];
  skip = false;
  reason = [];
}

abbrev pub include_reason : Text
include_reason = codes "Include not supported"

abbrev pub match_reason : Text
match_reason = codes "Match not supported"

abbrev pub wildcard_reason : Text
wildcard_reason = codes "wildcard pattern"

abbrev pub host_reason : Text
host_reason = codes "no HostName"

-- The test of hostBlock.
unfoldable pub is_pattern : Text → Bool
is_pattern value = contains_any value (codes "*?!") || not (length (fields value) == 1)

-- hostBlock
unfoldable pub host_block : Text → Entry
host_block value =
    let e : Entry = record no_entry { alias = value } in
    if is_pattern value then record e { skip = true; reason = wildcard_reason } else e

abbrev is_blank : ℕ → Bool
is_blank c = c == b' ' || c == b'\t'

-- "Key=value", or "Key value".
key_value : Text → Text × Text
key_value line =
    let eq = cut_at (λ c. c == b'=') line in
    let sp = cut_at is_blank line in
    if eq.found && not (contains_any eq.before (codes " \t"))
    then (eq.before, eq.after)
    else (sp.before, sp.after)

-- splitConfigLine
unfoldable pub split_config_line : Text → Option (Text × Text)
unfolding key_value
split_config_line raw =
    let line = trim_space (cut_at (λ c. c == b'#') raw).before in
    let (key, value) = key_value line in
    let name = to_lower (trim_space key) in
    if is_empty line
    then none
    else if is_empty name
    then none
    else some (name, trim_byte b'"' (trim_space value))

-- strconv.Atoi: `none` where it returns an error.
digits : ℕ → Text → Option ℕ
digits n [] = some n
digits n (c ∷ s) =
    let rest = digits (n * 10 + (c - b'0')) s in if leb b'0' c && leb c b'9' then rest else none

unsigned : Text → Option ℕ
unfolding digits
unsigned [] = none
unsigned (c ∷ s) = digits 0 (c ∷ s)

in_range : Bool → Option ℕ → Option ℤ
in_range minus none = none
in_range true (some zero) = some (pos 0)
in_range true (some (suc n)) = if ltb n (2 ^ 63) then some (negsuc n) else none
in_range false (some n) = if ltb n (2 ^ 63) then some (pos n) else none

unfoldable pub atoi : Text → Option ℤ
unfolding unsigned in_range
atoi [] = none
atoi (c ∷ s) =
    if c == b'-'
    then in_range true (unsigned s)
    else if c == b'+'
    then in_range false (unsigned s)
    else in_range false (unsigned (c ∷ s))

-- expandTilde, with what os.UserHomeDir answers, `none` for an error.
unfoldable pub expand_tilde : Option Text → Text → Text
expand_tilde none path = path
expand_tilde (some home) path =
    if text_eq path (codes "~")
    then home
    else if has_prefix path (codes "~/")
    then join_path home (drop_two path)
    else path
  where
    drop_two : Text → Text
    drop_two (a ∷ (b ∷ rest)) = rest
    drop_two _ = []

-- The entries and the block that is open.
pub record Parse : Type 0 where
  pub entries : List Entry
  pub cur : Option Entry

-- flush
unfoldable pub flush : Parse → Parse
flush p = elim p.cur [ none ↦ p | some e ↦ record { entries = p.entries ++ e ∷ []; cur = none } ]

abbrev refused : Text → Text → Entry
refused value reason = record no_entry { alias = value; skip = true; reason = reason }

add_refused : Text → Text → Parse → Parse
add_refused value reason p =
    let q = flush p in record q { entries = q.entries ++ refused value reason ∷ [] }

set_port : Option ℤ → Entry → Entry
set_port none e = e
set_port (some n) e = record e { port = n }

pub data Keyword : Type 0 where
  host include match hostname user port identityfile other : Keyword

-- The labels of the switch.
unfoldable pub keyword : Text → Keyword
keyword key =
    if text_eq key (codes "host")
    then host
    else if text_eq key (codes "include")
    then include
    else if text_eq key (codes "match")
    then match
    else if text_eq key (codes "hostname")
    then hostname
    else if text_eq key (codes "user")
    then user
    else if text_eq key (codes "port")
    then port
    else if text_eq key (codes "identityfile")
    then identityfile
    else other

abbrev in_block : (Entry → Entry) → Parse → Parse
in_block f p = record p { cur = elim p.cur [ none ↦ none | some e ↦ some (f e) ] }

-- One case of the switch, after the keyword and value of a line.
unfoldable pub apply : Option Text → Keyword → Text → Parse → Parse
unfolding add_refused set_port
apply home host value p = record (flush p) { cur = some (host_block value) }
apply home include value p = add_refused value include_reason p
apply home match value p = add_refused value match_reason p
apply home hostname value p = in_block (λ e. record e { host = value }) p
apply home user value p = in_block (λ e. record e { user = value }) p
apply home port value p = in_block (set_port (atoi value)) p
apply home identityfile value p = in_block (λ e. record e { identity = expand_tilde home value }) p
apply home other value p = p

read_line : Option Text → Option (Text × Text) → Parse → Parse
read_line home none p = p
read_line home (some (key, value)) p = apply home (keyword key) value p

unfoldable pub read_lines : Option Text → List Text → Parse → Parse
unfolding read_line
read_lines home [] p = p
read_lines home (l ∷ ls) p = read_lines home ls (read_line home (split_config_line l) p)

abbrev host_or_alias : Entry → Text
host_or_alias e = if is_empty e.host then e.alias else e.host

settle_host : Entry → Text → Entry
settle_host e h =
    if is_empty h
    then record e { host = h; skip = true; reason = host_reason }
    else record e { host = h }

-- The last loop: HostName defaults to the alias.
unfoldable pub settle : Entry → Entry
unfolding settle_host
settle e = if e.skip then e else settle_host e (host_or_alias e)

-- What opening and scanning the file gives: whether it is there and can be opened, its lines, and
-- whether the scanner stopped at an error.
pub data File : Type 0 where
  missing unreadable : File
  scanned : List Text → Bool → File

-- ParseSSHConfig: `none` for an error.
unfoldable pub parse_ssh_config : Option Text → File → Option (List Entry)
parse_ssh_config home missing = some []
parse_ssh_config home unreadable = none
parse_ssh_config home (scanned ls failed) =
    let p = flush (read_lines home ls (record { entries = []; cur = none })) in
    if failed then none else some (map settle p.entries)
