-- ===== src/Config/SshConfig/Entries.antt =====
-- The entries that the import preview lists: one for each block, in the order of the file.
use tui_ssh_client.Prelude.{
  ◌≡◌, refl, sym, ◌∙◌, ap, inl, inr, Bool, true, false, List, [], ◌∷◌, ◌++◌, Option, none, some,
  map, arith, append_assoc, append-nil, Bool-cases, if◌then◌else◌,
}
use tui_ssh_client.Prelude.Int.{ℤ}
use tui_ssh_client.Prelude.Text.{Text}
use tui_ssh_client.Config.SshConfig.{
  Entry, include_reason, match_reason, is_pattern, host_block, split_config_line, atoi, Parse,
  flush, add_refused, set_port, Keyword, host, include, match, hostname, user, port, identityfile,
  other, keyword, in_block, apply, read_line, read_lines, settle, settle_host, scanned,
  parse_ssh_config,
}

-- Whether a keyword starts a block of its own.
abbrev pub begins : Keyword → Bool
begins host = true
begins include = true
begins match = true
begins _ = false

abbrev pub header : Option (Text × Text) → List Text
header none = []
header (some (key, value)) = if begins (keyword key) then value ∷ [] else []

-- The values of the Host, Include and Match lines.
abbrev pub headers : List Text → List Text
headers [] = []
headers (l ∷ ls) = header (split_config_line l) ++ headers ls

abbrev aliases : List Entry → List Text
aliases es = map (λ e. e.alias) es

abbrev IsSame : Entry → Entry → Type 0
IsSame d e = (d.alias ≡ e.alias) × (d.skip ≡ e.skip) × (d.reason ≡ e.reason)

aliases-append : (es us : List Entry) → aliases (es ++ us) ≡ aliases es ++ aliases us
aliases-append [] us = refl
aliases-append (e ∷ es) us = ap (λ t. e.alias ∷ t) (aliases-append es us)

host_block-alias : (value : Text) → (host_block value).alias ≡ value
unfolding host_block
host_block-alias value = elim (Bool-cases (is_pattern value)) [
  | inl h ↦ rw h refl
  | inr h ↦ rw h refl
]

set_port-alias : (o : Option ℤ) (e : Entry) → IsSame (set_port o e) e
unfolding set_port
set_port-alias none e = (refl, refl, refl)
set_port-alias (some n) e = (refl, refl, refl)

-- A setting of the open block changes no alias.
in_block-aliases :
    (f : Entry → Entry) (es : List Entry) (o : Option Entry)
    → ((e : Entry) → (f e).alias ≡ e.alias)
    → aliases (flush (in_block f (record { entries = es; cur = o }))).entries
      ≡ aliases (flush (record { entries = es; cur = o })).entries
unfolding flush
in_block-aliases f es none same = refl
in_block-aliases f es (some e) same =
    aliases-append es (f e ∷ [])
    ∙ (ap (λ t. aliases es ++ t ∷ []) (same e) ∙ sym (aliases-append es (e ∷ [])))

one_more :
    (es : List Entry) (e : Entry) (t : Text)
    → e.alias ≡ t
    → aliases (es ++ e ∷ []) ≡ aliases es ++ t ∷ []
one_more es e t h = aliases-append es (e ∷ []) ∙ ap (λ u. aliases es ++ u ∷ []) h

refused-aliases :
    (es : List Entry) (o : Option Entry) (value reason : Text)
    → let p : Parse = record { entries = es; cur = o } in
      aliases (flush (add_refused value reason p)).entries ≡ aliases (flush p).entries ++ value ∷ []
unfolding flush add_refused
refused-aliases es none value reason = one_more es _ value refl
refused-aliases es (some e) value reason = one_more (es ++ e ∷ []) _ value refl

apply-aliases :
    (home : Option Text) (k : Keyword) (value : Text) (p : Parse)
    → aliases (flush (apply home k value p)).entries
      ≡ aliases (flush p).entries ++ (if begins k then value ∷ [] else [])
unfolding apply flush
apply-aliases home host value p =
    one_more (flush p).entries (host_block value) value (host_block-alias value)
apply-aliases home include value p = refused-aliases p.entries p.cur value include_reason
apply-aliases home match value p = refused-aliases p.entries p.cur value match_reason
apply-aliases home hostname value p =
    in_block-aliases _ p.entries p.cur (λ e. refl) ∙ sym (append-nil _)
apply-aliases home user value p =
    in_block-aliases _ p.entries p.cur (λ e. refl) ∙ sym (append-nil _)
apply-aliases home port value p =
    in_block-aliases _ p.entries p.cur (λ e. (set_port-alias (atoi value) e).0) ∙ sym (append-nil _)
apply-aliases home identityfile value p =
    in_block-aliases _ p.entries p.cur (λ e. refl) ∙ sym (append-nil _)
apply-aliases home other value p = sym (append-nil _)

read_line-aliases :
    (home : Option Text) (o : Option (Text × Text)) (p : Parse)
    → aliases (flush (read_line home o p)).entries ≡ aliases (flush p).entries ++ header o
unfolding read_line
read_line-aliases home none p = sym (append-nil _)
read_line-aliases home (some (key, value)) p = apply-aliases home (keyword key) value p

read_lines-aliases :
    (home : Option Text) (ls : List Text) (p : Parse)
    → aliases (flush (read_lines home ls p)).entries ≡ aliases (flush p).entries ++ headers ls
unfolding read_lines
read_lines-aliases home [] p = sym (append-nil _)
read_lines-aliases home (l ∷ ls) p =
    read_lines-aliases home ls (read_line home (split_config_line l) p)
    ∙ (ap (λ t. t ++ headers ls) (read_line-aliases home (split_config_line l) p)
        ∙ append_assoc (aliases (flush p).entries) (header (split_config_line l)) (headers ls))

settle-alias : (e : Entry) → (settle e).alias ≡ e.alias
unfolding settle settle_host
settle-alias e = ground arith

settle-aliases : (es : List Entry) → aliases (map settle es) ≡ aliases es
settle-aliases [] = refl
settle-aliases (e ∷ es) = rw (settle-alias e) (ap (λ t. e.alias ∷ t) (settle-aliases es))

-- A file that is read to its end gives one entry for each Host, Include and Match line, in the order
-- of the file, and the name of each is the value of its line.
pub entries_in_order :
    (home : Option Text) (ls : List Text)
    → (es : List Entry) × (parse_ssh_config home (scanned ls false) ≡ some es)
      × (map (λ e. e.alias) es ≡ headers ls)
unfolding parse_ssh_config flush
entries_in_order home ls = (_, refl, settle-aliases _ ∙ read_lines-aliases home ls _)
