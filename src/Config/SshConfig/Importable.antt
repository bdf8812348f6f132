-- ===== src/Config/SshConfig/Importable.antt =====
-- What is known of an entry that the import offers, and why the others are refused.
use tui_ssh_client.Prelude.{
  ◌≡◌, refl, sym, subst, if-true, if-false, ◌⊎◌, inl, inr, true, false, List, [], ◌∷◌, Option, none,
  some, map, arith, All, All-append, Bool-cases,
}
use tui_ssh_client.Prelude.Int.{ℤ}
use tui_ssh_client.Prelude.Text.{Text, is_empty, contains_any, fields}
use tui_ssh_client.Config.SshConfig.{
  Entry, include_reason, match_reason, wildcard_reason, is_pattern, host_block, split_config_line,
  atoi, Parse, flush, refused, add_refused, set_port, Keyword, host, include, match, hostname, user,
  port, identityfile, other, keyword, in_block, apply, read_line, read_lines, settle, settle_host,
  host_or_alias, File, missing, unreadable, scanned, parse_ssh_config,
}

-- A reason that is not "no HostName".
abbrev Refusal : Text → Type 0
Refusal r = (r ≡ include_reason) ⊎ ((r ≡ match_reason) ⊎ (r ≡ wildcard_reason))

-- A block as it is read: refused, or named by one word that is not a pattern.
abbrev IsRead : Entry → Type 0
IsRead e = ((e.skip ≡ true) × Refusal e.reason) ⊎ ((e.skip ≡ false) × (is_pattern e.alias ≡ false))

abbrev IsReadOr : Option Entry → Type 0
IsReadOr none = Unit
IsReadOr (some e) = IsRead e

abbrev AllRead : Parse → Type 0
AllRead p = All IsRead p.entries × IsReadOr p.cur

host_block-IsRead : (value : Text) → IsRead (host_block value)
unfolding host_block
host_block-IsRead value = elim (Bool-cases (is_pattern value)) [
  | inl h ↦ rw h (inl (refl, inr (inr refl)))
  | inr h ↦ rw h (inr (refl, h))
]

flush-AllRead :
    (es : List Entry) (o : Option Entry)
    → All IsRead es
    → IsReadOr o
    → AllRead (flush (record { entries = es; cur = o }))
unfolding flush
flush-AllRead es none h i = (h, tt)
flush-AllRead es (some e) h i = (All-append IsRead es (e ∷ []) h (i, tt), tt)

in_block-AllRead :
    (f : Entry → Entry) (es : List Entry) (o : Option Entry)
    → ((e : Entry) → IsRead e → IsRead (f e))
    → All IsRead es
    → IsReadOr o
    → AllRead (in_block f (record { entries = es; cur = o }))
in_block-AllRead f es none same h i = (h, tt)
in_block-AllRead f es (some e) same h i = (h, same e i)

set_port-IsRead : (o : Option ℤ) (e : Entry) → IsRead e → IsRead (set_port o e)
unfolding set_port
set_port-IsRead none e h = h
set_port-IsRead (some n) e h = h

apply-AllRead :
    (home : Option Text) (k : Keyword) (value : Text) (p : Parse)
    → AllRead p
    → AllRead (apply home k value p)
unfolding apply add_refused
apply-AllRead home host value p h =
    ((flush-AllRead p.entries p.cur h.0 h.1).0, host_block-IsRead value)
apply-AllRead home include value p h =
    let q = flush-AllRead p.entries p.cur h.0 h.1 in
    (All-append IsRead _ (refused value include_reason ∷ []) q.0 (inl (refl, inl refl), tt), q.1)
apply-AllRead home match value p h =
    let q = flush-AllRead p.entries p.cur h.0 h.1 in
    (
      All-append IsRead _ (refused value match_reason ∷ []) q.0 (inl (refl, inr (inl refl)), tt),
      q.1,
    )
apply-AllRead home hostname value p h = in_block-AllRead _ p.entries p.cur (λ e i. i) h.0 h.1
apply-AllRead home user value p h = in_block-AllRead _ p.entries p.cur (λ e i. i) h.0 h.1
apply-AllRead home port value p h =
    in_block-AllRead _ p.entries p.cur (set_port-IsRead (atoi value)) h.0 h.1
apply-AllRead home identityfile value p h = in_block-AllRead _ p.entries p.cur (λ e i. i) h.0 h.1
apply-AllRead home other value p h = h

read_line-AllRead :
    (home : Option Text) (o : Option (Text × Text)) (p : Parse)
    → AllRead p
    → AllRead (read_line home o p)
unfolding read_line
read_line-AllRead home none p h = h
read_line-AllRead home (some (key, value)) p h = apply-AllRead home (keyword key) value p h

read_lines-AllRead :
    (home : Option Text) (ls : List Text) (p : Parse) → AllRead p → AllRead (read_lines home ls p)
unfolding read_lines
read_lines-AllRead home [] p h = h
read_lines-AllRead home (l ∷ ls) p h =
    read_lines-AllRead home ls _ (read_line-AllRead home (split_config_line l) p h)

-- An entry of the preview: refused for a reason that is not the missing host, or with a host.
abbrev IsListed : Entry → Type 0
IsListed e =
    ((e.skip ≡ true) × Refusal e.reason)
    ⊎ ((e.skip ≡ false) × (is_pattern e.alias ≡ false) × (is_empty e.host ≡ false))

named : (alias : Text) → is_pattern alias ≡ false → is_empty alias ≡ false
unfolding is_pattern fields contains_any
named [] h = h
named (c ∷ s) h = refl

settle_host-IsListed :
    (e : Entry) (h : Text)
    → e.skip ≡ false
    → is_pattern e.alias ≡ false
    → is_empty h ≡ false
    → IsListed (settle_host e h)
unfolding settle_host
settle_host-IsListed e [] k p n = absurd (cc)
settle_host-IsListed e (c ∷ s) k p n = inr (k, p, n)

settle-IsListed : (e : Entry) → IsRead e → IsListed (settle e)
unfolding settle
settle-IsListed e (inl (h, r)) = subst IsListed (sym (if-true e.skip _ _ h)) (inl (h, r))
settle-IsListed e (inr (h, p)) = subst IsListed (sym (if-false e.skip _ _ h)) (
    settle_host-IsListed e (host_or_alias e) h p
      (elim (Bool-cases (is_empty e.host)) [ inl x ↦ rw x (named e.alias p) | inr x ↦ rw x x ]))

settle-AllListed : (es : List Entry) → All IsRead es → All IsListed (map settle es)
settle-AllListed [] h = tt
settle-AllListed (e ∷ es) h = (settle-IsListed e h.0, settle-AllListed es h.1)

some-inj : (a b : List Entry) → some a ≡ some b → a ≡ b
some-inj a b e = ground arith

-- Every entry that is offered for import has a host, and its name is one word without wildcards;
-- every other entry is refused as an Include, a Match or a pattern. So "no HostName" is never given
-- as a reason.
pub importable_has_host :
    (home : Option Text) (f : File) (es : List Entry)
    → parse_ssh_config home f ≡ some es
    → All
        (λ e.
          ((e.skip ≡ true)
            × ((e.reason ≡ include_reason)
                ⊎ ((e.reason ≡ match_reason) ⊎ (e.reason ≡ wildcard_reason))))
          ⊎ ((e.skip ≡ false) × (is_pattern e.alias ≡ false) × (is_empty e.host ≡ false)))
        es
unfolding parse_ssh_config
importable_has_host home missing es e = let same : es ≡ [] = ground (arith, e) in rw same tt
importable_has_host home unreadable es e = absurd (cc)
importable_has_host home (scanned ls true) es e = absurd (cc)
importable_has_host home (scanned ls false) es e =
    let h = read_lines-AllRead home ls (record { entries = []; cur = none }) (tt, tt) in
    let listed = settle-AllListed _ (flush-AllRead _ _ h.0 h.1).0 in
    subst (All IsListed) (some-inj _ es e) listed
