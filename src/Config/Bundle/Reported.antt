-- ===== src/Config/Bundle/Reported.antt =====
-- No incoming line is lost silently.
use tui_ssh_client.Prelude.{
  ◌+◌, ◌≡◌, refl, sym, ◌∙◌, ◌⊎◌, inl, inr, Bool, true, false, ◌||◌, List, [], ◌∷◌, arith, All,
  All-mono, Bool-cases, Option-cases,
}
use tui_ssh_client.Prelude.Text.{Text, text_eq_refl}
use tui_ssh_client.Prelude.Words.{has, has-append}
use tui_ssh_client.Prelude.Dict.{Dict, lookup}
use tui_ssh_client.Config.Bundle.{
  HostLine, keys, Merge, raw_lines, index, no_lines, trust, start, conflicting, report, add_line,
  merge_line, merge_lines,
}
use tui_ssh_client.Config.Bundle.Grown.{Extends, trust-Extends}

-- A line that another round leaves alone: it is in the file, or it disagrees and its hosts are told.
abbrev pub Settled : Merge → HostLine → Type 0
Settled m l =
    (has l.raw m.seen ≡ true)
    ⊎ ((has l.hosts m.conflicts ≡ true) × (conflicting m.have l.key (keys l) ≡ true))

conflicting-Extends :
    (a b : Dict Text) (key : Text) (ks : List Text)
    → Extends a b
    → conflicting a key ks ≡ true
    → conflicting b key ks ≡ true
unfolding conflicting
conflicting-Extends a b key [] x c = c
conflicting-Extends a b key (k ∷ ks) x c = elim (Option-cases (lookup k a)) [
  | inl e ↦ ground (arith, conflicting-Extends a b key ks x, e)
  | inr (v, e) ↦ ground (arith, conflicting-Extends a b key ks x, e, x k v e)
]

has-report : (hosts : Text) (cs : List Text) → has hosts (report hosts cs) ≡ true
unfolding report has
has-report hosts cs = elim (Bool-cases (has hosts cs)) [
  | inl h ↦ rw h h
  | inr h ↦ rw (h, text_eq_refl hosts) refl
]

report-keeps : (x hosts : Text) (cs : List Text) → has x cs ≡ true → has x (report hosts cs) ≡ true
unfolding report has
report-keeps x hosts cs h = ground arith

seen_now : (l : HostLine) (m : Merge) → has l.raw (add_line l m).seen ≡ true
unfolding has
seen_now l m = rw (text_eq_refl l.raw) refl

seen_still :
    (x : Text) (l : HostLine) (m : Merge) → has x m.seen ≡ true → has x (add_line l m).seen ≡ true
unfolding has
seen_still x l m h = ground arith

merge_line-Settled : (l : HostLine) (m : Merge) → Settled (merge_line l m) l
unfolding merge_line
merge_line-Settled l m = elim (Bool-cases (has l.raw m.seen)) [
  | inl h ↦ rw h (inl h)
  | inr h ↦ rw h (elim (Bool-cases (conflicting m.have l.key (keys l))) [
    | inl c ↦ rw c (inr (has-report l.hosts m.conflicts, c))
    | inr c ↦ rw c (inl (seen_now l m))
  ])
]

merge_line-keeps : (l j : HostLine) (m : Merge) → Settled m j → Settled (merge_line l m) j
unfolding merge_line
merge_line-keeps l j m s = elim (Bool-cases (has l.raw m.seen)) [
  | inl h ↦ rw h s
  | inr h ↦ rw h (elim (Bool-cases (conflicting m.have l.key (keys l))) [
    | inl c ↦ rw c (elim s [
      | inl x ↦ inl x
      | inr (x, y) ↦ inr (report-keeps j.hosts l.hosts m.conflicts x, y)
    ])
    | inr c ↦ rw c (elim s [
      | inl x ↦ inl (seen_still j.raw l m x)
      | inr (x, y) ↦
          inr (
            x,
            conflicting-Extends m.have _ j.key (keys j) (trust-Extends l.key (keys l) m.have c) y,
          )
    ])
  ])
]

merge_lines-keeps :
    (ls : List HostLine) (j : HostLine) (m : Merge) → Settled m j → Settled (merge_lines ls m) j
unfolding merge_lines
merge_lines-keeps [] j m s = s
merge_lines-keeps (l ∷ ls) j m s =
    merge_lines-keeps ls j (merge_line l m) (merge_line-keeps l j m s)

pub merge_lines-Settled : (ls : List HostLine) (m : Merge) → All (Settled (merge_lines ls m)) ls
unfolding merge_lines
merge_lines-Settled [] m = tt
merge_lines-Settled (l ∷ ls) m = (
  merge_lines-keeps ls l (merge_line l m) (merge_line-Settled l m),
  merge_lines-Settled ls (merge_line l m),
)

index-seen :
    (x : Text) (ls : List HostLine) (m : Merge)
    → has x (index ls m).seen ≡ (has x (raw_lines ls) || has x m.seen)
unfolding index has
index-seen x [] m = refl
index-seen x (l ∷ ls) m = ground (
  arith,
  index-seen x ls
      (record m { have = trust l.key (keys l) m.have; seen = l.raw ∷ m.seen; kept = m.kept + 1 }),
)

-- What is marked as seen is what stands in the file.
InFile : Merge → Type 0
InFile m = (x : Text) → has x m.seen ≡ has x m.out

or_false : (b : Bool) → (b || false) ≡ b
or_false b = ground arith

start-InFile : (local : List HostLine) → InFile (start local)
unfolding InFile start has
start-InFile local x = index-seen x local no_lines ∙ or_false (has x (raw_lines local))

merge_line-InFile : (l : HostLine) (m : Merge) → InFile m → InFile (merge_line l m)
unfolding InFile merge_line has
merge_line-InFile l m f x = elim (Bool-cases (has l.raw m.seen)) [
  | inl h ↦ rw h (f x)
  | inr h ↦ rw h (elim (Bool-cases (conflicting m.have l.key (keys l))) [
    | inl c ↦ rw c (f x)
    | inr c ↦ rw c (ground (arith, has-append x m.out (l.raw ∷ []), f x))
  ])
]

merge_lines-InFile : (ls : List HostLine) (m : Merge) → InFile m → InFile (merge_lines ls m)
unfolding merge_lines
merge_lines-InFile [] m f = f
merge_lines-InFile (l ∷ ls) m f = merge_lines-InFile ls _ (merge_line-InFile l m f)

-- Every incoming line is in the merged file, or else it disagrees with a key that is trusted and its
-- hosts are among the conflicts.
pub merge_reports :
    (local incoming : List HostLine)
    → let m = merge_lines incoming (start local) in
      All
        (λ l.
          (has l.raw m.out ≡ true)
          ⊎ ((has l.hosts m.conflicts ≡ true) × (conflicting m.have l.key (keys l) ≡ true)))
        incoming
unfolding InFile
merge_reports local incoming =
    All-mono _ _ incoming
      (λ l s. elim s [
        | inl h ↦
            inl (sym (merge_lines-InFile incoming (start local) (start-InFile local) l.raw) ∙ h)
        | inr h ↦ inr h
      ])
      (merge_lines-Settled incoming (start local))
