-- ===== src/Config/Bundle/Again.antt =====
-- A second pull of the same bundle changes nothing in known_hosts.
use tui_ssh_client.Prelude.{
  ◌≡◌, refl, sym, subst, ◌∙◌, ap, ◌⊎◌, inl, inr, true, List, [], ◌∷◌, ◌++◌, All, All-mono,
  Bool-cases,
}
use tui_ssh_client.Prelude.Text.{Text}
use tui_ssh_client.Prelude.Words.{has}
use tui_ssh_client.Prelude.Dict.{Dict}
use tui_ssh_client.Config.Bundle.{
  HostLine, keys, Merge, raw_lines, index, no_lines, start, conflicting, report, merge_line,
  merge_lines,
}
use tui_ssh_client.Config.Bundle.Reported.{Settled, merge_lines-Settled}
use tui_ssh_client.Config.Bundle.LocalWins.{index-out}
use tui_ssh_client.Config.Bundle.Grown.{merge_lines-Grown, index-append, index-cong, map-append}

-- A line that adds nothing.
abbrev Refused : Dict Text → List Text → HostLine → Type 0
Refused have seen l = (has l.raw seen ≡ true) ⊎ (conflicting have l.key (keys l) ≡ true)

merge_line-Refused :
    (l : HostLine) (m : Merge)
    → Refused m.have m.seen l
    → (c : List Text) × (merge_line l m ≡ record m { conflicts = c })
unfolding merge_line
merge_line-Refused l m (inl h) = (m.conflicts, rw h refl)
merge_line-Refused l m (inr c) = elim (Bool-cases (has l.raw m.seen)) [
  | inl h ↦ (m.conflicts, rw h refl)
  | inr h ↦ (report l.hosts m.conflicts, rw (h, c) refl)
]

merge_lines-Refused :
    (ls : List HostLine) (m : Merge)
    → All (Refused m.have m.seen) ls
    → ((merge_lines ls m).added ≡ m.added) × ((merge_lines ls m).out ≡ m.out)
unfolding merge_lines
merge_lines-Refused [] m r = (refl, refl)
merge_lines-Refused (l ∷ ls) m r =
    let (c, e) = merge_line-Refused l m r.0 in
    subst (λ n. ((merge_lines ls n).added ≡ m.added) × ((merge_lines ls n).out ≡ m.out)) (sym e)
      (merge_lines-Refused ls (record m { conflicts = c }) r.1)

Refused-by :
    (m n : Merge) (ls : List HostLine)
    → m.have ≡ n.have
    → m.seen ≡ n.seen
    → All (Settled n) ls
    → All (Refused m.have m.seen) ls
Refused-by m n ls e f h =
    rw (e, f) (All-mono _ _ ls (λ l s. elim s [ inl x ↦ inl x | inr (x, y) ↦ inr y ]) h)

-- The lines that a merge wrote, with those that it had, leave nothing to add: the same lines merged
-- into its result again change nothing.
pub merge_again :
    (local incoming : List HostLine)
    → let m = merge_lines incoming (start local) in
      (new : List HostLine) × (m.out ≡ raw_lines (local ++ new))
      × ((merge_lines incoming (start (local ++ new))).added ≡ 0)
      × ((merge_lines incoming (start (local ++ new))).out ≡ m.out)
unfolding start
merge_again local incoming =
    let first = merge_lines incoming (start local) in
    let g = merge_lines-Grown incoming (start local) in
    let again = start (local ++ g.lines) in
    let same = index-cong g.lines (index local no_lines) (start local) refl refl in
    let both = index-append local g.lines no_lines in
    let written = g.written ∙ sym (map-append local g.lines) in
    let quiet = merge_lines-Refused incoming again (
      Refused-by again first incoming (ap (λ x. x.have) both ∙ (same.0 ∙ g.index_have))
        (ap (λ x. x.seen) both ∙ (same.1 ∙ g.index_seen))
        (merge_lines-Settled incoming (start local))) in
    (g.lines, written, quiet.0 ∙ index-out (local ++ g.lines) no_lines, quiet.1 ∙ sym written)
