-- ===== src/Config/Bundle/LocalWins.antt =====
-- What a pull does to known_hosts: nothing that is trusted here changes, and what is refused is said.
use tui_ssh_client.Prelude.{
  ℕ, ◌+◌, ◌≡◌, refl, sym, ◌∙◌, ap, ◌⊎◌, inl, inr, List, [], ◌∷◌, ◌++◌, none, some, arith, length,
  All, All-mono, Option-cases,
}
use tui_ssh_client.Prelude.Text.{Text}
use tui_ssh_client.Prelude.Dict.{Dict, lookup}
use tui_ssh_client.Config.Bundle.{
  HostLine, keys, Merge, trust, index, start, raw_lines, merge_lines,
}
use tui_ssh_client.Config.Bundle.Grown.{IsPart, some_eq, merge_lines-Grown}

pub index-out : (ls : List HostLine) (m : Merge) → (index ls m).added ≡ m.added
unfolding index
index-out [] m = refl
index-out (l ∷ ls) m = index-out ls _

index-kept : (ls : List HostLine) (m : Merge) → (index ls m).kept ≡ m.kept + length ls
unfolding index
index-kept [] m = omega arith
index-kept (l ∷ ls) m = omega (
  arith,
  index-kept ls
      (record m { have = trust l.key (keys l) m.have; seen = l.raw ∷ m.seen; kept = m.kept + 1 }),
)

no_other :
    (have : Dict Text) (k key : Text)
    → ((v : Text) → lookup k have ≡ some v → v ≡ key)
    → (lookup k have ≡ none) ⊎ (lookup k have ≡ some key)
no_other have k key f = elim (Option-cases (lookup k have)) [
  | inl e ↦ inl e
  | inr (v, e) ↦ inr (e ∙ ap some (f v e))
]

from_zero : (n : ℕ) → 0 + n ≡ n
from_zero n = omega arith

-- Merging keeps every line that we have, in its place, and puts after them some of the lines that came, in
-- their order; the counts are those of the lines kept and added. None of these brings another key for an
-- identity (a host pattern with a key type) that the local lines trust.
pub merge_local_wins :
    (local incoming : List HostLine)
    → let m = merge_lines incoming (start local) in
      (new : List HostLine) × IsPart new incoming
      × (m.out ≡ raw_lines local ++ raw_lines new)
      × (m.kept ≡ length local)
      × (m.added ≡ length new)
      × All
          (λ l.
            All
              (λ k.
                (lookup k (start local).have ≡ none) ⊎ (lookup k (start local).have ≡ some l.key))
              (keys l))
          new
unfolding start
merge_local_wins local incoming =
    let g = merge_lines-Grown incoming (start local) in
    (
      g.lines,
      g.part,
      g.written,
      g.kept ∙ (index-kept local _ ∙ from_zero (length local)),
      g.counted ∙ (ap (λ n. n + length g.lines) (index-out local _) ∙ from_zero (length g.lines)),
      All-mono _ _ g.lines
          (λ l p.
            All-mono _ _ (keys l)
              (λ k e. no_other _ k l.key (λ v f. some_eq v l.key (sym (g.extends k v f) ∙ e))) p)
          g.agree,
    )
