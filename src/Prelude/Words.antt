-- ===== src/Prelude/Words.antt =====
-- Lists of strings: membership, and sort.Strings.
use tui_ssh_client.Prelude.Tests.{if◌then◌else◌}
use tui_ssh_client.Prelude.Text.{Text, text_eq, text_lt}
use mathlib.Core.Path.{◌≡◌, refl}
use mathlib.Core.Bool.{Bool, false, ◌||◌}
use mathlib.Core.List.{List, [], ◌∷◌, ◌++◌}
use native.Mathlib.Omega.{arith}

unfoldable pub has : Text → List Text → Bool
has t [] = false
has t (s ∷ ss) = text_eq s t || has t ss

pub has-append : (t : Text) (ss us : List Text) → has t (ss ++ us) ≡ (has t ss || has t us)
unfolding has
has-append t [] us = refl
has-append t (s ∷ ss) us = ground (arith, has-append t ss us)

insert_sorted : Text → List Text → List Text
insert_sorted t [] = t ∷ []
insert_sorted t (s ∷ ss) =
    let rest = insert_sorted t ss in if text_lt s t then s ∷ rest else t ∷ s ∷ ss

has-insert_sorted : (x t : Text) (ss : List Text) → has x (insert_sorted t ss) ≡ has x (t ∷ ss)
unfolding has insert_sorted
has-insert_sorted x t [] = refl
has-insert_sorted x t (s ∷ ss) = ground (arith, has-insert_sorted x t ss)

unfoldable pub sort : List Text → List Text
unfolding insert_sorted
sort [] = []
sort (t ∷ ts) = insert_sorted t (sort ts)

-- Sorting keeps the members.
pub has-sort : (x : Text) (ts : List Text) → has x (sort ts) ≡ has x ts
unfolding has sort
has-sort x [] = refl
has-sort x (t ∷ ts) = ground (arith, has-insert_sorted x t (sort ts), has-sort x ts)
