-- ===== src/Sftp/Tree/Tests.antt =====
-- Witnesses for the properties of Plan, on a tree of a directory, a link and two files.
use tui_ssh_client.Prelude.{
  ℕ, ◌+◌, ◌≤◌, ◌≡◌, ◌≢◌, refl, subst, ap, Bool, true, false, List, [], ◌∷◌, ◌++◌, Option, none,
  some, arith, leb, if◌then◌else◌, length, length-append,
}
use tui_ssh_client.Prelude.Text.{Text, codes, is_empty, split}
use tui_ssh_client.Sftp.Tree.{
  FileEntry, found, Browser, Walk, join_all, join_rel, walk, listed, visit, visit_all, dir_item,
  planned, unfinished, plan,
}
use tui_ssh_client.Sftp.Tree.Order.{sum, IsOrdered, plan_in_order}
use tui_ssh_client.Sftp.Tree.Enough.{below, Weighs, plan_ends}

abbrev pub root_dir : Text
root_dir = codes "/r"

abbrev pub file_of : Text → ℕ → FileEntry
file_of name size = record { name = name; size = size; link = false; is_dir = false }

abbrev pub dir_of : Text → FileEntry
dir_of name = record { name = name; size = 0; link = false; is_dir = true }

abbrev pub at_root : List FileEntry
at_root =
    dir_of (codes "d")
    ∷ record { name = codes "l"; size = 0; link = true; is_dir = true }
    ∷ file_of (codes "a") 4
    ∷ []

abbrev pub list_of : Bool → List FileEntry
list_of true = at_root
list_of false = file_of (codes "b") 3 ∷ []

abbrev pub tiny : Browser
tiny = record {
  stat = λ p. found (dir_of p);
  list = λ p. some (list_of (leb (length p) 2));
  join = λ p seg. p ++ (codes "/" ++ seg);
}

abbrev pub tiny_walk : Walk
tiny_walk = record {
  items =
      dir_item []
      ∷ dir_item (codes "d")
      ∷ record { rel_path = codes "a"; size = 4; is_dir = false }
      ∷ record { rel_path = codes "d/b"; size = 3; is_dir = false }
      ∷ [];
  total = 7;
  skipped = 1;
  queue = [];
}

pub plan-tiny : plan 2 tiny root_dir ≡ planned tiny_walk
unfolding plan walk listed visit_all join_rel visit split
plan-tiny = refl

plan_in_order_example :
    (tiny_walk.total ≡ sum tiny_walk.items) × IsOrdered tiny root_dir tiny_walk.items
plan_in_order_example = plan_in_order 2 tiny root_dir tiny_walk plan-tiny

abbrev tiny_weight : Text → ℕ
tiny_weight rel = if is_empty rel then 2 else 1

tiny_weight-1 : (rel : Text) → 1 ≤ tiny_weight rel
tiny_weight-1 [] = omega arith
tiny_weight-1 (c ∷ rel) = omega arith

join_all-longer :
    (p : Text) (segs : List Text) → length p + length segs ≤ length (join_all tiny p segs)
unfolding join_all
join_all-longer p [] = omega arith
join_all-longer p (seg ∷ segs) =
    omega
      (arith, join_all-longer (p ++ (codes "/" ++ seg)) segs, length-append p (codes "/" ++ seg))

split-longer : (sep : ℕ) (s : Text) → 1 ≤ length (split sep s)
unfolding split
split-longer sep [] = omega arith
split-longer sep (c ∷ s) = ground (arith, split-longer sep s)

or_nothing : Option (List FileEntry) → List FileEntry
or_nothing none = []
or_nothing (some es) = es

same_list : {x es : List FileEntry} → (some x ≡ some es) → x ≡ es
unfolding or_nothing
same_list e = ap or_nothing e

tiny-Weighs : Weighs tiny root_dir tiny_weight
unfolding Weighs join_rel
tiny-Weighs [] es e =
    subst (λ o. below tiny_weight [] o + 1 ≤ 2) (same_list {x = at_root} e) (omega arith)
tiny-Weighs (c ∷ rel) es e =
    subst (λ o. below tiny_weight (c ∷ rel) o + 1 ≤ 1)
      (same_list {x = list_of (leb (length (join_rel tiny root_dir (c ∷ rel))) 2)} e)
      (deeper _ refl)
  where
    deeper :
        (b : Bool)
        → b ≡ leb (length (join_rel tiny root_dir (c ∷ rel))) 2
        → below tiny_weight (c ∷ rel) (list_of b) + 1 ≤ 1
    deeper false h = omega arith
    deeper true h =
        ground (arith, join_all-longer root_dir (split b'/' (c ∷ rel)), split-longer b'/' (c ∷ rel))

plan_ends_example : plan 2 tiny root_dir ≢ unfinished
plan_ends_example = plan_ends 2 tiny root_dir tiny_weight tiny-Weighs tiny_weight-1 (omega arith)
