-- ===== src/Sftp/Remove/Tests.antt =====
-- Witness for the property of removeTree, on a directory with a file and a link.
use tui_ssh_client.Prelude.{
  ℕ, ◌<◌, ◌≡◌, refl, sym, subst, ap, ◌∙◌, Bool, true, false, List, [], ◌∷◌, ◌++◌, Option, none,
  some, arith, All, Bool-cases, inl, inr, if◌then◌else◌, if-true, drop,
}
use tui_ssh_client.Prelude.Text.{Text, codes, text_eq, text_eq_iff, split, has_prefix, join}
use tui_ssh_client.Prelude.Path.{join_path}
use tui_ssh_client.Sftp.Remove.{
  entry, Server, removed, log_of, remove_path, gone, remove_tree, remove_entry, remove_dir,
  remove_children, unlink,
}
use tui_ssh_client.Sftp.Remove.Reach.{Below, EndsWith, is_over, Sinks, remove_only_below}

abbrev is_top : Text → Bool
is_top p = text_eq p (codes "/r")

abbrev small : Server
small = record {
  lstat = λ p. if is_top p then entry true false else entry true true;
  read_dir = λ p. if is_top p then some (codes "a" ∷ codes "l" ∷ []) else none;
  lets_remove = λ p. true;
}

abbrev small_depth : Text → ℕ
small_depth p = if is_top p then 1 else 0

names : Option (List Text) → List Text
names none = []
names (some cs) = cs

first_of : Text → List Text → Text
first_of d [] = d
first_of d (x ∷ xs) = x

below :
    (x : Text) {c : Text}
    → x ≡ c
    → small_depth (join_path (codes "/r") x) < 1
    → small_depth (join_path (codes "/r") c) < 1
below x e h = subst (λ y. small_depth (join_path (codes "/r") y) < 1) e h

in_top :
    (c : Text) (before more : List Text)
    → codes "a" ∷ codes "l" ∷ [] ≡ before ++ c ∷ more
    → small_depth (join_path (codes "/r") c) < 1
unfolding join_path text_eq split has_prefix join first_of
in_top c [] more e = below (codes "a") (ap (first_of c) e) (omega arith)
in_top c (a ∷ []) more e = below (codes "l") (ap (λ xs. first_of c (drop 1 xs)) e) (omega arith)
in_top c (a ∷ b ∷ before) more e = absurd (too_long before (ap (drop 2) e))
  where
    too_long : (xs : List Text) → [] ≡ xs ++ c ∷ more → ⊥
    too_long [] e = cc
    too_long (x ∷ xs) e = cc

small-Sinks : Sinks small small_depth
unfolding names text_eq
small-Sinks q c cs before more l r e = elim (Bool-cases (is_top q)) [
  | inl top ↦
      let q_is : codes "/r" ≡ q = sym ((text_eq_iff q (codes "/r")).0 top) in
      let cs_is : codes "a" ∷ codes "l" ∷ [] ≡ cs =
        ap names (sym (if-true (is_top q) _ _ top) ∙ r) in
      subst (λ x. small_depth (join_path x c) < small_depth x) q_is
        (in_top c before more (cs_is ∙ e))
  | inr other ↦ absurd (wrong other l)
]
  where
    wrong : is_top q ≡ false → small.lstat q ≡ entry true false → ⊥
    wrong h l = ground arith

remove_only_below_example :
    (is_over (remove_path 2 small (codes "/r") true) ≡ true)
    × All (Below small (codes "/r")) (log_of (remove_path 2 small (codes "/r") true))
    × EndsWith (codes "/r") (remove_path 2 small (codes "/r") true)
unfolding text_eq
remove_only_below_example =
    remove_only_below 2 small (codes "/r") true small_depth small-Sinks (top_depth) (λ h. there h)
  where
    top_depth : small_depth (codes "/r") < 2
    top_depth = omega arith

    there : small.lstat (codes "/r") ≡ gone → ⊥
    there h = ground arith

small_removed :
    remove_path 2 small (codes "/r") true ≡ removed (codes "/r/a" ∷ codes "/r/l" ∷ codes "/r" ∷ [])
unfolding remove_path remove_tree remove_entry text_eq remove_dir remove_children join_path
    has_prefix join split unlink
small_removed = refl
