-- ===== src/Sftp/Remove/Reach.antt =====
-- A deletion removes nothing but what lies below its path, and the path itself last.
use tui_ssh_client.Prelude.{
  ℕ, zero, suc, ◌≡◌, ◌≢◌, refl, sym, ◌∙◌, Bool, true, false, not, ◌&&◌, List, [], ◌∷◌, ◌++◌, Option,
  none, some, arith, All, All-append, if_both, append_assoc, ◌<◌,
}
use tui_ssh_client.Prelude.Text.{Text}
use tui_ssh_client.Prelude.Path.{join_path}
use tui_ssh_client.Sftp.Remove.{
  Lstat, gone, lstat_failed, entry, Server, RemoveEnd, removed, failed, unfinished, log_of, unlink,
  after, remove_children, remove_dir, remove_entry, remove_tree, remove_path,
}

-- A path that is reached from `p` through directories that are no links.
pub data Below (s : Server) (p : Text) : Text → Type 0 where
  here : Below s p p
  inside :
      {q : Text} {cs : List Text} (before : List Text) (c : Text) (more : List Text)
      → Below s p q
      → s.lstat q ≡ entry true false
      → s.read_dir q ≡ some cs
      → cs ≡ before ++ c ∷ more
      → Below s p (join_path q c)

module _ (s : Server) (p : Text) where
  abbrev Under : List Text → Type 0
  Under = All (Below s p)

  -- What a removal below `p` adds to the log is below `p`.
  abbrev Tame : (Text → List Text → RemoveEnd) → Type 0
  Tame f = (q : Text) (log : List Text) → Below s p q → Under log → Under (log_of (f q log))

  unlink-Under :
      (q : Text) (log : List Text) → Below s p q → Under log → Under (log_of (unlink s q log))
  unfolding unlink
  unlink-Under q log b u =
      if_both (λ e. Under (log_of e)) (s.lets_remove q) _ _ (All-append _ log (q ∷ []) u (b, tt)) u

  after-Under :
      (e : RemoveEnd) (rest : List Text → RemoveEnd)
      → Under (log_of e)
      → ((log : List Text) → Under log → Under (log_of (rest log)))
      → Under (log_of (after e rest))
  unfolding after
  after-Under (removed log) rest u k = k log u
  after-Under (failed log) rest u k = u
  after-Under (unfinished log) rest u k = u

  module _ (f : Text → List Text → RemoveEnd) (tame : Tame f) where
    remove_children-Under :
        (q : Text) (cs before rest log : List Text)
        → Below s p q
        → s.lstat q ≡ entry true false
        → s.read_dir q ≡ some cs
        → cs ≡ before ++ rest
        → Under log
        → Under (log_of (remove_children f q rest log))
    unfolding remove_children
    remove_children-Under q cs before [] log b d r e u = u
    remove_children-Under q cs before (c ∷ rest) log b d r e u =
        after-Under (f (join_path q c) log) (remove_children f q rest)
          (tame (join_path q c) log (inside before c rest b d r e) u)
          (λ log' u'.
            remove_children-Under q cs (before ++ c ∷ []) rest log' b d r
              (e ∙ sym (append_assoc before (c ∷ []) rest)) u')

    remove_dir-Under :
        (q : Text) (o : Option (List Text)) (log : List Text)
        → Below s p q
        → s.lstat q ≡ entry true false
        → s.read_dir q ≡ o
        → Under log
        → Under (log_of (remove_dir s f q o log))
    unfolding remove_dir
    remove_dir-Under q none log b d r u = u
    remove_dir-Under q (some cs) log b d r u =
        after-Under (remove_children f q cs log) (unlink s q)
          (remove_children-Under q cs [] cs log b d r refl u) (λ l. unlink-Under q l b)

    remove_entry-Under :
        (q : Text) (o : Lstat) (log : List Text)
        → Below s p q
        → s.lstat q ≡ o
        → Under log
        → Under (log_of (remove_entry s f q o log))
    unfolding remove_entry
    remove_entry-Under q gone log b l u = u
    remove_entry-Under q lstat_failed log b l u = u
    remove_entry-Under q (entry true false) log b l u = remove_dir-Under q _ log b l refl u
    remove_entry-Under q (entry true true) log b l u = unlink-Under q log b u
    remove_entry-Under q (entry false link) log b l u = unlink-Under q log b u

  remove_tree-Under : (n : ℕ) → Tame (remove_tree n s)
  unfolding remove_tree
  remove_tree-Under zero q log b u = u
  remove_tree-Under (suc n) q log b u =
      remove_entry-Under (remove_tree n s) (remove_tree-Under n) q (s.lstat q) log b refl u

abbrev pub EndsWith : Text → RemoveEnd → Type 0
EndsWith p (removed log) = (rest : List Text) × (log ≡ rest ++ p ∷ [])
EndsWith p _ = Unit

unlink-EndsWith : (s : Server) (p : Text) (log : List Text) → EndsWith p (unlink s p log)
unfolding unlink
unlink-EndsWith s p log = if_both (EndsWith p) (s.lets_remove p) _ _ (log, refl) tt

after-EndsWith : (s : Server) (p : Text) (e : RemoveEnd) → EndsWith p (after e (unlink s p))
unfolding after
after-EndsWith s p (removed log) = unlink-EndsWith s p log
after-EndsWith s p (failed log) = tt
after-EndsWith s p (unfinished log) = tt

remove_dir-EndsWith :
    (s : Server) (f : Text → List Text → RemoveEnd) (p : Text) (o : Option (List Text))
    (log : List Text)
    → EndsWith p (remove_dir s f p o log)
unfolding remove_dir
remove_dir-EndsWith s f p none log = tt
remove_dir-EndsWith s f p (some cs) log = after-EndsWith s p _

remove_tree-EndsWith :
    (n : ℕ) (s : Server) (p : Text) (log : List Text)
    → s.lstat p ≢ gone
    → EndsWith p (remove_tree n s p log)
unfolding remove_tree remove_entry
remove_tree-EndsWith zero s p log there = tt
remove_tree-EndsWith (suc n) s p log there = at (s.lstat p) there
  where
    at : (o : Lstat) → o ≢ gone → EndsWith p (remove_entry s (remove_tree n s) p o log)
    at gone h = absurd (h refl)
    at lstat_failed h = tt
    at (entry is_dir link) h =
        if_both (EndsWith p) (is_dir && not link) _ _ (remove_dir-EndsWith s _ p _ log)
          (unlink-EndsWith s p log)

abbrev pub is_over : RemoveEnd → Bool
is_over (removed log) = true
is_over (failed log) = true
is_over (unfinished log) = false

-- A number for each path that is greater for a directory than for what is in it.
abbrev pub Sinks : Server → (Text → ℕ) → Type 0
Sinks s depth =
    (q c : Text) (cs before more : List Text)
    → s.lstat q ≡ entry true false
    → s.read_dir q ≡ some cs
    → cs ≡ before ++ c ∷ more
    → depth (join_path q c) < depth q

after-over :
    (e : RemoveEnd) (rest : List Text → RemoveEnd)
    → is_over e ≡ true
    → ((log : List Text) → is_over (rest log) ≡ true)
    → is_over (after e rest) ≡ true
unfolding after
after-over (removed log) rest o k = k log
after-over (failed log) rest o k = refl
after-over (unfinished log) rest o k = absurd (cc)

unlink-over : (s : Server) (p : Text) (log : List Text) → is_over (unlink s p log) ≡ true
unfolding unlink
unlink-over s p log = if_both (λ e. is_over e ≡ true) (s.lets_remove p) _ _ refl refl

module _ (s : Server) (depth : Text → ℕ) (sinks : Sinks s depth) where
  remove_children-over :
      (f : Text → List Text → RemoveEnd) (n : ℕ)
      → ((q : Text) (log : List Text) → depth q < n → is_over (f q log) ≡ true)
      → (q : Text) (cs before rest log : List Text) → depth q < suc n
      → s.lstat q ≡ entry true false
      → s.read_dir q ≡ some cs
      → cs ≡ before ++ rest
      → is_over (remove_children f q rest log) ≡ true
  unfolding remove_children
  remove_children-over f n over q cs before [] log h l r e = refl
  remove_children-over f n over q cs before (c ∷ rest) log h l r e =
      after-over (f (join_path q c) log) (remove_children f q rest)
        (over (join_path q c) log (omega (arith, sinks q c cs before rest l r e)))
        (λ log'.
          remove_children-over f n over q cs (before ++ c ∷ []) rest log' h l r
            (e ∙ sym (append_assoc before (c ∷ []) rest)))

  remove_tree-over :
      (n : ℕ) (q : Text) (log : List Text) → depth q < n → is_over (remove_tree n s q log) ≡ true
  unfolding remove_tree remove_entry remove_dir
  remove_tree-over zero q log h = absurd (omega arith)
  remove_tree-over (suc n) q log h = at (s.lstat q) refl (remove_tree-over n)
    where
      dir :
          (o : Option (List Text))
          → s.lstat q ≡ entry true false
          → s.read_dir q ≡ o
          → ((r : Text) (l : List Text) → depth r < n → is_over (remove_tree n s r l) ≡ true)
          → is_over (remove_dir s (remove_tree n s) q o log) ≡ true
      dir none l r over = refl
      dir (some cs) l r over =
          after-over (remove_children (remove_tree n s) q cs log) (unlink s q)
            (remove_children-over (remove_tree n s) n over q cs [] cs log h l r refl)
            (λ log'. unlink-over s q log')

      at :
          (o : Lstat)
          → s.lstat q ≡ o
          → ((r : Text) (l : List Text) → depth r < n → is_over (remove_tree n s r l) ≡ true)
          → is_over (remove_entry s (remove_tree n s) q o log) ≡ true
      at gone l over = refl
      at lstat_failed l over = refl
      at (entry true false) l over = dir (s.read_dir q) l refl over
      at (entry true true) l over = unlink-over s q log
      at (entry false link) l over = unlink-over s q log

-- Remove of a path that exists is over within the depth of the tree. Each path that it takes away is
-- reached from its own path through directories that are no links, however it ends, and where it
-- succeeds its own path goes last.
pub remove_only_below :
    (n : ℕ) (s : Server) (p : Text) (recursive : Bool) (depth : Text → ℕ)
    → Sinks s depth
    → depth p < n
    → s.lstat p ≢ gone
    → (is_over (remove_path n s p recursive) ≡ true)
      × All (Below s p) (log_of (remove_path n s p recursive))
      × EndsWith p (remove_path n s p recursive)
unfolding remove_path
remove_only_below n s p recursive depth sinks deep there =
    if_both (λ e. (is_over e ≡ true) × All (Below s p) (log_of e) × EndsWith p e) recursive _ _
      (
        remove_tree-over s depth sinks n p [] deep,
        remove_tree-Under s p n p [] here tt,
        remove_tree-EndsWith n s p [] there,
      )
      (unlink-over s p [], unlink-Under s p p [] here tt, unlink-EndsWith s p [])
