-- ===== src/Sftp/Remove.antt =====
-- internal/sftp/remote.go: Remove and removeTree, the deletion of a tree on the server.
pub mod Reach
pub mod Tests
use tui_ssh_client.Prelude.{
  ℕ, zero, suc, Bool, true, false, not, ◌&&◌, List, [], ◌∷◌, ◌++◌, Option, none, some,
  if◌then◌else◌,
}
use tui_ssh_client.Prelude.Text.{Text}
use tui_ssh_client.Prelude.Path.{join_path}

-- Lstat: no such file, another error, or an entry, by whether it is a directory and whether a link.
pub data Lstat : Type 0 where
  gone lstat_failed : Lstat
  entry : Bool → Bool → Lstat

-- The server, as far as a deletion asks it: what stands where as the deletion starts, and whether it
-- lets a path be removed. Each path is asked for before anything in it is removed.
pub record Server : Type 0 where
  pub lstat : Text → Lstat
  pub read_dir : Text → Option (List Text)
  pub lets_remove : Text → Bool

-- The paths that were removed, the first first; a tree that is too deep for the fuel.
pub data RemoveEnd : Type 0 where
  removed failed unfinished : List Text → RemoveEnd

abbrev pub log_of : RemoveEnd → List Text
log_of (removed log) = log
log_of (failed log) = log
log_of (unfinished log) = log

-- r.sc.Remove(p)
unfoldable pub unlink : Server → Text → List Text → RemoveEnd
unlink s p log = if s.lets_remove p then removed (log ++ p ∷ []) else failed log

unfoldable pub after : RemoveEnd → (List Text → RemoveEnd) → RemoveEnd
after (removed log) rest = rest log
after (failed log) rest = failed log
after (unfinished log) rest = unfinished log

-- The loop over the children of `p`, each removed by `f`.
unfoldable pub remove_children :
    (Text → List Text → RemoveEnd) → Text → List Text → List Text → RemoveEnd
unfolding after
remove_children f p [] log = removed log
remove_children f p (c ∷ cs) log = after (f (join_path p c) log) (remove_children f p cs)

unfoldable pub remove_dir :
    Server → (Text → List Text → RemoveEnd) → Text → Option (List Text) → List Text → RemoveEnd
unfolding after
remove_dir s f p none log = failed log
remove_dir s f p (some cs) log = after (remove_children f p cs log) (unlink s p)

unfoldable pub remove_entry :
    Server → (Text → List Text → RemoveEnd) → Text → Lstat → List Text → RemoveEnd
remove_entry s f p gone log = removed log
remove_entry s f p lstat_failed log = failed log
remove_entry s f p (entry is_dir link) log =
    if is_dir && not link then remove_dir s f p (s.read_dir p) log else unlink s p log

-- (r *Remote) removeTree, for a tree that is at most so many directories deep.
unfoldable pub remove_tree : ℕ → Server → Text → List Text → RemoveEnd
remove_tree zero s p log = unfinished log
remove_tree (suc n) s p log = remove_entry s (remove_tree n s) p (s.lstat p) log

-- (r *Remote) Remove
unfoldable pub remove_path : ℕ → Server → Text → Bool → RemoveEnd
remove_path n s p recursive = if recursive then remove_tree n s p [] else unlink s p []
