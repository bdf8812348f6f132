-- ===== src/Prelude/Path.antt =====
-- Go's path.Clean, path.Join, path.Dir and path.Base for paths that are separated by slashes.
use tui_ssh_client.Prelude.Tests.{if◌then◌else◌}
use tui_ssh_client.Prelude.Text.{Text, codes, text_eq, is_empty, has_prefix, split, join}
use mathlib.Core.Bool.{Bool, true}
use mathlib.Core.List.{List, [], ◌∷◌, ◌++◌, reverse}

-- The elements kept so far, the last first; `..` takes one away, and stays where none is left to
-- take in a path that is not rooted.
step : Bool → Text → List Text → List Text
step rooted w [] = if text_eq w (codes "..") then if rooted then [] else w ∷ [] else w ∷ []
step rooted w (v ∷ vs) =
    if text_eq w (codes "..") then if text_eq v (codes "..") then w ∷ v ∷ vs else vs else w ∷ v ∷ vs

elements : Bool → List Text → List Text → List Text
elements rooted [] acc = reverse acc
elements rooted (w ∷ ws) acc =
    let skip = if is_empty w then true else text_eq w (codes ".") in
    elements rooted ws (if skip then acc else step rooted w acc)

abbrev or_dot : Text → Text
or_dot [] = codes "."
or_dot p = p

-- path.Clean
unfoldable pub clean : Text → Text
unfolding elements step
clean p =
    let rooted = has_prefix p (codes "/") in
    let body = join (codes "/") (elements rooted (split b'/' p) []) in
    if rooted then codes "/" ++ body else or_dot body

-- path.Join(a, b)
unfoldable pub join_path : Text → Text → Text
unfolding clean
join_path [] [] = []
join_path [] b = clean b
join_path a [] = clean a
join_path a b = clean (a ++ (codes "/" ++ b))

-- The elements but the last, with the slash that ends them: the first half of path.Split.
dir_part : List Text → Text
dir_part [] = []
dir_part (w ∷ []) = []
dir_part (w ∷ v ∷ ws) = w ++ (codes "/" ++ dir_part (v ∷ ws))

-- path.Dir
unfoldable pub dir_path : Text → Text
unfolding clean dir_part
dir_path p = clean (dir_part (split b'/' p))
