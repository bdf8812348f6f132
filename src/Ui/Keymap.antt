-- ===== src/Ui/Keymap.antt =====
-- internal/ui/keymap.go: what a key does in a context, and the user's keys.json over the defaults.
-- The rows stand in one list in the order of their declaration: those of a context are the ones that
-- carry it.
pub mod Defaults
pub mod Lookup
pub mod Tests
use tui_ssh_client.Prelude.{
  ℕ, zero, suc, ◌+◌, Bool, true, false, not, ◌&&◌, ◌||◌, List, [], ◌∷◌, ◌++◌, Option, none, some,
  map, ltb, is_some, any_of, if◌then◌else◌,
}
use tui_ssh_client.Prelude.Text.{Text, codes, text_eq, text_lt}
use tui_ssh_client.Prelude.Words.{has, sort}
use tui_ssh_client.Prelude.Dict.{Dict, lookup, insert}
use tui_ssh_client.Ui.Keymap.Defaults.{Binding, default_bindings}

abbrev pub ctx_session : Text
ctx_session = codes "session"

abbrev pub ctx_global : Text
ctx_global = codes "global"

abbrev pub act_escape : Text
act_escape = codes "session.escape"

abbrev pub act_help : Text
act_help = codes "global.help"

abbrev pub context_order : List Text
context_order =
    ctx_global
    ∷ codes "sidebar"
    ∷ ctx_session
    ∷ codes "tabs"
    ∷ codes "sftp"
    ∷ codes "form"
    ∷ codes "import"
    ∷ codes "sync"
    ∷ codes "confirm"
    ∷ codes "error"
    ∷ codes "unlock"
    ∷ codes "prompt"
    ∷ codes "help"
    ∷ []

-- The two maps of Keymap; the second is what reindex makes of the first.
pub record Keymap : Type 0 where
  pub rows : List Binding
  pub index : Text → Dict Text

-- The entries of one row in the index: `m[key] = b.Action`.
unfoldable pub add_keys : List Text → Text → Dict Text → Dict Text
add_keys [] act m = m
add_keys (k ∷ ks) act m = add_keys ks act (insert k act m)

-- Whether a row of this context is dispatched by the index.
unfoldable pub dispatched : Text → Binding → Bool
dispatched ctx b = text_eq b.ctx ctx && not b.doc

unfoldable pub index_onto : Text → List Binding → Dict Text → Dict Text
index_onto ctx [] m = m
index_onto ctx (b ∷ bs) m =
    index_onto ctx bs (if dispatched ctx b then add_keys b.keys b.action m else m)

-- (k *Keymap) reindex
unfoldable pub reindex : List Binding → Keymap
reindex rows = record { rows = rows; index = λ ctx. index_onto ctx rows [] }

unfoldable pub default_keymap : Keymap
default_keymap = reindex default_bindings

-- (k *Keymap) Action; `none` is the empty action.
unfoldable pub action : Keymap → Text → Text → Option Text
action k ctx key = lookup key (k.index ctx)

unfoldable pub is_row : Text → Text → Binding → Bool
is_row ctx act b = text_eq b.ctx ctx && text_eq b.action act

-- (k *Keymap) Binding
unfoldable pub binding : Text → Text → List Binding → Option Binding
binding ctx act [] = none
binding ctx act (b ∷ bs) =
    let rest = binding ctx act bs in if is_row ctx act b then some b else rest

-- (k *Keymap) set
unfoldable pub set_keys : Text → Text → List Text → List Binding → List Binding
set_keys ctx act keys [] = []
set_keys ctx act keys (b ∷ bs) =
    let rest = set_keys ctx act keys bs in
    if is_row ctx act b then record b { keys = keys } ∷ bs else b ∷ rest

or_later : Text → Option Binding → Option (Text × Binding) → Option (Text × Binding)
or_later ctx none later = later
or_later ctx (some b) later = some (ctx, b)

find_in : List Text → Text → List Binding → Option (Text × Binding)
unfolding or_later
find_in [] act rows = none
find_in (c ∷ cs) act rows = or_later c (binding c act rows) (find_in cs act rows)

-- (k *Keymap) find
unfoldable pub find : Text → List Binding → Option (Text × Binding)
unfolding find_in
find act rows = find_in context_order act rows

keys_of : Text → List Binding → List Text
keys_of act [] = []
keys_of act (b ∷ bs) = let rest = keys_of act bs in if text_eq b.action act then b.keys else rest

-- defaultKeysFor
unfoldable pub default_keys_for : Text → List Text
unfolding keys_of
default_keys_for act = keys_of act default_bindings

abbrev count : Text → List Text → ℕ
count key [] = 0
count key (k ∷ ks) = let rest = count key ks in if text_eq k key then suc rest else rest

-- len(seen[key]): how many times the rows of the context have the key.
unfoldable pub holders : Text → Text → List Binding → ℕ
holders ctx key [] = 0
holders ctx key (b ∷ bs) =
    let rest = holders ctx key bs in if dispatched ctx b then count key b.keys + rest else rest

-- KeymapProblem, by its reason. Which of several keys a clash names depends on the order of a Go
-- map, and is left out.
pub data Problem : Type 0 where
  no_such_action not_rebindable already_used left_unbound : Text → Problem

abbrev pub problem_action : Problem → Text
problem_action (no_such_action t) = t
problem_action (not_rebindable t) = t
problem_action (already_used t) = t
problem_action (left_unbound t) = t

abbrev pub User : Type 0
User = Dict (List Text)

-- Whether resolveClashes puts the row back: one of its keys is held more than once.
unfoldable pub reverts : Text → List Binding → Binding → Bool
reverts ctx rows b = dispatched ctx b && any_of (λ key. ltb 1 (holders ctx key rows)) b.keys

abbrev revert : Text → List Binding → Binding → Binding
revert ctx rows b = if reverts ctx rows b then record b { keys = default_keys_for b.action } else b

clash_problems : Text → User → List Binding → List Binding → List Problem
clash_problems ctx user rows [] = []
clash_problems ctx user rows (b ∷ bs) =
    let rest = clash_problems ctx user rows bs in
    if reverts ctx rows b && is_some (lookup b.action user)
    then already_used b.action ∷ rest
    else rest

-- resolveClashes: an action stands in one row, so the keys of all rows that clash are put back at
-- once, and the order in which the source visits them makes no difference.
unfoldable pub resolve_clashes : Text → User → List Binding → List Binding × List Problem
unfolding clash_problems
resolve_clashes ctx user rows = (map (revert ctx rows) rows, clash_problems ctx user rows rows)

abbrev pub no_keys : Option Binding → Bool
no_keys none = false
no_keys (some b) = elim b.keys [ [] ↦ true | k ∷ ks ↦ false ]

-- requireBound
unfoldable pub require_bound : Text → Text → List Binding → List Binding × List Problem
require_bound ctx act rows =
    if no_keys (binding ctx act rows)
    then (set_keys ctx act (default_keys_for act) rows, left_unbound act ∷ [])
    else (rows, [])

-- The state of Apply's first loop.
pub record Overlay : Type 0 where
  pub rows : List Binding
  pub touched : List Text
  pub problems : List Problem

abbrev or_nil : Option (List Text) → List Text
or_nil none = []
or_nil (some ks) = ks

abbrev touch : Text → List Text → List Text
touch ctx cs = if has ctx cs then cs else ctx ∷ cs

overlay_found : User → Text → Option (Text × Binding) → Overlay → Overlay
overlay_found user id none o = record o { problems = o.problems ++ no_such_action id ∷ [] }
overlay_found user id (some (ctx, b)) o =
    if b.doc then record o { problems = o.problems ++ not_rebindable id ∷ [] } else record o {
      rows = set_keys ctx id (or_nil (lookup id user)) o.rows;
      touched = touch ctx o.touched;
    }

overlay : User → List Text → Overlay → Overlay
unfolding overlay_found
overlay user [] o = o
overlay user (id ∷ ids) o = overlay user ids (overlay_found user id (find id o.rows) o)

resolve_all : User → List Text → List Binding → List Problem → List Binding × List Problem
resolve_all user [] rows ps = (rows, ps)
resolve_all user (c ∷ cs) rows ps =
    let (rows', qs) = resolve_clashes c user rows in resolve_all user cs rows' (ps ++ qs)

abbrev insert_problem : Problem → List Problem → List Problem
insert_problem p [] = p ∷ []
insert_problem p (q ∷ qs) =
    let rest = insert_problem p qs in
    if text_lt (problem_action q) (problem_action p) then q ∷ rest else p ∷ q ∷ qs

abbrev sort_problems : List Problem → List Problem
sort_problems [] = []
sort_problems (p ∷ ps) = insert_problem p (sort_problems ps)

-- Apply up to the clashes: the rows of the file over ours, and then the contexts that it touched.
resolved : User → List Binding → List Binding × List Problem
unfolding overlay resolve_all
resolved user rows =
    let o =
      overlay user (sort (map (λ e. e.0) user))
        (record { rows = rows; touched = []; problems = [] }) in
    resolve_all user o.touched o.rows o.problems

-- What Apply does to the rows of a file that is not empty, and what it refused.
unfoldable pub applied : User → List Binding → List Binding × List Problem
unfolding resolved
applied user rows =
    let (rows1, ps1) = resolved user rows in
    let (rows2, ps2) = require_bound ctx_session act_escape rows1 in
    let (rows3, ps3) = require_bound ctx_global act_help rows2 in
    (rows3, sort_problems (ps1 ++ (ps2 ++ ps3)))

-- (k *Keymap) Apply
unfoldable pub apply : User → Keymap → Keymap × List Problem
apply [] k = (k, [])
apply (e ∷ es) k = let (rows, ps) = applied (e ∷ es) k.rows in (reindex rows, ps)
