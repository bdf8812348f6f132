-- ===== src/Ui/Keymap/Tests.antt =====
-- Witnesses for the properties of the keymap, and a keys.json that leaves a clash.
use tui_ssh_client.Prelude.{◌≡◌, refl, [], ◌∷◌, true, some, is_some}
use tui_ssh_client.Prelude.Text.{codes, text_eq, text_lt}
use tui_ssh_client.Prelude.Words.{has, sort}
use tui_ssh_client.Prelude.Dict.{lookup}
use tui_ssh_client.Ui.Keymap.Defaults.{default_bindings}
use tui_ssh_client.Ui.Keymap.{
  User, ctx_session, act_escape, dispatched, action, binding, holders, default_keymap, apply,
  already_used, left_unbound, applied, is_row, set_keys, find, default_keys_for, reverts,
  resolve_clashes, require_bound,
}
use tui_ssh_client.Ui.Keymap.Lookup.{last_action, action_is_last}

-- The key of "files" for "new session", and one key for "files" and "edit".
abbrev moved : User
moved =
    (codes "sidebar.new_session", codes "f" ∷ [])
    ∷ (codes "sidebar.files", codes "z" ∷ [])
    ∷ (codes "sidebar.edit", codes "z" ∷ [])
    ∷ (codes "session.escape", [])
    ∷ []

action_is_last_example :
    let k = (apply moved default_keymap).0 in
    action k (codes "sidebar") (codes "f") ≡ last_action (codes "sidebar") (codes "f") k.rows
action_is_last_example = action_is_last moved (codes "sidebar") (codes "f")

-- Nothing for leaving a session, and its default key for scrolling up.
abbrev taken : User
taken = (codes "session.escape", []) ∷ (codes "session.scroll_up", codes "ctrl+b" ∷ []) ∷ []

-- The key is put back and stands in the row, but it still scrolls: no key leaves the session.
escape_is_lost :
    (last_action ctx_session (codes "ctrl+b") (applied taken default_bindings).0
      ≡ some (codes "session.scroll_up"))
    × (is_some (binding ctx_session act_escape (applied taken default_bindings).0) ≡ true)
unfolding holders applied default_bindings find binding is_row set_keys reverts resolve_clashes
    require_bound dispatched text_eq text_lt has sort lookup default_keys_for
escape_is_lost = (refl, refl)

-- Both "files" and "edit" go back to their defaults, so that "files" takes the key that "new session"
-- was given: two actions of the context have it, and nothing is said of the second.
clash_left : holders (codes "sidebar") (codes "f") (applied moved default_bindings).0 ≡ 2
unfolding holders applied default_bindings find binding is_row set_keys reverts resolve_clashes
    require_bound dispatched text_eq text_lt has sort lookup default_keys_for
clash_left = refl

refused_rows :
    (applied moved default_bindings).1
    ≡ left_unbound (codes "session.escape")
      ∷ already_used (codes "sidebar.edit")
      ∷ already_used (codes "sidebar.files")
      ∷ []
unfolding holders applied default_bindings find binding is_row set_keys reverts resolve_clashes
    require_bound dispatched text_eq text_lt has sort lookup default_keys_for
refused_rows = refl
