-- ===== src/Ui/Keymap/Lookup.antt =====
-- Which action a key has.
use tui_ssh_client.Prelude.{
  ◌≡◌, refl, ap, ◌∙◌, not, ◌&&◌, List, [], ◌∷◌, Option, none, some, arith, if◌then◌else◌,
}
use tui_ssh_client.Prelude.Text.{Text, text_eq}
use tui_ssh_client.Prelude.Words.{has}
use tui_ssh_client.Prelude.Dict.{Dict, lookup, insert, lookup-insert}
use tui_ssh_client.Ui.Keymap.Defaults.{Binding}
use tui_ssh_client.Ui.Keymap.{
  User, add_keys, dispatched, index_onto, reindex, action, default_keymap, apply,
}

abbrev pub or_else : Option Text → Option Text → Option Text
or_else none o = o
or_else (some t) o = some t

-- The action of the last row of the context that lists the key and is not documentation alone.
abbrev pub last_action : Text → Text → List Binding → Option Text
last_action ctx key [] = none
last_action ctx key (b ∷ bs) =
    or_else (last_action ctx key bs)
      (if text_eq b.ctx ctx && (not b.doc && has key b.keys) then some b.action else none)

lookup-add_keys :
    (key act : Text) (ks : List Text) (m : Dict Text)
    → lookup key (add_keys ks act m) ≡ (if has key ks then some act else lookup key m)
unfolding add_keys has
lookup-add_keys key act [] m = refl
lookup-add_keys key act (k ∷ ks) m =
    ground (arith, lookup-add_keys key act ks (insert k act m), lookup-insert k key act m)

or_else_assoc : (a b c : Option Text) → or_else a (or_else b c) ≡ or_else (or_else a b) c
or_else_assoc none b c = refl
or_else_assoc (some t) b c = refl

lookup-row :
    (ctx key : Text) (b : Binding) (m : Dict Text)
    → lookup key (if dispatched ctx b then add_keys b.keys b.action m else m)
      ≡ or_else
          (if text_eq b.ctx ctx && (not b.doc && has key b.keys) then some b.action else none)
          (lookup key m)
unfolding dispatched
lookup-row ctx key b m = ground (arith, lookup-add_keys key b.action b.keys m)

lookup-index_onto :
    (ctx key : Text) (bs : List Binding) (m : Dict Text)
    → lookup key (index_onto ctx bs m) ≡ or_else (last_action ctx key bs) (lookup key m)
unfolding index_onto
lookup-index_onto ctx key [] m = refl
lookup-index_onto ctx key (b ∷ bs) m =
    lookup-index_onto ctx key bs _
    ∙ (ap (or_else (last_action ctx key bs)) (lookup-row ctx key b m)
        ∙ or_else_assoc (last_action ctx key bs) _ (lookup key m))

or_none : (o : Option Text) → or_else o none ≡ o
or_none none = refl
or_none (some t) = refl

reindex-action :
    (ctx key : Text) (rows : List Binding)
    → action (reindex rows) ctx key ≡ last_action ctx key rows
unfolding action reindex lookup
reindex-action ctx key rows = lookup-index_onto ctx key rows [] ∙ or_none _

-- Whatever keys.json says, a key has in a context the action of the last row of that context that lists
-- it and is not documentation alone, and none if there is no such row.
pub action_is_last :
    (user : User) (ctx key : Text)
    → let k = (apply user default_keymap).0 in action k ctx key ≡ last_action ctx key k.rows
unfolding apply default_keymap reindex
action_is_last [] ctx key = reindex-action ctx key _
action_is_last (e ∷ es) ctx key = reindex-action ctx key _
