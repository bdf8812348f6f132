-- ===== src/Ui/Sftp/World/Routes.antt =====
-- The keys of the split view, each as a change of the copies.
use tui_ssh_client.Prelude.{
  ◌-◌, max, length, ◌≡◌, inl, inr, refl, Bool, [], Option, none, some, arith, if_both, subst,
}
use tui_ssh_client.Prelude.Text.{Text, codes}
use tui_ssh_client.Prelude.Int.{ℤ, pos}
use tui_ssh_client.Prelude.Path.{dir_path, join_path}
use tui_ssh_client.Sftp.Tree.{FileEntry}
use tui_ssh_client.Model.Server.{Server}
use tui_ssh_client.Ui.State.{
  focus_local, focus_remote, Focus, RightMode, focus_sidebar, right_error,
}
use tui_ssh_client.Ui.Keymap.{action}
use tui_ssh_client.Ui.Sftp.Pane.{
  Side, Pane, selected, targets, move_cursor, toggle_mark, clear_marks,
}
use tui_ssh_client.Ui.Sftp.State.{
  Request, Cmd, nothing, Confirm, SplitView, pane, set_pane, other_side, teardown_sftp, edit_server,
  Rename, quit, still_connected, transfer_cancelled,
}
use tui_ssh_client.Ui.Sftp.Handlers.{start_rename, resolve_rename}
use tui_ssh_client.Ui.Sftp.Keys.{
  open_sftp, retry_connect, handle_sftp_key, open_dir, card_key, current_entry, moved,
  open_selected, pane_act, pane_key, minus, dismiss_sftp_error, move_act,
}
use tui_ssh_client.Ui.Sftp.Update.{
  Key, list_key, sidebar_key, focus_key, pending_key, confirm_key, rename_key, resolve_confirm,
  resolve_pending, handle_key, dismiss_error,
}
use tui_ssh_client.Ui.Sftp.World.{copies_of}
use tui_ssh_client.Ui.Sftp.World.Change.{
  Quiet, Kept, Torn, Change, Steady, idle-Kept, build_transfer-Kept, start_delete-Kept,
  resolve_rename-Kept, start_transfer-Started, cancel_transfer-Kept, start_sftp-Torn,
}
use tui_ssh_client.Ui.Sftp.Pane.Window.{
  IsShown, move_cursor-IsShown, toggle_mark-IsShown, clear_marks-IsShown, new_pane-IsShown,
}

module _ (a : SplitView) (h : Steady a) where
  pub pane-IsShown : (side : Focus) (p : Pane) → pane a side ≡ some p → IsShown p
  unfolding pane
  pane-IsShown side p e = ground arith

  pub set_pane-Kept : (side : Focus) (p : Pane) → IsShown p → Kept a (set_pane a side p, nothing)
  unfolding set_pane
  set_pane-Kept side p s = ground arith

  start_rename-Kept : (side : Focus) (p : Pane) → Kept a (start_rename a side p, nothing)
  unfolding start_rename
  start_rename-Kept side p = ground arith

  open_dir-Kept : (side : Focus) (s : Option Side) (dir : Text) → Kept a (open_dir a side s dir)
  unfolding open_dir
  open_dir-Kept side none dir = ground arith
  open_dir-Kept side (some s) dir = ground arith

  open_sftp-Change : (s : Option Server) → Change a (open_sftp a s)
  unfolding open_sftp
  open_sftp-Change none = inl (idle-Kept a h)
  open_sftp-Change (some srv) = ground (arith, start_sftp-Torn a h srv)

  retry_connect-Change : Change a (retry_connect a)
  unfolding retry_connect
  retry_connect-Change =
      ground (arith, start_sftp-Torn a h (current_entry a.servers a.last_attempt))

  dismissed-Kept : (cmd : Cmd) → copies_of cmd ≡ [] → Kept a (dismiss_sftp_error a, cmd)
  unfolding dismiss_sftp_error
  dismissed-Kept cmd e = ground arith

  card_key-Change : (act : Option Text) → Change a (card_key a act)
  unfolding card_key
  card_key-Change act = if_both (Change a) _ _ _ retry_connect-Change (
      if_both (Change a) _ _ _ (inl (dismissed-Kept (edit_server a.last_attempt) refl))
        (if_both (Change a) _ _ _ (inl (dismissed-Kept nothing refl)) (inl (idle-Kept a h))))

  module _ (clear : a.pending ≡ none) where
    open_selected-Kept :
        (side : Focus) (p : Pane) (e : Option FileEntry) → Kept a (open_selected a side p e)
    unfolding open_selected
    open_selected-Kept side p none = idle-Kept a h
    open_selected-Kept side p (some e) = ground (
      arith,
      open_dir-Kept side p.br (dir_path p.dir),
      open_dir-Kept side p.br (join_path p.dir e.name),
      build_transfer-Kept a h side (targets p) clear,
    )

    moved-Kept : (side : Focus) (p : Pane) → IsShown p → (d : ℤ) → Kept a (moved a side p d)
    unfolding moved
    moved-Kept side p s d = set_pane-Kept side (move_cursor p d) (move_cursor-IsShown p d s)

    move_act-Kept :
        (side : Focus) (p : Pane) → IsShown p → (act : Option Text) → Kept a (move_act a side p act)
    unfolding move_act
    move_act-Kept side p s act =
        let move = moved-Kept side p s in
        if_both (Kept a) _ _ _ (move (minus 1)) (
          if_both (Kept a) _ _ _ (move (pos 1)) (
            if_both (Kept a) _ _ _ (move (minus (max (p.rows - 1) 1))) (
              if_both (Kept a) _ _ _ (move (pos (max (p.rows - 1) 1))) (
                if_both (Kept a) _ _ _ (move (minus (length p.entries))) (
                  if_both (Kept a) _ _ _ (move (pos (length p.entries))) (
                    if_both (Kept a) _ _ _ (open_dir-Kept side p.br (dir_path p.dir)) (
                      if_both (Kept a) _ _ _ (open_dir-Kept side p.br p.dir) (
                        if_both (Kept a) _ _ _ (open_selected-Kept side p (selected p))
                          (idle-Kept a h)))))))))

    refocused-Kept : (f : Focus) → Kept a (record a { focus = f }, nothing)
    refocused-Kept f = ground arith

    left-Kept : Kept a (record a { focus = focus_sidebar; status = still_connected }, nothing)
    left-Kept = ground arith

    pane_act-Kept :
        (side : Focus) (p : Pane) → IsShown p → (act : Option Text) → Kept a (pane_act a side p act)
    unfolding pane_act
    pane_act-Kept side p s act = if_both (Kept a) _ _ _ left-Kept (
        if_both (Kept a) _ _ _ (refocused-Kept (other_side side)) (
          if_both (Kept a) _ _ _ (moved-Kept side (toggle_mark p) (toggle_mark-IsShown p s) (pos 1))
            (if_both (Kept a) _ _ _ (set_pane-Kept side (clear_marks p) (clear_marks-IsShown p s)) (
              if_both (Kept a) _ _ _ (build_transfer-Kept a h side (targets p) clear) (
                if_both (Kept a) _ _ _ (start_delete-Kept a h side p clear) (
                  if_both (Kept a) _ _ _ (start_rename-Kept side p)
                    (move_act-Kept side p s act)))))))

    handle_sftp_key-Change : (key : Text) → Change a (handle_sftp_key a key)
    unfolding handle_sftp_key pane_key
    handle_sftp_key-Change key = at (pane a a.focus) refl
      where
        at : (o : Option Pane) → pane a a.focus ≡ o → Change a (pane_key a key o)
        at none e = inl (refocused-Kept focus_sidebar)
        at (some p) e =
            if_both (Change a) _ _ _ (card_key-Change (action a.keys (codes "error") key)) (
              inl (
                pane_act-Kept a.focus p (pane-IsShown a.focus p e)
                  (action a.keys (codes "sftp") key)))

    list_key-Change : (k : Key) → Change a (list_key a k)
    unfolding list_key teardown_sftp
    list_key-Change k =
        if_both (Change a) _ _ _ (inr (inr torn))
          (if_both (Change a) _ _ _ (open_sftp-Change k.selected) (inl (idle-Kept a h)))
      where
        torn : Torn a (teardown_sftp a, quit)
        torn = ground (arith, new_pane-IsShown none a.remote_pane.rows)

    dismiss_error-Kept : (b : Bool) → Kept a (dismiss_error a b, nothing)
    unfolding dismiss_error
    dismiss_error-Kept b = ground arith

    card-Change : (k : Key) → Change a (sidebar_key a k right_error)
    unfolding sidebar_key
    card-Change k = if_both (Change a) _ _ _ retry_connect-Change (
        if_both (Change a) _ _ _ (inl edited)
          (if_both (Change a) _ _ _ (inl (dismiss_error-Kept k.tabs_open)) (list_key-Change k)))
      where
        edited : Kept a (a, edit_server a.last_attempt)
        edited = ground arith

    sidebar_key-Change : (k : Key) (m : RightMode) → Change a (sidebar_key a k m)
    unfolding sidebar_key
    sidebar_key-Change k right_error = card-Change k
    sidebar_key-Change k _ = list_key-Change k

    focus_key-Change : (k : Key) (f : Focus) → Change a (focus_key a k f)
    unfolding focus_key
    focus_key-Change k focus_local = handle_sftp_key-Change k.name
    focus_key-Change k focus_remote = handle_sftp_key-Change k.name
    focus_key-Change k focus_sidebar = sidebar_key-Change k a.right_mode
    focus_key-Change k _ = inl (idle-Kept a h)

  resolve_pending-Change :
      (req : Request) (act : Option Text)
      → a.pending ≡ some req
      → Change a (resolve_pending a req act)
  unfolding resolve_pending
  resolve_pending-Change req act e =
      if_both (Change a) _ _ _ (inr (inl (start_transfer-Started a h req e)))
        (if_both (Change a) _ _ _ (inl dropped) (inl (idle-Kept a h)))
    where
      dropped : Kept a (record a { pending = none; status = transfer_cancelled }, nothing)
      dropped = ground arith

  pending_key-Change : (k : Key) (o : Option Request) → a.pending ≡ o → Change a (pending_key a k o)
  unfolding pending_key
  pending_key-Change k none e = focus_key-Change e k a.focus
  pending_key-Change k (some req) e = resolve_pending-Change req _ e

  confirm_key-Change : (k : Key) (o : Option Confirm) → a.confirm ≡ o → Change a (confirm_key a k o)
  unfolding confirm_key resolve_confirm
  confirm_key-Change k none e = pending_key-Change k a.pending refl
  confirm_key-Change k (some c) e = inl (
      if_both (Kept a) _ _ _ (answered c.on_yes (quiet e).0)
        (if_both (Kept a) _ _ _ (answered c.on_no (quiet e).1) (idle-Kept a h)))
    where
      quiet : a.confirm ≡ some c → (copies_of c.on_yes ≡ []) × (copies_of c.on_no ≡ [])
      quiet e = subst Quiet e h.quiet

      answered : (cmd : Cmd) → copies_of cmd ≡ [] → Kept a (record a { confirm = none }, cmd)
      answered cmd q = ground arith

  rename_key-Change : (k : Key) → Change a (rename_key a k)
  unfolding rename_key
  rename_key-Change k = at a.rename
    where
      at :
          (o : Option Rename)
          → Change a (elim o [
            | none ↦ confirm_key a k a.confirm
            | some r ↦ resolve_rename a r k.name k.value
          ])
      at none = confirm_key-Change k a.confirm refl
      at (some r) = inl (resolve_rename-Kept a h r k.name k.value)

  pub handle_key-Change : (k : Key) → Change a (handle_key a k)
  unfolding handle_key
  handle_key-Change k =
      if_both (Change a) _ _ _ (inl (cancel_transfer-Kept a h)) (rename_key-Change k)
