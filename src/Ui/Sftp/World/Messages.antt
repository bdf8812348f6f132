-- ===== src/Ui/Sftp/World/Messages.antt =====
-- Every message but the end of a copy, as a change of the copies.
use tui_ssh_client.Prelude.{
  ℕ, ◌≡◌, inl, refl, Bool, true, false, List, [], ◌∷◌, Option, none, some, arith, if_both,
  if◌then◌else◌, if_cases, ◌==◌,
}
use tui_ssh_client.Sftp.RunSet.{Set}
use tui_ssh_client.Ui.Sftp.State.{
  Cmd, nothing, SplitView, Confirm, Notice, tick_progress, Request, Status,
}
use tui_ssh_client.Ui.Sftp.Update.{
  Msg, update, mouse_free, sftp_connected, sftp_failed, listed, not_listed, planned, not_planned,
  delete_planned, progress_tick, transfer_done, file_op_done, host_key_prompt, host_key_answered,
  key, mouse, resized, current, resize_panes, body_rows_for,
}
use tui_ssh_client.Ui.Sftp.World.{copies_of, from_copy, Text}
use tui_ssh_client.Ui.Sftp.World.Change.{Quiet, Kept, Change, Steady, idle-Kept}
use tui_ssh_client.Ui.Sftp.World.Routes.{handle_key-Change, set_pane-Kept}
use tui_ssh_client.Ui.Sftp.World.Pointed.{handle_sftp_mouse-Kept}
use tui_ssh_client.Ui.Sftp.Results.{
  ask, ask_host_key, connected, delete_confirm, failed, listed_in, refresh_pane, refresh_panes,
  notice_of, scanned,
}
use tui_ssh_client.Ui.State.{Focus, focus_local, focus_remote}
use tui_ssh_client.Ssh.Errors.{Err}
use tui_ssh_client.Ui.Sftp.Pane.{Pane, Side, server}
use tui_ssh_client.Sftp.Tree.{FileEntry}
use tui_ssh_client.Ui.Sftp.Pointer.{handle_sftp_mouse}
use tui_ssh_client.Ui.Sftp.Pane.Window.{
  IsShown, set_entries-IsShown, list_failed-IsShown, resize_pane-IsShown,
}

module _ (a : SplitView) (h : Steady a) where
  current-Kept : (g : ℕ) (r : SplitView × Cmd) → Kept a r → Kept a (current a g r)
  current-Kept g r k = if_both (Kept a) _ _ _ k (idle-Kept a h)

  listed_in-Kept :
      (side : Focus) (o : Option Pane) (f : Pane → Pane)
      → ((p : Pane) → IsShown (f p))
      → Kept a (listed_in a side o f, nothing)
  unfolding listed_in
  listed_in-Kept side none f s = idle-Kept a h
  listed_in-Kept side (some p) f s = set_pane-Kept a h side (f p) (s p)

  connected-Kept :
      (c : ℕ) (dir : Text) (es : List FileEntry) → Kept a (connected a c dir es, nothing)
  unfolding connected
  connected-Kept c dir es =
      ground (arith, set_entries-IsShown (record a.remote_pane { br = some (server c) }) dir es)

  failed-Kept : (e : Err) → Kept a (failed a e, nothing)
  unfolding failed
  failed-Kept e = ground arith

  ask-Kept :
      (req : Request) (ss : List Set) → a.scanning ≡ true → Kept a (ask (scanned a) req ss, nothing)
  unfolding ask
  ask-Kept req [] busy = ground arith
  ask-Kept req (s ∷ ss) busy = ground arith

  delete_confirm-Quiet :
      (dir : Text) (es : List FileEntry) (files dirs : ℕ) (s : Option Side)
      → Quiet (delete_confirm a dir es files dirs s)
  unfolding delete_confirm
  delete_confirm-Quiet dir [] files dirs s = tt
  delete_confirm-Quiet dir (e ∷ es) files dirs none = tt
  delete_confirm-Quiet dir (e ∷ es) files dirs (some s) = (refl, refl)

  confirmed-Kept :
      (c : Option Confirm) → Quiet c → Kept a (record (scanned a) { confirm = c }, nothing)
  confirmed-Kept c q = ground arith

  not_planned-Kept : (n : Notice) → Kept a (record (scanned a) { err_msg = n }, nothing)
  not_planned-Kept n = ground arith

  ask_host_key-Kept : (n : ℕ) (b : Bool) → Kept a (ask_host_key a n b)
  unfolding ask_host_key
  ask_host_key-Kept n false = ground arith
  ask_host_key-Kept n true = ground arith

  refresh_pane-none :
      (side : Focus) (p : Pane) (g : ℕ) (s : Option Side) (dir : Text)
      → copies_of (refresh_pane side p g s dir) ≡ []
  unfolding refresh_pane
  refresh_pane-none side p g none dir = refl
  refresh_pane-none side p g (some s) [] = refl
  refresh_pane-none side p g (some s) (c ∷ dir) = refl

  pub refresh_panes-none : copies_of (refresh_panes a) ≡ []
  unfolding refresh_panes
  refresh_panes-none = ground (
    arith,
    refresh_pane-none focus_local a.local a.gen a.local.br a.local.dir,
    refresh_pane-none focus_remote a.remote_pane a.gen a.remote_pane.br a.remote_pane.dir,
  )

  file_op_done-Kept :
      (n : Notice) (s : Status) → Kept a (record a { err_msg = n; status = s }, refresh_panes a)
  file_op_done-Kept n s = ground (arith, refresh_panes-none)

  resize_panes-Kept : (w r : ℕ) → Kept a (resize_panes a w r, nothing)
  unfolding resize_panes
  resize_panes-Kept w r =
      let rows = body_rows_for (if r == 0 then 24 else r) in
      ground (
        arith,
        resize_pane-IsShown rows a.local h.shown.0,
        resize_pane-IsShown rows a.remote_pane h.shown.1,
      )

  clear_of_free : mouse_free a ≡ true → a.pending ≡ none
  clear_of_free e = ground arith

  scanned-Kept :
      (r : SplitView × Cmd)
      → (a.scanning ≡ true → Kept a r)
      → Kept a (if a.scanning then r else (a, nothing))
  scanned-Kept r k = if_cases (Kept a) a.scanning r (a, nothing) k (λ idle. idle-Kept a h)

  pub update-Change : (m : Msg) → from_copy m ≡ false → Change a (update m a)
  unfolding update
  update-Change (sftp_connected g c dir es) e =
      inl (if_both (Kept a) _ _ _ (connected-Kept c dir es) late)
    where
      late : Kept a (record a { closed = c ∷ a.closed }, nothing)
      late = ground arith
  update-Change (sftp_failed g x) e = inl (current-Kept g _ (failed-Kept x))
  update-Change (listed g side dir es) e =
      inl (current-Kept g _ (listed_in-Kept side _ _ (λ p. set_entries-IsShown p dir es)))
  update-Change (not_listed g side dir x) e =
      inl (current-Kept g _ (listed_in-Kept side _ _ (λ p. list_failed-IsShown p dir _)))
  update-Change (planned g req) e = inl (current-Kept g _ (scanned-Kept _ (ask-Kept req req.sets)))
  update-Change (not_planned g x) e =
      inl (current-Kept g _ (scanned-Kept _ (λ busy. not_planned-Kept _)))
  update-Change (delete_planned g side dir es files dirs) e = inl (
      current-Kept g _
        (scanned-Kept _ (λ busy. confirmed-Kept _ (delete_confirm-Quiet dir es files dirs _))))
  update-Change (progress_tick g) e =
      inl (current-Kept g _ (if_both (Kept a) _ _ _ ticking (idle-Kept a h)))
    where
      ticking : Kept a (a, tick_progress a.gen)
      ticking = ground arith
  update-Change (transfer_done g label bytes skipped x) e = absurd (cc)
  update-Change (file_op_done g status x) e =
      inl (current-Kept g _ (file_op_done-Kept (notice_of x) status))
  update-Change (host_key_prompt n waited) e = inl (ask_host_key-Kept n waited)
  update-Change host_key_answered e = inl answered
    where
      answered : Kept a (record a { confirm = none }, nothing)
      answered = ground arith
  update-Change (key k) e = handle_key-Change a h k
  update-Change (mouse m) e = inl (
      if_cases (Kept a) (mouse_free a) (handle_sftp_mouse a m) (a, nothing)
        (λ free. handle_sftp_mouse-Kept a h (clear_of_free free) m) (λ busy. idle-Kept a h))
  update-Change (resized width height) e = inl (resize_panes-Kept width height)
