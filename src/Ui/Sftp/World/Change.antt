-- ===== src/Ui/Sftp/World/Change.antt =====
-- What each handler of the split view does to the copies: it leaves them, starts one where none was
-- asked for, or takes the connection down.
use tui_ssh_client.Prelude.{
  ℕ, ◌+◌, ◌≤◌, ◌≡◌, ◌⊎◌, inl, refl, Bool, true, false, List, [], ◌∷◌, Option, none, some, arith,
}
use tui_ssh_client.Prelude.Text.{Text}
use tui_ssh_client.Sftp.Tree.{FileEntry}
use tui_ssh_client.Model.Server.{Server}
use tui_ssh_client.Ui.State.{Focus}
use tui_ssh_client.Ui.Sftp.Pane.{Pane, this_machine}
use tui_ssh_client.Ui.Sftp.State.{
  Request, TransferState, Rename, Cmd, nothing, Confirm, SplitView, cancel_of, teardown_sftp,
}
use tui_ssh_client.Ui.Sftp.Handlers.{
  build_transfer, start_transfer, cancel_transfer, start_delete, resolve_rename,
}
use tui_ssh_client.Ui.Sftp.Keys.{start_sftp}
use tui_ssh_client.Ui.Sftp.World.{copies_of}
use tui_ssh_client.Ui.Sftp.Pane.Window.{IsShown, new_pane-IsShown}

abbrev pub one_if {ℓ} : {A : Type ℓ} → Option A → ℕ
one_if none = 0
one_if (some x) = 1

abbrev pub one_when : Bool → ℕ
one_when true = 1
one_when false = 0

-- How many of a walk, a question and a copy are under way.
abbrev pub load : SplitView → ℕ
load a = one_when a.scanning + one_if a.pending + one_if a.transfer

abbrev pub ctx_of : Option TransferState → Option ℕ
ctx_of none = none
ctx_of (some t) = some t.ctx

abbrev pub Quiet : Option Confirm → Type 0
Quiet none = Unit
Quiet (some c) = (copies_of c.on_yes ≡ []) × (copies_of c.on_no ≡ [])

-- Both panes have their cursor on the listing and in the window.
abbrev pub Shown : SplitView → Type 0
Shown a = IsShown a.local × IsShown a.remote_pane

pub record Kept (a : SplitView) (r : SplitView × Cmd) : Type 0 where
  pub same_gen : r.0.gen ≡ a.gen
  pub same_copy : ctx_of r.0.transfer ≡ ctx_of a.transfer
  pub cancels : (r.0.cancelled ≡ a.cancelled) ⊎ (r.0.cancelled ≡ cancel_of a.transfer a.cancelled)
  pub same_contexts : r.0.contexts ≡ a.contexts
  pub starts_none : copies_of r.1 ≡ []
  pub alone : load r.0 ≤ 1
  pub quiet : Quiet r.0.confirm
  pub shown : Shown r.0

pub record Started (a : SplitView) (r : SplitView × Cmd) : Type 0 where
  pub asked : a.transfer ≡ none
  pub same_gen : r.0.gen ≡ a.gen
  pub new_copy : ctx_of r.0.transfer ≡ some a.contexts
  pub cancels : r.0.cancelled ≡ a.cancelled
  pub next_context : r.0.contexts ≡ a.contexts + 1
  pub starts_one : copies_of r.1 ≡ record { ctx = a.contexts; gen = a.gen } ∷ []
  pub alone : load r.0 ≤ 1
  pub quiet : Quiet r.0.confirm
  pub shown : Shown r.0

pub record Torn (a : SplitView) (r : SplitView × Cmd) : Type 0 where
  pub next_gen : r.0.gen ≡ a.gen + 1
  pub no_copy : r.0.transfer ≡ none
  pub cancels : r.0.cancelled ≡ cancel_of a.transfer a.cancelled
  pub same_contexts : r.0.contexts ≡ a.contexts
  pub starts_none : copies_of r.1 ≡ []
  pub alone : load r.0 ≤ 1
  pub quiet : Quiet r.0.confirm
  pub shown : Shown r.0

abbrev pub Change : SplitView → SplitView × Cmd → Type 0
Change a r = Kept a r ⊎ (Started a r ⊎ Torn a r)

-- What every handler may take for granted, and keeps.
pub record Steady (a : SplitView) : Type 0 where
  pub alone : load a ≤ 1
  pub quiet : Quiet a.confirm
  pub shown : Shown a

module _ (a : SplitView) (h : Steady a) where
  pub idle-Kept : Kept a (a, nothing)
  idle-Kept = record {
    same_gen = refl;
    same_copy = refl;
    cancels = inl refl;
    same_contexts = refl;
    starts_none = refl;
    alone = h.alone;
    quiet = h.quiet;
    shown = h.shown;
  }

  pub build_transfer-Kept :
      (from : Focus) (es : List FileEntry) → a.pending ≡ none → Kept a (build_transfer a from es)
  unfolding build_transfer
  build_transfer-Kept from es p = ground arith

  pub start_delete-Kept :
      (side : Focus) (p : Pane) → a.pending ≡ none → Kept a (start_delete a side p)
  unfolding start_delete
  start_delete-Kept side p e = ground arith

  pub resolve_rename-Kept : (r : Rename) (key value : Text) → Kept a (resolve_rename a r key value)
  unfolding resolve_rename
  resolve_rename-Kept r key value = ground arith

  pub start_transfer-Started :
      (req : Request) → a.pending ≡ some req → Started a (start_transfer a req)
  unfolding start_transfer
  start_transfer-Started req e = ground arith

  pub cancel_transfer-Kept : Kept a (cancel_transfer a, nothing)
  unfolding cancel_transfer
  cancel_transfer-Kept = ground arith

  pub start_sftp-Torn : (srv : Server) → Torn a (start_sftp a srv)
  unfolding start_sftp teardown_sftp
  start_sftp-Torn srv =
      ground
        (arith, new_pane-IsShown (some this_machine) a.body_rows, new_pane-IsShown none a.body_rows)
