-- ===== src/Ui/Sync/Moves.antt =====
-- Moves of the register that the parts of a step need, and what the handlers keep.
use tui_ssh_client.Prelude.{◌≡◌, ap, true, List, [], ◌∷◌, All, All-mono, All-append}
use tui_ssh_client.Prelude.Text.{Text}
use tui_ssh_client.Prelude.Words.{has}
use tui_ssh_client.Prelude.Dict.{Dict, insert}
use tui_ssh_client.Config.VaultFile.{Outside}
use tui_ssh_client.Ui.Sync.{Cmd, Msg, SyncApp}
use tui_ssh_client.Ui.Sync.World.{GitHub, World, took, post}
use tui_ssh_client.Ui.Sync.Register.{
  Register, Move, is_own, Step, no_change, written, learned, brought,
}
use tui_ssh_client.Ui.Sync.Simulates.{
  is_set, IsShaOf, CmdOk, MsgOk, AskOk, Simulates, Grows, CmdOk-Grows, MsgOk-Grows, AskOk-Grows,
  VaultOk-Grows, IsShaOf-Grows, has-cons,
}

module _ (g : GitHub) (o : Outside) where
  -- The world after an event, and the register as it moved with it.
  pub record Moved (w : World) (s : Register) (m : Move) : Type 0 where
    pub to : Register
    pub moved : Step o m s to
    pub holds : Simulates g o w to

  pub unmoved :
      (w : World) (s : Register) (m : Move) → is_own m ≡ true → Simulates g o w s → Moved w s m
  unmoved w s m e h = record { to = s; moved = no_change s m e; holds = h }

  -- A handler that keeps what is registered, and gives commands that are well.
  pub took-Simulates :
      (w : World) (s : Register) (a : SyncApp) (cs : List Cmd)
      → Simulates g o w s
      → (is_set w.app.registration ≡ true → is_set a.registration ≡ true)
      → All (IsShaOf g o s.seen) a.shas
      → AskOk g o s (is_set a.registration) a.confirm
      → All (CmdOk g o s (is_set a.registration)) cs
      → Simulates g o (took w (a, cs)) s
  unfolding took
  took-Simulates w s a cs h up shas ask ok =
      let b = is_set w.app.registration in
      let d = is_set a.registration in
      let k : Grows g o s b s d = record { seen = λ c x. x; fetched = λ c x. x; set = up } in
      record {
        files = h.files;
        shas = shas;
        ask = ask;
        running =
            All-append (CmdOk g o s d) w.running cs
              (All-mono (CmdOk g o s b) (CmdOk g o s d) w.running (CmdOk-Grows g o s b s d k)
                h.running)
              ok;
        mail = All-mono (MsgOk g o s b) (MsgOk g o s d) w.mail (MsgOk-Grows g o s b s d k) h.mail;
        vault = h.vault;
      }

  pub post-Simulates :
      (m : Msg) (w : World) (s : Register)
      → MsgOk g o s (is_set w.app.registration) m
      → Simulates g o w s
      → Simulates g o (post m w) s
  unfolding post
  post-Simulates m w s ok h = record {
    files = h.files;
    shas = h.shas;
    ask = h.ask;
    running = h.running;
    mail = All-append (MsgOk g o s (is_set w.app.registration)) w.mail (m ∷ []) h.mail (ok, tt);
    vault = h.vault;
  }

  -- The register has another file, or knows more contents.
  pub grown-Simulates :
      (w : World) (s t : Register) (files : Dict Text)
      → Simulates g o w s
      → t.files ≡ files
      → ((c : Text) → has c s.seen ≡ true → has c t.seen ≡ true)
      → ((c : Text) → has c s.fetched ≡ true → has c t.fetched ≡ true)
      → Simulates g o (record w { files = files }) t
  grown-Simulates w s t files h e more bring =
      let b = is_set w.app.registration in
      let k : Grows g o s b t b = record { seen = more; fetched = bring; set = λ x. x } in
      record {
        files = e;
        shas =
            All-mono (IsShaOf g o s.seen) (IsShaOf g o t.seen) w.app.shas
              (λ sha. IsShaOf-Grows g o s.seen t.seen sha more) h.shas;
        ask = AskOk-Grows g o s b t b k w.app.confirm h.ask;
        running =
            All-mono (CmdOk g o s b) (CmdOk g o t b) w.running (CmdOk-Grows g o s b t b k)
              h.running;
        mail = All-mono (MsgOk g o s b) (MsgOk g o t b) w.mail (MsgOk-Grows g o s b t b k) h.mail;
        vault = VaultOk-Grows g o s t more w.vault h.vault;
      }

  pub learned-Simulates :
      (w : World) (s : Register) (c : Text) → Simulates g o w s → Simulates g o w (learned c s)
  learned-Simulates w s c h =
      grown-Simulates w s (learned c s) w.files h h.files (λ d x. has-cons c d s.seen x) (λ d x. x)

  pub brought-Simulates :
      (w : World) (s : Register) (c : Text) → Simulates g o w s → Simulates g o w (brought c s)
  brought-Simulates w s c h =
      grown-Simulates w s (brought c s) w.files h h.files (λ d x. x)
        (λ d x. has-cons c d s.fetched x)

  pub written-Simulates :
      (w : World) (s : Register) (f c : Text)
      → Simulates g o w s
      → Simulates g o (record w { files = insert f c w.files }) (written f c s)
  written-Simulates w s f c h =
      grown-Simulates w s (written f c s) (insert f c w.files) h (ap (insert f c) h.files)
        (λ d x. x) (λ d x. x)
