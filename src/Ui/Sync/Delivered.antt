-- ===== src/Ui/Sync/Delivered.antt =====
-- What a message that is delivered, and a program that starts again, do to the register.
use tui_ssh_client.Prelude.{
  ℕ, ◌≡◌, refl, [], Option, none, some, All-get, All-remove_at, get_elem?, remove_at,
}
use tui_ssh_client.Prelude.Text.{Text}
use tui_ssh_client.Config.VaultFile.{Outside}
use tui_ssh_client.Ui.Sync.{
  Auth, Msg, check_failed, push_failed, fetch_failed, apply_failed, checked, pushed, fetched,
  applied, close_sync,
}
use tui_ssh_client.Config.Bundle.Apply.{Report}
use tui_ssh_client.Ui.Sync.Handlers.{
  on_checked, with_form, on_check_failed, on_pushed, on_failed, on_fetched, register_if, on_applied,
  update, register,
}
use tui_ssh_client.Ui.Sync.World.{GitHub, World, took, deliver_msg, reloaded}
use tui_ssh_client.Ui.Sync.Register.{Register}
use tui_ssh_client.Ui.Sync.Simulates.{is_set, MsgOk, VaultOk, Simulates}
use tui_ssh_client.Ui.Sync.Moves.{took-Simulates}
use tui_ssh_client.Ui.Sync.Handled.{
  same-Simulates, register-Simulates, kept_sha-IsShaOf, pushed_with-All,
}

module _ (g : GitHub) (o : Outside) where
  applied-Simulates :
      (w : World) (s : Register) (rep : Report) (a : Option Auth) (sha : Text)
      → Simulates g o w s
      → MsgOk g o s (is_set w.app.registration) (applied rep a sha)
      → Simulates g o (took w (on_applied rep a sha w.app)) s
  unfolding on_applied register_if register
  applied-Simulates w s rep none sha h ok = absurd ok
  applied-Simulates w s rep (some a) sha h ok =
      register-Simulates g o w s h a sha _ _ ok refl refl refl (tt, tt)

  update-Simulates :
      (w : World) (s : Register) (m : Msg)
      → Simulates g o w s
      → MsgOk g o s (is_set w.app.registration) m
      → Simulates g o (took w (update m w.app)) s
  unfolding update on_check_failed with_form on_failed on_fetched on_pushed on_checked register
      close_sync
  update-Simulates w s (check_failed e) h ok = (same-Simulates g o w s h _ [] refl refl refl tt)
  update-Simulates w s (push_failed e) h ok = (same-Simulates g o w s h _ [] refl refl refl tt)
  update-Simulates w s (fetch_failed e) h ok = (same-Simulates g o w s h _ [] refl refl refl tt)
  update-Simulates w s (apply_failed e) h ok = (same-Simulates g o w s h _ [] refl refl refl tt)
  update-Simulates w s (checked a) h ok =
      (register-Simulates g o w s h a _ _ _ (kept_sha-IsShaOf g o w s h w.app.registration a) refl
        refl refl (tt, tt))
  update-Simulates w s (pushed sha n) h ok =
      (took-Simulates g o w s _ _ h (λ x. x) (pushed_with-All g o w s h w.app.registration sha ok)
        h.ask (tt, tt))
  update-Simulates w s (fetched f) h ok = (took-Simulates g o w s _ [] h (λ x. x) h.shas ok tt)
  update-Simulates w s (applied rep a sha) h ok = applied-Simulates w s rep a sha h ok

  without_mail :
      (w : World) (s : Register) (i : ℕ)
      → Simulates g o w s
      → Simulates g o (record w { mail = remove_at i w.mail }) s
  without_mail w s i h = record {
    files = h.files;
    shas = h.shas;
    ask = h.ask;
    running = h.running;
    mail = All-remove_at (MsgOk g o s (is_set w.app.registration)) i w.mail h.mail;
    vault = h.vault;
  }

  pub deliver-Simulates :
      (w : World) (s : Register) (i : ℕ) (m : Option Msg)
      → get_elem? w.mail i ≡ m
      → Simulates g o w s
      → Simulates g o (deliver_msg i m w) s
  unfolding deliver_msg
  deliver-Simulates w s i none e h = h
  deliver-Simulates w s i (some m) e h =
      update-Simulates (record w { mail = remove_at i w.mail }) s m (without_mail w s i h)
        (All-get (MsgOk g o s (is_set w.app.registration)) w.mail i m h.mail e)

  pub restart-Simulates :
      (w : World) (s : Register) (v : Option (Auth × Text))
      → VaultOk g o s v
      → Simulates g o w s
      → Simulates g o (record w { app = reloaded v; running = []; mail = [] }) s
  unfolding reloaded
  restart-Simulates w s none ok h = record {
    files = h.files;
    shas = tt;
    ask = tt;
    running = tt;
    mail = tt;
    vault = h.vault;
  }
  restart-Simulates w s (some (a, sha)) ok h = record {
    files = h.files;
    shas = (ok, tt);
    ask = tt;
    running = tt;
    mail = tt;
    vault = h.vault;
  }
