-- ===== src/Ui/Sync/Simulates.antt =====
-- How the state of sync stands to the register: what each sha is known to be the sha of.
use tui_ssh_client.Prelude.{
  ℕ, zero, ◌≡◌, refl, inl, inr, ◌⊎◌, Bool, true, false, List, [], ◌∷◌, Option, none, some, All,
  arith, suc,
}
use tui_ssh_client.Prelude.Text.{Text, text_eq_refl}
use tui_ssh_client.Prelude.Words.{has}
use tui_ssh_client.Config.VaultFile.{Outside}
use tui_ssh_client.Ui.Sync.{
  Auth, Registration, Fetched, Cmd, check_repo, push_cmd, pull_cmd, apply_pull, persist,
  load_servers, Msg, check_failed, push_failed, fetch_failed, apply_failed, checked, pushed,
  fetched, applied,
}
use tui_ssh_client.Ui.Sync.Handlers.{sha_at}
use tui_ssh_client.Ui.Sync.World.{GitHub, World}
use tui_ssh_client.Ui.Sync.Register.{Register, OpensTo}

abbrev pub is_set : Option Registration → Bool
is_set none = false
is_set (some r) = true

module _ (g : GitHub) (o : Outside) where
  -- No sha, or that of contents in the list.
  abbrev pub IsShaOf : List Text → Text → Type 0
  IsShaOf cs sha = (sha ≡ []) ⊎ (c : Text) × (has c cs ≡ true) × (sha ≡ g.sha_of c)

  -- The bundle and the sha are those of one file that was taken.
  abbrev pub IsBrought : Register → Text → Text → Type 0
  IsBrought s blob sha =
      (c : Text) × (has c s.fetched ≡ true) × (sha ≡ g.sha_of c) × OpensTo o c blob

  abbrev pub CmdOk : Register → Bool → Cmd → Type 0
  CmdOk s b (apply_pull blob sha none) = ⊥
  CmdOk s b (apply_pull blob sha (some r)) = IsBrought s blob sha
  CmdOk s b (pull_cmd r) = b ≡ true
  CmdOk s b _ = Unit

  abbrev pub MsgOk : Register → Bool → Msg → Type 0
  MsgOk s b (pushed sha n) = IsShaOf s.seen sha
  MsgOk s b (fetched f) = (b ≡ true) × IsBrought s f.blob f.sha
  MsgOk s b (applied rep none sha) = ⊥
  MsgOk s b (applied rep (some a) sha) = IsShaOf s.seen sha
  MsgOk s b _ = Unit

  abbrev pub AskOk : Register → Bool → Option Fetched → Type 0
  AskOk s b none = Unit
  AskOk s b (some f) = (b ≡ true) × IsBrought s f.blob f.sha

  abbrev pub VaultOk : Register → Option (Auth × Text) → Type 0
  VaultOk s none = Unit
  VaultOk s (some v) = IsShaOf s.seen v.1

  pub record Simulates (w : World) (s : Register) : Type 0 where
    pub files : s.files ≡ w.files
    pub shas : All (IsShaOf s.seen) w.app.shas
    pub ask : AskOk s (is_set w.app.registration) w.app.confirm
    pub running : All (CmdOk s (is_set w.app.registration)) w.running
    pub mail : All (MsgOk s (is_set w.app.registration)) w.mail
    pub vault : VaultOk s w.vault

  -- What only grows.
  pub record Grows (s : Register) (b : Bool) (t : Register) (d : Bool) : Type 0 where
    pub seen : (c : Text) → has c s.seen ≡ true → has c t.seen ≡ true
    pub fetched : (c : Text) → has c s.fetched ≡ true → has c t.fetched ≡ true
    pub set : b ≡ true → d ≡ true

  pub IsShaOf-Grows :
      (cs ds : List Text) (sha : Text)
      → ((c : Text) → has c cs ≡ true → has c ds ≡ true)
      → IsShaOf cs sha
      → IsShaOf ds sha
  IsShaOf-Grows cs ds sha f (inl e) = inl e
  IsShaOf-Grows cs ds sha f (inr (c, h, e)) = inr (c, f c h, e)

  pub IsBrought-Grows :
      (s t : Register) (blob sha : Text)
      → ((c : Text) → has c s.fetched ≡ true → has c t.fetched ≡ true)
      → IsBrought s blob sha
      → IsBrought t blob sha
  IsBrought-Grows s t blob sha f (c, h, e, q) = (c, f c h, e, q)

  pub CmdOk-Grows :
      (s : Register) (b : Bool) (t : Register) (d : Bool)
      → Grows s b t d
      → (c : Cmd) → CmdOk s b c
      → CmdOk t d c
  CmdOk-Grows s b t d k (check_repo a) h = tt
  CmdOk-Grows s b t d k (push_cmd r) h = tt
  CmdOk-Grows s b t d k (pull_cmd r) h = k.set h
  CmdOk-Grows s b t d k (apply_pull blob sha none) h = h
  CmdOk-Grows s b t d k (apply_pull blob sha (some r)) h = IsBrought-Grows s t blob sha k.fetched h
  CmdOk-Grows s b t d k (persist r) h = tt
  CmdOk-Grows s b t d k load_servers h = tt

  pub MsgOk-Grows :
      (s : Register) (b : Bool) (t : Register) (d : Bool)
      → Grows s b t d
      → (m : Msg) → MsgOk s b m
      → MsgOk t d m
  MsgOk-Grows s b t d k (check_failed e) h = tt
  MsgOk-Grows s b t d k (push_failed e) h = tt
  MsgOk-Grows s b t d k (fetch_failed e) h = tt
  MsgOk-Grows s b t d k (apply_failed e) h = tt
  MsgOk-Grows s b t d k (checked a) h = tt
  MsgOk-Grows s b t d k (pushed sha n) h = IsShaOf-Grows s.seen t.seen sha k.seen h
  MsgOk-Grows s b t d k (fetched f) h = (k.set h.0, IsBrought-Grows s t f.blob f.sha k.fetched h.1)
  MsgOk-Grows s b t d k (applied rep none sha) h = h
  MsgOk-Grows s b t d k (applied rep (some a) sha) h = IsShaOf-Grows s.seen t.seen sha k.seen h

  pub AskOk-Grows :
      (s : Register) (b : Bool) (t : Register) (d : Bool)
      → Grows s b t d
      → (f : Option Fetched) → AskOk s b f
      → AskOk t d f
  AskOk-Grows s b t d k none h = tt
  AskOk-Grows s b t d k (some f) h = (k.set h.0, IsBrought-Grows s t f.blob f.sha k.fetched h.1)

  pub VaultOk-Grows :
      (s t : Register)
      → ((c : Text) → has c s.seen ≡ true → has c t.seen ≡ true)
      → (v : Option (Auth × Text)) → VaultOk s v
      → VaultOk t v
  VaultOk-Grows s t k none h = tt
  VaultOk-Grows s t k (some v) h = IsShaOf-Grows s.seen t.seen v.1 k h

  pub sha_at-IsShaOf :
      (cs shas : List Text) (i : ℕ) → All (IsShaOf cs) shas → IsShaOf cs (sha_at shas i)
  unfolding sha_at
  sha_at-IsShaOf cs [] i h = inl refl
  sha_at-IsShaOf cs (x ∷ xs) zero h = h.0
  sha_at-IsShaOf cs (x ∷ xs) (suc i) h = sha_at-IsShaOf cs xs i h.1

pub has-cons : (x c : Text) (cs : List Text) → has c cs ≡ true → has c (x ∷ cs) ≡ true
unfolding has
has-cons x c cs h = ground arith

pub has-head : (c : Text) (cs : List Text) → has c (c ∷ cs) ≡ true
unfolding has
has-head c cs = rw (text_eq_refl c) refl
