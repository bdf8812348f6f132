-- ===== src/Ui/Sync/Register.antt =====
-- What sync promises: files that many write, in which this machine replaces only what it has seen.
use tui_ssh_client.Prelude.{◌≡◌, Bool, true, false, List, [], ◌∷◌, none, some, ◌⊎◌}
use tui_ssh_client.Prelude.Text.{Text}
use tui_ssh_client.Prelude.Words.{has}
use tui_ssh_client.Prelude.Dict.{Dict, lookup, insert}
use tui_ssh_client.Config.VaultFile.{Outside, plain, decrypt}

-- The files, the contents that this machine has put there or has applied, and those that it has fetched.
pub record Register : Type 0 where
  pub files : Dict Text
  pub seen : List Text
  pub fetched : List Text

-- What happens: others put a file there, or this machine takes one, applies a bundle, tries to put one there,
-- or does nothing of this.
pub data Move : Type 0 where
  other_puts : Text → Text → Move
  takes : Text → Move
  applies : Text → Move
  own_puts : Text → Move
  rests : Move

abbrev pub is_own : Move → Bool
is_own (other_puts f c) = false
is_own (takes f) = true
is_own (applies blob) = true
is_own (own_puts f) = true
is_own rests = true

-- There is no such file, or this machine knows what is in it.
abbrev pub IsFree : Text → Register → Type 0
IsFree f s =
    (lookup f s.files ≡ none)
    ⊎ (old : Text) × (lookup f s.files ≡ some old) × (has old s.seen ≡ true)

abbrev pub written : Text → Text → Register → Register
written f c s = record s { files = insert f c s.files }

abbrev pub learned : Text → Register → Register
learned c s = record s { seen = c ∷ s.seen }

abbrev pub brought : Text → Register → Register
brought c s = record s { fetched = c ∷ s.fetched }

-- The contents open to the bundle, under some passphrase.
abbrev pub OpensTo : Outside → Text → Text → Type 0
OpensTo o c blob = (pass : Text) × (decrypt o c pass ≡ plain blob)

-- What a move may change; any but that of others may fail. What is applied is what a file that was taken opens to.
pub data Step (o : Outside) : Move → Register → Register → Type 0 where
  put_by_others : (s : Register) (f c : Text) → Step o (other_puts f c) s (written f c s)
  taken : (s : Register) (f c : Text) → lookup f s.files ≡ some c → Step o (takes f) s (brought c s)
  applied_now :
      (s : Register) (c blob : Text)
      → has c s.fetched ≡ true
      → OpensTo o c blob
      → Step o (applies blob) s (learned c s)
  put_by_us :
      (s : Register) (f c : Text) → IsFree f s → Step o (own_puts f) s (learned c (written f c s))
  no_change : (s : Register) (m : Move) → is_own m ≡ true → Step o m s s

-- One step for each move.
pub data Reach (o : Outside) : List Move → Register → Register → Type 0 where
  here : (s : Register) → Reach o [] s s
  next :
      (m : Move) (ms : List Move) (s t u : Register)
      → Step o m s t
      → Reach o ms t u
      → Reach o (m ∷ ms) s u
