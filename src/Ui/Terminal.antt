-- ===== src/Ui/Terminal.antt =====
-- internal/ui/terminal.go: the emulators with their key pumps, and the pool that lends them.
use tui_ssh_client.Prelude.{ℕ, ◌+◌, List, [], ◌∷◌, Option, none, some, max, ltb, leb, if◌then◌else◌}
use tui_ssh_client.Prelude.Text.{Text}

-- An emulator is what was done to it, newest first: a third-party object whose screen is a
-- function of its history.
pub data EmuOp : Type 0 where
  created : ℕ → ℕ → EmuOp
  written : Text → EmuOp
  resized : ℕ → ℕ → EmuOp

abbrev pub Emulator : Type 0
Emulator = List EmuOp

-- ESC c, a full terminal reset
abbrev pub ris : Text
ris = 27 ∷ b'c' ∷ []

unfoldable pub new_emulator : ℕ → ℕ → Emulator
new_emulator cols rows =
    created (if ltb cols 1 then 1 else cols) (if ltb rows 1 then 1 else rows) ∷ []

unfoldable pub reset_emulator : Emulator → ℕ → ℕ → Emulator
reset_emulator emu cols rows = resized (max cols 1) (max rows 1) ∷ written ris ∷ emu

-- Sessions are numbered; a pump that is attached to none drops what it reads.
abbrev pub SessionId : Type 0
SessionId = ℕ

-- termSlot: the number stands for the pointer.
pub record Slot : Type 0 where
  pub num : ℕ
  pub emu : Emulator
  pub pump : Option SessionId

unfoldable pub attach : Slot → SessionId → Slot
attach s w = record s { pump = some w }

unfoldable pub detach : Slot → Slot
detach s = record s { pump = none }

abbrev pub max_tabs : ℕ
max_tabs = 8

-- The head of `free` is the last element of the slice.
pub record Pool : Type 0 where
  pub free : List Slot
  pub live : ℕ

take_free : Pool → List Slot → ℕ → ℕ → Option (Slot × Pool)
take_free p (s ∷ free) cols rows =
    some (record s { emu = reset_emulator s.emu cols rows }, record p { free = free })
take_free p [] cols rows =
    if leb max_tabs p.live
    then none
    else some (
      record { num = p.live; emu = new_emulator cols rows; pump = none },
      record p { live = p.live + 1 },
    )

-- (p *termPool) get
unfoldable pub get : Pool → ℕ → ℕ → Option (Slot × Pool)
unfolding take_free reset_emulator new_emulator
get p cols rows = take_free p p.free cols rows

wipe : Slot → Slot
unfolding detach
wipe s = let d = detach s in record d { emu = written ris ∷ d.emu }

-- (p *termPool) put
unfoldable pub put : Pool → Option Slot → Pool
unfolding wipe
put p none = p
put p (some s) = record p { free = wipe s ∷ p.free }
