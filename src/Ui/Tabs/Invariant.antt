-- ===== src/Ui/Tabs/Invariant.antt =====
-- What every operation on the tabs keeps: who holds which slot, whose messages reach which tab,
-- and that the tab on screen is one of the strip.
use tui_ssh_client.Prelude.{
  ℕ, ◌+◌, ◌≤◌, ◌<◌, ◌≡◌, refl, sym, subst, Bool, true, false, List, [], ◌∷◌, ◌++◌, none, some,
  arith, not, ◌&&◌, ◌||◌, is_some, All, All-set, All-remove_at, All-append, ltb, leb, ◌==◌, length,
  length-append, length-set, length-remove_at, get_elem?, set, remove_at,
}
use tui_ssh_client.Prelude.Int.{ℤ, pos, negsuc}
use tui_ssh_client.Ui.Terminal.{Emulator, written, ris, Slot, Pool, max_tabs, get, put, detach}
use tui_ssh_client.Ui.State.{Tab, App, TabState, live}
use tui_ssh_client.Ui.Tabs.Tally.{hit, tally, tally-append, tally-set, tally-remove_at, tally-pos}

abbrev pub tab_slot : Tab → ℕ
tab_slot t = t.slot.num

abbrev pub tab_gen : Tab → ℕ
tab_gen t = t.gen

abbrev pub slot_num : Slot → ℕ
slot_num s = s.num

abbrev pub InStrip : ℤ → ℕ → Type 0
InStrip (pos k) n = k < n
InStrip (negsuc k) n = n ≡ 0

-- A free slot sends its replies nowhere, and the last thing done to its screen is a full reset.
abbrev pub IsClean : Slot → Type 0
IsClean s = (s.pump ≡ none) × ((e : Emulator) × (s.emu ≡ written ris ∷ e))

abbrev pub is_live : TabState → Bool
is_live live = true
is_live _ = false

-- The pump of a tab points at the tab's own session, and a tab has a session while it is live.
abbrev pub IsWired : Tab → Type 0
IsWired t = (t.slot.pump ≡ t.session) × (is_some t.session ≡ is_live t.state)

-- Each slot ever made is held by one tab or is free, and by no second; at most `max_tabs` are made.
-- No two tabs have the same generation, and none has one that is still to come or one of the `dead`
-- ones. The tab on screen is in the strip, and there is none only if the strip is empty.
pub record Holds (dead : ℕ → Bool) (tabs : List Tab) (active : ℤ) (pool : Pool) (gen : ℕ)
    : Type 0 where
  pub slots : (k : ℕ) → tally tab_slot k tabs + tally slot_num k pool.free ≡ hit (ltb k pool.live)
  pub counted : length tabs + length pool.free ≡ pool.live
  pub bounded : pool.live ≤ max_tabs
  pub gens : (g : ℕ) → tally tab_gen g tabs ≤ hit (leb g gen && not (dead g))
  pub past : (g : ℕ) → (dead g && ltb gen g) ≡ false
  pub shown : InStrip active (length tabs)
  pub clean : All IsClean pool.free
  pub wired : All IsWired tabs

abbrev pub Inv : (ℕ → Bool) → App → Type 0
Inv dead a = Holds dead a.tabs a.active a.pool a.gen

-- What the pool lends it had, or has made as its next slot.
get_from :
    (free : List Slot) (made cols rows : ℕ) (s : Slot) (p : Pool)
    → get (record { free = free; live = made }) cols rows ≡ some (s, p)
    → ((k : ℕ)
        → tally slot_num k p.free + (hit (ltb k made) + hit (s.num == k))
          ≡ tally slot_num k free + hit (ltb k p.live))
      × (length p.free + (made + 1) ≡ length free + p.live)
      × (made ≤ max_tabs → p.live ≤ max_tabs)
      × (All IsClean free → All IsClean p.free)
      × (All IsClean free → s.pump ≡ none)
unfolding get
get_from (f ∷ free) made cols rows s p e =
    let same : p.free ≡ free = ground arith in
    (
      λ k. ground arith,
      ground arith,
      ground arith,
      λ c. subst (All IsClean) (sym same) c.1,
      λ c. ground (arith, c.0.0),
    )
get_from [] made cols rows s p e =
    let same : p.free ≡ [] = ground arith in
    (
      λ k. ground arith,
      ground arith,
      ground arith,
      λ c. subst (All IsClean) (sym same) tt,
      λ c. ground arith,
    )

module _ {dead : ℕ → Bool} {tabs : List Tab} {active : ℤ} {pool : Pool} {gen : ℕ}
    (h : Holds dead tabs active pool gen) where
  -- The generation of a tab in the strip is one that was given out.
  there : (i : ℕ) (t : Tab) → get_elem? tabs i ≡ some t → (k : ℕ) → t.gen ≡ k → k ≤ gen
  there i t e k g = ground (arith, tally-pos tab_gen k tabs i t e g, h.gens k)

  -- A tab that changes and keeps its slot and its generation.
  pub set-Holds :
      (i : ℕ) (t v : Tab)
      → get_elem? tabs i ≡ some t
      → v.slot.num ≡ t.slot.num
      → v.gen ≡ t.gen
      → IsWired v
      → Holds dead (set tabs i v) active pool gen
  set-Holds i t v e s g w = record {
    slots = λ k. ground (arith, tally-set tab_slot k tabs i t v e, h.slots k);
    counted = rw length-set h.counted;
    bounded = h.bounded;
    gens = λ k. ground (arith, tally-set tab_gen k tabs i t v e, h.gens k);
    past = h.past;
    shown = rw length-set h.shown;
    clean = h.clean;
    wired = All-set IsWired tabs i v h.wired w;
  }

  -- A tab that is dialled again, under the next generation: the old one is dead.
  pub renew-Holds :
      (i : ℕ) (t v : Tab)
      → get_elem? tabs i ≡ some t
      → v.slot.num ≡ t.slot.num
      → v.gen ≡ gen + 1
      → IsWired v
      → Holds (λ x. dead x || x == t.gen) (set tabs i v) active pool (gen + 1)
  renew-Holds i t v e s g w = record {
    slots = λ k. ground (arith, tally-set tab_slot k tabs i t v e, h.slots k);
    counted = rw length-set h.counted;
    bounded = h.bounded;
    gens = λ k. ground (arith, tally-set tab_gen k tabs i t v e, h.gens k, h.past k);
    past = λ k. ground (arith, h.past k, there i t e k);
    shown = rw length-set h.shown;
    clean = h.clean;
    wired = All-set IsWired tabs i v h.wired w;
  }

  -- A tab that goes, and gives its slot back: its generation is dead; `active` is put right by the caller.
  pub remove-Holds :
      (i : ℕ) (t : Tab) (k : ℤ)
      → get_elem? tabs i ≡ some t
      → i < length tabs
      → InStrip k (length (remove_at i tabs))
      → Holds (λ x. dead x || x == t.gen) (remove_at i tabs) k (put pool (some t.slot)) gen
  unfolding put detach
  remove-Holds i t k e lt s = record {
    slots = λ k. ground (arith, tally-remove_at tab_slot k tabs i t e, h.slots k);
    counted = omega (arith, length-remove_at i tabs lt, h.counted);
    bounded = h.bounded;
    gens = λ k. ground (arith, tally-remove_at tab_gen k tabs i t e, h.gens k);
    past = λ k. ground (arith, h.past k, there i t e k);
    shown = s;
    clean = ((refl, (t.slot.emu, refl)), h.clean);
    wired = All-remove_at IsWired i tabs h.wired;
  }

  -- A tab that comes, with a slot of the pool and the next generation.
  pub append-Holds :
      (v : Tab) (cols rows : ℕ) (p : Pool)
      → get pool cols rows ≡ some (v.slot, p)
      → v.gen ≡ gen + 1
      → v.session ≡ none
      → is_live v.state ≡ false
      → Holds dead (tabs ++ v ∷ []) (pos (length tabs)) p (gen + 1)
  append-Holds v cols rows p e g sn st =
      let lent = get_from pool.free pool.live cols rows v.slot p e in
      record {
        slots = λ k. omega (arith, tally-append tab_slot k tabs (v ∷ []), h.slots k, lent.0 k);
        counted = omega (arith, length-append tabs (v ∷ []), h.counted, lent.1);
        bounded = lent.2 h.bounded;
        gens = λ k. ground (arith, tally-append tab_gen k tabs (v ∷ []), h.gens k, h.past k);
        past = λ k. ground (arith, h.past k);
        shown = omega (arith, length-append tabs (v ∷ []));
        clean = lent.3 h.clean;
        wired =
            All-append IsWired tabs (v ∷ []) h.wired ((rw sn (lent.4 h.clean), rw sn (sym st)), tt);
      }

-- Fewer generations that are known to be dead.
pub weaken-Holds :
    {dead : ℕ → Bool} (p : ℕ → Bool) {tabs : List Tab} {active : ℤ} {pool : Pool} {gen : ℕ}
    → Holds (λ x. dead x || p x) tabs active pool gen
    → Holds dead tabs active pool gen
weaken-Holds p h = record {
  slots = h.slots;
  counted = h.counted;
  bounded = h.bounded;
  gens = λ g. ground (arith, h.gens g);
  past = λ g. ground (arith, h.past g);
  shown = h.shown;
  clean = h.clean;
  wired = h.wired;
}

-- No tab of the strip has a dead generation.
pub dead-tally :
    {dead : ℕ → Bool} {tabs : List Tab} {active : ℤ} {pool : Pool} {gen : ℕ} (g : ℕ)
    → Holds dead tabs active pool gen
    → dead g ≡ true
    → tally tab_gen g tabs ≡ 0
dead-tally g h d = ground (arith, h.gens g)
