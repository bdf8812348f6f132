-- ===== src/Ui/Update/Invariant.antt =====
-- Every message keeps the invariant of the tabs, in any order and from the start of the program.
use tui_ssh_client.Prelude.{
  All-get, ℕ, ◌≡◌, refl, Bool, true, false, List, [], ◌∷◌, Option, none, some, arith, ltb,
  get_elem?, inl, inr, Bool-cases, Option-cases,
}
use tui_ssh_client.Prelude.Int.{ℤ, pos, negsuc}
use tui_ssh_client.Prelude.Text.{Text}
use tui_ssh_client.Ssh.Errors.{Err, is, host_key_unknown, key_passphrase_required}
use tui_ssh_client.Ui.Terminal.{SessionId, attach}
use tui_ssh_client.Ui.State.{Tab, App, tab_by_gen, find_gen}
use tui_ssh_client.Ui.Tabs.Invariant.{Inv, IsWired, set-Holds}
use tui_ssh_client.Ui.Tabs.Find.{find_gen_found}
use tui_ssh_client.Ui.Tabs.Preserve.{
  switch_to-Inv, cycle_tab-Inv, close_tab-Inv, open_tab-Inv, reconnect-Inv, schedule_reconnect-Inv,
  stop_reconnecting-Inv,
}
use tui_ssh_client.Ui.Update.{
  Msg, connected, connect_failed, reconnect_due, output, session_ended, user_open, user_switch,
  user_cycle, user_close, user_reconnect, mark_used, is_active, gone_live, landed, connected_at,
  connect_failed_at, is_waiting, reconnect_due_at, output_at, is_lost, session_ended_at,
  reconnect_shown, reconnect_active, close_shown, close_active, update, run,
}

-- What a tab routed by generation is good for: a proof for each place where it may stand.
at_gen :
    (P : Option (ℕ × Tab) → Type 0) (a : App) (g : ℕ)
    → P none
    → ((i : ℕ) (t : Tab) → get_elem? a.tabs i ≡ some t → t.gen ≡ g → P (some (i, t)))
    → P (tab_by_gen a g)
unfolding tab_by_gen
at_gen P a g miss found = elim (Option-cases (find_gen g a.tabs)) [
  | inl e ↦ rw e miss
  | inr ((i, t), e) ↦
      rw e (found i t (find_gen_found g a.tabs i t e).0 (find_gen_found g a.tabs i t e).1)
]

gone_live-num : (a : App) (t : Tab) (s : SessionId) → (gone_live a t s).slot.num ≡ t.slot.num
unfolding gone_live attach
gone_live-num a t s = elim (Bool-cases (ltb 0 t.attempt)) [ inl r ↦ rw r | inr r ↦ rw r ]

module _ {dead : ℕ → Bool} where
  mark_used-Inv : (a : App) (id : Text) (now : ℕ) → Inv dead a → Inv dead (mark_used a id now).0
  unfolding mark_used
  mark_used-Inv a [] now h = h
  mark_used-Inv a (c ∷ id) now h = h

  landed-Inv :
      (a : App) (i : ℕ) (t v : Tab) (r : Bool)
      → get_elem? a.tabs i ≡ some t
      → v.slot.num ≡ t.slot.num
      → v.gen ≡ t.gen
      → IsWired v
      → Inv dead a
      → Inv dead (landed a i v r)
  unfolding landed
  landed-Inv a i t v true e s g w h = elim (Bool-cases (is_active a.active i)) [
    | inl c ↦ rw c (set-Holds h i t v e s g w)
    | inr c ↦ rw c (set-Holds h i t _ e s g w)
  ]
  landed-Inv a i t v false e s g w h = elim (Bool-cases (is_active a.active i)) [
    | inl c ↦ rw c (set-Holds h i t v e s g w)
    | inr c ↦ rw c (set-Holds h i t _ e s g w)
  ]

  connected_at-Inv :
      (a : App) (now : ℕ) (s : SessionId) (i : ℕ) (t : Tab)
      → get_elem? a.tabs i ≡ some t
      → Inv dead a
      → Inv dead (connected_at a now s (some (i, t))).0
  unfolding connected_at
  connected_at-Inv a now s i t e h =
      mark_used-Inv (landed a i (gone_live a t s) (ltb 0 t.attempt)) t.id now (
        landed-Inv a i t _ (ltb 0 t.attempt) e (gone_live-num a t s) (unfold gone_live in refl)
          (unfold gone_live attach in (refl, refl)) h)

  connect_failed_at-Inv :
      (a : App) (now : ℕ) (err : Err) (i : ℕ) (t : Tab)
      → get_elem? a.tabs i ≡ some t
      → Inv dead a
      → Inv dead (connect_failed_at a now err (some (i, t))).0
  unfolding connect_failed_at
  connect_failed_at-Inv a now err i t e h = elim (Bool-cases (ltb 0 t.attempt)) [
    | inl r ↦ rw r (elim (Bool-cases (is host_key_unknown err)) [
      | inl u ↦ rw u (stop_reconnecting-Inv (record a { confirm = false }) i t _ e h)
      | inr u ↦ rw u (schedule_reconnect-Inv (record a { confirm = false }) now i t _ e h)
    ])
    | inr r ↦ rw r (elim (Bool-cases (is key_passphrase_required err)) [
      | inl u ↦ rw u (close_tab-Inv (record a { confirm = false }) (pos i) h)
      | inr u ↦ rw u (close_tab-Inv (record a { confirm = false }) (pos i) h)
    ])
  ]

  output_at-Inv :
      (a : App) (bytes : Text) (i : ℕ) (t : Tab)
      → get_elem? a.tabs i ≡ some t
      → Inv dead a
      → Inv dead (output_at a bytes (some (i, t))).0
  unfolding output_at
  output_at-Inv a bytes i t e h = elim (Bool-cases (is_active a.active i)) [
    | inl c ↦ rw c (set-Holds h i t _ e refl refl (All-get IsWired a.tabs i t h.wired e))
    | inr c ↦ rw c (set-Holds h i t _ e refl refl (All-get IsWired a.tabs i t h.wired e))
  ]

  session_ended_at-Inv :
      (a : App) (now : ℕ) (err : Option Err) (i : ℕ) (t : Tab)
      → get_elem? a.tabs i ≡ some t
      → Inv dead a
      → Inv dead (session_ended_at a now err (some (i, t))).0
  unfolding session_ended_at
  session_ended_at-Inv a now none i t e h = close_tab-Inv a (pos i) h
  session_ended_at-Inv a now (some x) i t e h = elim (Bool-cases (is_lost (some x))) [
    | inl c ↦ rw c (schedule_reconnect-Inv a now i t (some x) e h)
    | inr c ↦ rw c (close_tab-Inv a (pos i) h)
  ]

  reconnect_due_at-Inv :
      (a : App) (i : ℕ) (t : Tab)
      → get_elem? a.tabs i ≡ some t
      → Inv dead a
      → Inv dead (reconnect_due_at a (some (i, t))).0
  unfolding reconnect_due_at
  reconnect_due_at-Inv a i t e h = elim (Bool-cases (is_waiting t.state)) [
    | inl w ↦ rw w (reconnect-Inv a i t true e w h)
    | inr w ↦ rw w h
  ]

  reconnect_active-Inv : (a : App) (k : ℤ) → Inv dead a → Inv dead (reconnect_active a k).0
  unfolding reconnect_active
  reconnect_active-Inv a (negsuc n) h = h
  reconnect_active-Inv a (pos i) h = elim (Option-cases (get_elem? a.tabs i)) [
    | inl e ↦ rw (e, reconnect_shown) h
    | inr (t, e) ↦
        rw (e, reconnect_shown)
          (elim (Bool-cases (is_waiting t.state)) [
            | inl w ↦ rw w (reconnect-Inv a i t false e w h)
            | inr w ↦ rw w h
          ])
  ]

  close_active-Inv : (a : App) (k : ℤ) → Inv dead a → Inv dead (close_active a k)
  unfolding close_active
  close_active-Inv a (negsuc n) h = h
  close_active-Inv a (pos i) h = elim (Option-cases (get_elem? a.tabs i)) [
    | inl e ↦ rw (e, close_shown) h
    | inr (t, e) ↦ rw (e, close_shown) (close_tab-Inv a (pos i) h)
  ]

  -- Whatever message comes, at whatever time, the invariant is kept.
  pub update-Inv : (now : ℕ) (m : Msg) (a : App) → Inv dead a → Inv dead (update now m a).0
  unfolding update
  update-Inv now (connected g s) a h =
      at_gen (λ o. Inv dead (connected_at a now s o).0) a g h
        λ i t e _. connected_at-Inv a now s i t e h
  update-Inv now (connect_failed g err) a h =
      at_gen (λ o. Inv dead (connect_failed_at a now err o).0) a g h
        λ i t e _. connect_failed_at-Inv a now err i t e h
  update-Inv now (reconnect_due g) a h =
      at_gen (λ o. Inv dead (reconnect_due_at a o).0) a g h
        λ i t e _. reconnect_due_at-Inv a i t e h
  update-Inv now (output g bytes) a h =
      at_gen (λ o. Inv dead (output_at a bytes o).0) a g h λ i t e _. output_at-Inv a bytes i t e h
  update-Inv now (session_ended g err) a h =
      at_gen (λ o. Inv dead (session_ended_at a now err o).0) a g h
        λ i t e _. session_ended_at-Inv a now err i t e h
  update-Inv now (user_open srv force) a h = open_tab-Inv a srv force h
  update-Inv now (user_switch i) a h = switch_to-Inv a i h
  update-Inv now (user_cycle d) a h = cycle_tab-Inv a d h
  update-Inv now user_close a h = close_active-Inv a a.active h
  update-Inv now user_reconnect a h = reconnect_active-Inv a a.active h

-- A root model as New leaves it: no tab, no slot made, no generation given out.
pub record IsFresh (a : App) : Type 0 where
  pub no_tabs : a.tabs ≡ []
  pub none_shown : a.active ≡ negsuc 0
  pub no_slots : a.pool ≡ record { free = []; live = 0 }

fresh-Inv : (a : App) → IsFresh a → Inv (λ _. false) a
fresh-Inv a f =
    rw (f.no_tabs, f.none_shown, f.no_slots)
      (record {
        slots = λ k. ground arith;
        counted = omega arith;
        bounded = omega arith;
        gens = λ g. omega arith;
        past = λ g. refl;
        shown = refl;
        clean = tt;
        wired = tt;
      })

pub run-keeps : {dead : ℕ → Bool} (ms : List (ℕ × Msg)) (a : App) → Inv dead a → Inv dead (run ms a)
unfolding run
run-keeps [] a h = h
run-keeps ((now, m) ∷ ms) a h = run-keeps ms (update now m a).0 (update-Inv now m a h)

-- From a fresh model on, after any messages in any order: every emulator ever made is
-- in one tab or free, and at most `max_tabs` are made; a free one has no session behind its pump
-- and a full reset as its last input; no two tabs share a generation; the tab on screen is one of
-- the strip; a tab's pump points at the tab's own session, which it has while it is live.
pub run-Inv : (ms : List (ℕ × Msg)) (a : App) → IsFresh a → Inv (λ _. false) (run ms a)
run-Inv ms a f = run-keeps ms a (fresh-Inv a f)
