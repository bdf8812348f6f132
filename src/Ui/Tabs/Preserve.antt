-- ===== src/Ui/Tabs/Preserve.antt =====
-- The operations of tabs.go keep the invariant.
use tui_ssh_client.Prelude.{
  ℕ, zero, suc, ◌-◌, ◌≤◌, ◌<◌, ◌≡◌, refl, sym, subst, All-get, ◌∙◌, Bool, true, false, List, [],
  ◌∷◌, Option, some, arith, ltb, ◌==◌, ◌||◌, length, length-remove_at, get_elem?, remove_at, inl,
  inr, Bool-cases, Option-cases,
}
use tui_ssh_client.Prelude.Int.{ℤ, pos, negsuc}
use tui_ssh_client.Model.Server.{Server}
use tui_ssh_client.Ssh.Errors.{Err}
use tui_ssh_client.Ui.Terminal.{Pool, get, detach}
use tui_ssh_client.Ui.State.{
  Tab, App, TabState, live, lost, is_waiting, RightMode, right_terminal, right_inner,
}
use tui_ssh_client.Ui.Tabs.Invariant.{
  InStrip, Holds, Inv, IsWired, is_live, set-Holds, renew-Holds, remove-Holds, append-Holds,
  weaken-Holds,
}
use tui_ssh_client.Ui.Tabs.Find.{get_elem?-lt-length}
use tui_ssh_client.Ui.Tabs.{
  switch_to, show_at, cycle_tab, close_tab, close_at, release, after_close, leave_terminal, quiet,
  close_last, teardown_all_sessions, open_tab, open_or_show, open_new, existing,
  sync_sidebar_markers, reconnect, schedule_reconnect, stop_reconnecting, clamp_index,
}

-- Another tab of the strip on screen.
at-Holds :
    {dead : ℕ → Bool} {tabs : List Tab} {active : ℤ} {pool : Pool} {gen : ℕ} (k : ℤ)
    → Holds dead tabs active pool gen
    → InStrip k (length tabs)
    → Holds dead tabs k pool gen
at-Holds k h s = record {
  slots = h.slots;
  counted = h.counted;
  bounded = h.bounded;
  gens = h.gens;
  past = h.past;
  shown = s;
  clean = h.clean;
  wired = h.wired;
}

clamp_index-lt : (i n : ℕ) → clamp_index i (suc n) < suc n
clamp_index-lt i n = ground arith

one_less {ℓ} :
    {A : Type ℓ} (i : ℕ) (xs : List A) → i < length xs → length xs ≡ suc (length (remove_at i xs))
one_less i xs lt = omega (arith, length-remove_at i xs lt)

waiting_not_live : (s : TabState) → is_waiting s ≡ true → is_live s ≡ false
unfolding is_waiting
waiting_not_live lost h = refl
waiting_not_live live h = sym h
waiting_not_live _ h = refl

module _ {dead : ℕ → Bool} where
  pub switch_to-Inv : (a : App) (i : ℤ) → Inv dead a → Inv dead (switch_to a i)
  unfolding switch_to
  switch_to-Inv a (negsuc n) h = h
  switch_to-Inv a (pos i) h = elim (Option-cases (get_elem? a.tabs i)) [
    | inl e ↦ rw (e, show_at) h
    | inr (t, e) ↦
        rw (e, show_at)
          (set-Holds (at-Holds (pos i) h (get_elem?-lt-length a.tabs i t e)) i t _ e refl refl
            (All-get IsWired _ i t h.wired e))
  ]

  pub cycle_tab-Inv : (a : App) (d : ℤ) → Inv dead a → Inv dead (cycle_tab a d)
  unfolding cycle_tab
  cycle_tab-Inv a d h = elim (Bool-cases (length a.tabs == 0)) [
    | inl e ↦ rw e h
    | inr e ↦ rw e (switch_to-Inv a _ h)
  ]

  quiet-Inv :
      (ts : List Tab) (i : ℕ) (active : ℤ) (pool : Pool) (gen : ℕ)
      → Holds dead ts active pool gen
      → Holds dead (quiet ts i (get_elem? ts i)) active pool gen
  unfolding quiet
  quiet-Inv ts i active pool gen h = elim (Option-cases (get_elem? ts i)) [
    | inl e ↦ rw (e, quiet) h
    | inr (t, e) ↦ rw (e, quiet) (set-Holds h i t _ e refl refl (All-get IsWired _ i t h.wired e))
  ]

  leave_terminal-Inv : (a : App) (m : RightMode) → Inv dead a → Inv dead (leave_terminal a m)
  unfolding leave_terminal
  leave_terminal-Inv a right_terminal h = h
  leave_terminal-Inv a _ h = h

  after_close-Inv :
      (a : App) (i : ℕ) (ts : List Tab) (k : ℤ)
      → ((m : ℤ) → InStrip m (length ts) → Holds dead ts m a.pool a.gen)
      → a.active ≡ k
      → InStrip k (suc (length ts))
      → i ≤ length ts
      → Inv dead (after_close a i ts k)
  unfolding after_close
  after_close-Inv a i [] k h c s lt = leave_terminal-Inv _ a.right_mode (h (negsuc 0) refl)
  after_close-Inv a i (t ∷ ts) (negsuc n) h c s lt = absurd (omega arith)
  after_close-Inv a i (t ∷ ts) (pos k) h c s lt = elim (Bool-cases (ltb i k)) [
    | inl e ↦ rw e (h (pos (k - 1)) (ground arith))
    | inr e ↦ rw e (elim (Bool-cases (k == i)) [
      | inl f ↦ rw f (
          quiet-Inv (t ∷ ts) (clamp_index i (suc (length ts))) _ _ _
            (h (pos (clamp_index i (suc (length ts)))) (clamp_index-lt i (length ts))))
      | inr f ↦ rw (f, c) (h (pos k) (ground arith))
    ])
  ]

module _ {dead : ℕ → Bool} where
  close_at-retires :
      (a : App) (i : ℕ) (t : Tab)
      → get_elem? a.tabs i ≡ some t
      → Inv dead a
      → Inv (λ x. dead x || x == t.gen) (close_at a i (some t))
  unfolding close_at sync_sidebar_markers
  close_at-retires a i t e h =
      let lt = get_elem?-lt-length a.tabs i t e in
      after_close-Inv (release a t) i (remove_at i a.tabs) a.active
        (λ m s. remove-Holds h i t m e lt s) refl
        (subst (InStrip a.active) (one_less i a.tabs lt) h.shown)
        (omega (arith, one_less i a.tabs lt))

  -- The generation of a closed tab is dead.
  pub close_tab-retires :
      (a : App) (i : ℕ) (t : Tab)
      → get_elem? a.tabs i ≡ some t
      → Inv dead a
      → Inv (λ x. dead x || x == t.gen) (close_tab a (pos i))
  unfolding close_tab
  close_tab-retires a i t e h = rw e (close_at-retires a i t e h)

  pub close_tab-Inv : (a : App) (i : ℤ) → Inv dead a → Inv dead (close_tab a i)
  unfolding close_tab
  close_tab-Inv a (negsuc n) h = h
  close_tab-Inv a (pos i) h = elim (Option-cases (get_elem? a.tabs i)) [
    | inl e ↦ rw (e, close_at) h
    | inr (t, e) ↦ rw e (weaken-Holds (λ x. x == t.gen) (close_at-retires a i t e h))
  ]

  pub teardown_all_sessions-Inv : (a : App) → Inv dead a → Inv dead (teardown_all_sessions a)
  unfolding teardown_all_sessions
  teardown_all_sessions-Inv a h = go (length a.tabs) a h
    where
      go : (n : ℕ) (b : App) → Inv dead b → Inv dead (close_last n b)
      go zero b h = h
      go (suc n) b h = go n (close_tab b (pos n)) (close_tab-Inv b (pos n) h)

  open_new-Inv :
      (a : App) (srv : Server) (cols rows : ℕ)
      → Inv dead a
      → Inv dead (open_new a srv cols rows (get a.pool cols rows)).0
  unfolding open_new sync_sidebar_markers
  open_new-Inv a srv cols rows h = elim (Option-cases (get a.pool cols rows)) [
    | inl e ↦ rw (e, open_new) h
    | inr ((s, p), e) ↦ rw (e, open_new) (append-Holds h _ cols rows p e refl refl refl)
  ]

  pub open_tab-Inv :
      (a : App) (srv : Server) (force : Bool) → Inv dead a → Inv dead (open_tab a srv force).0
  unfolding open_tab
  open_tab-Inv a srv force h = elim (Option-cases (existing a srv force)) [
    | inl e ↦ rw (e, open_or_show) (open_new-Inv a srv (right_inner a).0 (right_inner a).1 h)
    | inr (i, e) ↦ rw (e, open_or_show) (switch_to-Inv a (pos i) h)
  ]

  -- The generation of an attempt that is superseded is dead.
  pub reconnect-retires :
      (a : App) (i : ℕ) (t : Tab) (auto : Bool)
      → get_elem? a.tabs i ≡ some t
      → is_waiting t.state ≡ true
      → Inv dead a
      → Inv (λ x. dead x || x == t.gen) (reconnect a i t auto).0
  unfolding reconnect
  reconnect-retires a i t auto e w h =
      let own = All-get IsWired a.tabs i t h.wired e in
      renew-Holds h i t _ e refl refl (own.0, own.1 ∙ waiting_not_live t.state w)

  pub reconnect-Inv :
      (a : App) (i : ℕ) (t : Tab) (auto : Bool)
      → get_elem? a.tabs i ≡ some t
      → is_waiting t.state ≡ true
      → Inv dead a
      → Inv dead (reconnect a i t auto).0
  reconnect-Inv a i t auto e w h =
      weaken-Holds (λ x. x == t.gen) (reconnect-retires a i t auto e w h)

  pub schedule_reconnect-Inv :
      (a : App) (now i : ℕ) (t : Tab) (err : Option Err)
      → get_elem? a.tabs i ≡ some t
      → Inv dead a
      → Inv dead (schedule_reconnect a now i t err).0
  unfolding schedule_reconnect detach
  schedule_reconnect-Inv a now i t err e h = set-Holds h i t _ e refl refl (refl, refl)

  pub stop_reconnecting-Inv :
      (a : App) (i : ℕ) (t : Tab) (err : Option Err)
      → get_elem? a.tabs i ≡ some t
      → Inv dead a
      → Inv dead (stop_reconnecting a i t err)
  unfolding stop_reconnecting detach
  stop_reconnecting-Inv a i t err e h = set-Holds h i t _ e refl refl (refl, refl)
