-- ===== src/Ui/Tabs/Closing.antt =====
-- What closing tabs does to the others.
use tui_ssh_client.Prelude.{
  ℕ, zero, suc, ◌≡◌, refl, sym, ◌∙◌, ap, List, [], ◌∷◌, ◌++◌, Option, none, some, arith, ltb, ◌==◌,
  length, length-set, length-remove_at, get_elem?, set, remove_at, inl, inr, Bool-cases,
  Option-cases, get_elem?-lt,
}
use tui_ssh_client.Prelude.Int.{ℤ, pos, negsuc}
use tui_ssh_client.Ui.Terminal.{SessionId}
use tui_ssh_client.Ui.State.{Tab, App, RightMode, right_terminal}
use tui_ssh_client.Ui.Tabs.{
  close_tab, close_at, release, after_close, leave_terminal, quiet, close_last,
  teardown_all_sessions, sync_sidebar_markers, close_session,
}

-- The sessions of a strip, in its order.
abbrev pub sessions : List Tab → List SessionId
sessions [] = []
sessions (t ∷ ts) = close_session t.session (sessions ts)

sessions-set :
    (ts : List Tab) (i : ℕ) (t v : Tab)
    → get_elem? ts i ≡ some t
    → v.session ≡ t.session
    → sessions (set ts i v) ≡ sessions ts
sessions-set [] i t v e s = absurd (cc)
sessions-set (u ∷ ts) zero t v e s = let same : u ≡ t = ground (arith, e) in rw (same, s) refl
sessions-set (u ∷ ts) (suc i) t v e s = ap (close_session u.session) (sessions-set ts i t v e s)

quiet-sessions : (ts : List Tab) (i : ℕ) → sessions (quiet ts i (get_elem? ts i)) ≡ sessions ts
unfolding quiet
quiet-sessions ts i = elim (Option-cases (get_elem? ts i)) [
  | inl e ↦ rw (e, quiet) refl
  | inr (t, e) ↦ rw (e, quiet) (sessions-set ts i t _ e refl)
]

quiet-length : (ts : List Tab) (i : ℕ) → length (quiet ts i (get_elem? ts i)) ≡ length ts
unfolding quiet
quiet-length ts i = elim (Option-cases (get_elem? ts i)) [
  | inl e ↦ rw (e, quiet) refl
  | inr (t, e) ↦ rw (e, quiet) (length-set ts i _)
]

leave_terminal-same :
    (a : App) (m : RightMode)
    → ((leave_terminal a m).tabs ≡ a.tabs) × ((leave_terminal a m).closed ≡ a.closed)
unfolding leave_terminal
leave_terminal-same a right_terminal = (refl, refl)
leave_terminal-same a _ = (refl, refl)

-- What is left of the strip, as far as its sessions and its length go.
abbrev Left : App → App → List Tab → Type 0
Left a b ts = (sessions b.tabs ≡ sessions ts) × (length b.tabs ≡ length ts) × (b.closed ≡ a.closed)

after_close-Left : (a : App) (i : ℕ) (ts : List Tab) (k : ℤ) → Left a (after_close a i ts k) ts
unfolding after_close
after_close-Left a i [] k =
    let (t, c) = leave_terminal-same (record a { tabs = []; active = negsuc 0 }) a.right_mode in
    (ap sessions t, ap length t, c)
after_close-Left a i (t ∷ ts) (negsuc n) = (refl, refl, refl)
after_close-Left a i (t ∷ ts) (pos k) = elim (Bool-cases (ltb i k)) [
  | inl e ↦ rw e (refl, refl, refl)
  | inr e ↦ rw e (elim (Bool-cases (k == i)) [
    | inl f ↦ rw f (quiet-sessions (t ∷ ts) _, quiet-length (t ∷ ts) _, refl)
    | inr f ↦ rw f (refl, refl, refl)
  ])
]

close_tab-Left :
    (a : App) (i : ℕ) (t : Tab)
    → get_elem? a.tabs i ≡ some t
    → Left (release a t) (close_tab a (pos i)) (remove_at i a.tabs)
unfolding close_tab close_at sync_sidebar_markers
close_tab-Left a i t e =
    rw (e, close_at) (after_close-Left (release a t) i (remove_at i a.tabs) a.active)

close_session-append :
    (o : Option SessionId) (xs cs : List SessionId)
    → close_session o xs ++ cs ≡ close_session o (xs ++ cs)
close_session-append none xs cs = refl
close_session-append (some s) xs cs = refl

-- The last tab of a strip.
sessions-last :
    (ts : List Tab) (n : ℕ) (t : Tab)
    → get_elem? ts n ≡ some t
    → length ts ≡ suc n
    → (cs : List SessionId)
    → sessions (remove_at n ts) ++ close_session t.session cs ≡ sessions ts ++ cs
sessions-last [] n t e l cs = absurd (cc)
sessions-last (u ∷ []) zero t e l cs =
    let same : u ≡ t = ground (arith, e) in rw same (sym (close_session-append t.session [] cs))
sessions-last (u ∷ (v ∷ ts)) zero t e l cs = absurd (omega arith)
sessions-last (u ∷ ts) (suc n) t e l cs =
    close_session-append u.session (sessions (remove_at n ts)) (close_session t.session cs)
    ∙ (ap (close_session u.session) (sessions-last ts n t e (omega arith) cs)
        ∙ sym (close_session-append u.session (sessions ts) cs))

no_tabs : (ts : List Tab) → length ts ≡ 0 → ts ≡ []
no_tabs [] e = refl
no_tabs (t ∷ ts) e = absurd (omega arith)

close_last-all :
    (n : ℕ) (a : App)
    → length a.tabs ≡ n
    → ((close_last n a).tabs ≡ []) × ((close_last n a).closed ≡ sessions a.tabs ++ a.closed)
unfolding close_last
close_last-all zero a e = let none_left = no_tabs a.tabs e in (none_left, rw none_left refl)
close_last-all (suc n) a e =
    let (t, at) = get_elem?-lt a.tabs n (omega arith) in
    let (s, l, c) = close_tab-Left a n t at in
    let (rest, shut) =
      close_last-all n (close_tab a (pos n))
        (omega (arith, l, length-remove_at n a.tabs (omega arith))) in
    (
      rest,
      shut
          ∙ (ap (λ x. x ++ (close_tab a (pos n)).closed) s
              ∙ (ap (λ x. sessions (remove_at n a.tabs) ++ x) c
                  ∙ sessions-last a.tabs n t at e a.closed)),
    )

-- Quitting leaves no tab open, and calls Close on the session of every tab that has one, once each
-- and on nothing else: the list of closed sessions grows by those of the strip.
teardown_closes_all :
    (a : App)
    → ((teardown_all_sessions a).tabs ≡ [])
      × ((teardown_all_sessions a).closed ≡ sessions a.tabs ++ a.closed)
unfolding teardown_all_sessions
teardown_closes_all a = close_last-all (length a.tabs) a refl
