-- ===== src/Ui/Tabs/Shown.antt =====
-- Which tab is on screen after another is closed.
use tui_ssh_client.Prelude.{
  ℕ, zero, suc, ◌-◌, ◌≡◌, ◌≢◌, refl, sym, subst, ◌∙◌, ap, List, [], ◌∷◌, some, arith, ltb, ◌==◌,
  get_elem?, remove_at, get_elem?-remove_at_lt, get_elem?-remove_at_le, inl, inr, Bool-cases,
}
use tui_ssh_client.Prelude.Int.{pos}
use tui_ssh_client.Ui.State.{Tab, App, cur}
use tui_ssh_client.Ui.Tabs.{close_tab, close_at, release, after_close, sync_sidebar_markers}

not_alone :
    (i k : ℕ) (t : Tab) (us : List Tab) → get_elem? us k ≡ some t → k ≢ i → remove_at i us ≢ []
not_alone i k t [] e n = absurd (cc)
not_alone zero zero t (u ∷ us) e n = absurd (n refl)
not_alone zero (suc k) t (u ∷ []) e n = absurd (cc)
not_alone zero (suc k) t (u ∷ (v ∷ us)) e n = λ q. cc
not_alone (suc i) k t (u ∷ us) e n = λ q. cc

after_close-shown :
    (a : App) (i k : ℕ) (t : Tab) (ts us : List Tab)
    → ts ≡ remove_at i us
    → get_elem? us k ≡ some t
    → k ≢ i
    → a.active ≡ pos k
    → cur (after_close a i ts (pos k)) ≡ some t
unfolding after_close cur
after_close-shown a i k t [] us r e n c = absurd (not_alone i k t us e n (sym r))
after_close-shown a i k t (v ∷ ts) us r e n c = elim (Bool-cases (ltb i k)) [
  | inl h ↦
      let back : suc (k - 1) ≡ k = ground (arith, h) in
      rw h (
        ap (λ x. get_elem? x (k - 1)) r
        ∙ (get_elem?-remove_at_le i (k - 1) us (ground (arith, h)) ∙ (ap (get_elem? us) back ∙ e)))
  | inr h ↦ rw h (elim (Bool-cases (k == i)) [
    | inl f ↦ absurd (ground (arith, f, n))
    | inr f ↦
        rw (f, c)
          (ap (λ x. get_elem? x k) r ∙ (get_elem?-remove_at_lt i k us (ground (arith, h, f)) ∙ e))
  ])
]

-- Closing a tab that is not the one on screen leaves the same tab on screen.
close_elsewhere :
    (a : App) (i k : ℕ) (t u : Tab)
    → a.active ≡ pos k
    → get_elem? a.tabs k ≡ some t
    → get_elem? a.tabs i ≡ some u
    → k ≢ i
    → cur (close_tab a (pos i)) ≡ some t
unfolding close_tab close_at sync_sidebar_markers cur
close_elsewhere a i k t u c e f n =
    rw (f, close_at)
      (subst (λ x. cur (after_close (release a u) i (remove_at i a.tabs) x) ≡ some t) (sym c)
        (after_close-shown (release a u) i k t (remove_at i a.tabs) a.tabs refl e n c))
