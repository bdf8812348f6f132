-- ===== src/Ui/Sftp/World/Single.antt =====
-- At most one copy runs at a time, and only the copy that the view shows.
use tui_ssh_client.Prelude.{
  ℕ, zero, suc, ◌+◌, ◌≤◌, ◌<◌, ◌≡◌, ◌⊎◌, inl, inr, refl, sym, subst, true, false, List, [], ◌∷◌,
  ◌++◌, Option, none, some, arith, ◌==◌, All, All-append, All-mono, All-remove_at, get_elem?,
  remove_at, if_cases, if◌then◌else◌,
}
use tui_ssh_client.Prelude.Text.{Text}
use tui_ssh_client.Ui.Sftp.State.{TransferState, nothing, SplitView, cancel_of}
use tui_ssh_client.Ui.Sftp.Results.{Ending, done, failed_with, sent_all, was_cancelled}
use tui_ssh_client.Ui.Sftp.Update.{update}
use tui_ssh_client.Ui.Sftp.World.{
  Copying, copies_of, World, Event, message, copy_ended, from_copy, handled, ended, step, run,
}
use tui_ssh_client.Ui.Sftp.World.Change.{one_if, ctx_of, Quiet, Steady, load, Shown}
use tui_ssh_client.Ui.Sftp.World.Messages.{update-Change, refresh_panes-none}
use tui_ssh_client.Ui.Sftp.World.Owned.{
  mem, running, of_gen, Owned, Inv, of_gen-append, running-le, Change-Inv,
}

of_gen-remove_at :
    (g i : ℕ) (cs : List Copying) (c : Copying)
    → get_elem? cs i ≡ some c
    → of_gen g (remove_at i cs) + (if c.gen == g then 1 else 0) ≡ of_gen g cs
of_gen-remove_at g i [] c e = absurd (cc)
of_gen-remove_at g zero (d ∷ cs) c e = ground arith
of_gen-remove_at g (suc i) (d ∷ cs) c e = ground (arith, of_gen-remove_at g i cs c e)

-- Once the copy of the present connection is gone, the others are old.
none_left :
    (a : SplitView) (cs : List Copying)
    → of_gen a.gen cs ≡ 0
    → All (Owned a) cs
    → All (λ c. (c.gen < a.gen) × (mem c.ctx a.cancelled ≡ true)) cs
none_left a [] n h = tt
none_left a (c ∷ cs) n h = (ground arith, none_left a cs (ground arith) h.1)

pub done-Change :
    (a : SplitView) (h : Steady a) (label : Text) (bytes skipped : ℕ) (e : Ending)
    → ((done a label bytes skipped e).0.gen ≡ a.gen)
      × ((done a label bytes skipped e).0.transfer ≡ none)
      × ((done a label bytes skipped e).0.cancelled ≡ cancel_of a.transfer a.cancelled)
      × Steady (done a label bytes skipped e).0
      × (copies_of (done a label bytes skipped e).1 ≡ [])
unfolding done
done-Change a h label bytes skipped sent_all = ground (arith, refresh_panes-none a h)
done-Change a h label bytes skipped was_cancelled = ground (arith, refresh_panes-none a h)
done-Change a h label bytes skipped (failed_with x) = ground (arith, refresh_panes-none a h)

cancelled_still :
    (x : ℕ) (t : Option TransferState) (cs : List ℕ)
    → mem x cs ≡ true
    → mem x (cancel_of t cs) ≡ true
cancelled_still x none cs h = h
cancelled_still x (some t) cs h = ground arith

done-Inv :
    (a : SplitView) (cs : List Copying) (label : Text) (bytes skipped : ℕ) (e : Ending)
    → Steady a
    → All (Owned a) cs
    → of_gen a.gen cs ≡ 0
    → Inv (handled (done a label bytes skipped e) cs)
unfolding handled
done-Inv a cs label bytes skipped e h own n =
    let (g, t, c, s, q) = done-Change a h label bytes skipped e in
    let r = done a label bytes skipped e in
    record {
      steady = s;
      owned =
          All-append _ cs _
            (All-mono _ _ cs
              (λ d o. inr (rw g o.0, rw c (cancelled_still d.ctx a.transfer a.cancelled o.1)))
              (none_left a cs n own))
            (subst (All (Owned r.0)) (sym q) tt);
      counted = ground (arith, of_gen-append a.gen cs (copies_of r.1));
    }

one_if_le : (o : Option TransferState) → one_if o ≤ 1
one_if_le none = omega arith
one_if_le (some t) = omega arith

ended-Inv :
    (w : World) (i : ℕ) (label : Text) (bytes skipped : ℕ) (e : Ending) (o : Option Copying)
    → get_elem? w.copies i ≡ o
    → Inv w
    → Inv (ended w i label bytes skipped e o)
unfolding ended update handled
ended-Inv w i label bytes skipped e none h inv = inv
ended-Inv w i label bytes skipped e (some c) h inv =
    if_cases (λ r. Inv (handled r (remove_at i w.copies))) (c.gen == w.view.gen)
      (done w.view label bytes skipped e) (w.view, nothing)
      (λ same.
        done-Inv w.view (remove_at i w.copies) label bytes skipped e inv.steady rest (gone same))
      (λ other. record {
        steady = inv.steady;
        owned = All-append _ (remove_at i w.copies) [] rest tt;
        counted = left other;
      })
  where
    rest : All (Owned w.view) (remove_at i w.copies)
    rest = All-remove_at _ i w.copies inv.owned

    gone : (c.gen == w.view.gen) ≡ true → of_gen w.view.gen (remove_at i w.copies) ≡ 0
    gone same =
        ground (
          arith,
          inv.counted,
          of_gen-remove_at w.view.gen i w.copies c h,
          one_if_le w.view.transfer,
        )

    left :
        (c.gen == w.view.gen) ≡ false
        → of_gen w.view.gen (remove_at i w.copies ++ []) ≡ one_if w.view.transfer
    left other = ground (
      arith,
      inv.counted,
      of_gen-remove_at w.view.gen i w.copies c h,
      of_gen-append w.view.gen (remove_at i w.copies) [],
    )

pub step-Inv : (e : Event) (w : World) → Inv w → Inv (step e w)
unfolding step handled
step-Inv (message m) w inv =
    if_cases Inv (from_copy m) w _ (λ own. inv)
      (λ other.
        Change-Inv w.view _ w.copies inv.owned inv.counted
          (update-Change w.view inv.steady m other))
step-Inv (copy_ended i label bytes skipped e) w inv = ended-Inv w i label bytes skipped e _ refl inv

pub run-Inv : (es : List Event) (w : World) → Inv w → Inv (run es w)
unfolding run
run-Inv [] w inv = inv
run-Inv (e ∷ es) w inv = run-Inv es (step e w) (step-Inv e w inv)

-- A view in which nothing is under way and the panes are shown, and no copy runs.
pub record IsIdle (w : World) : Type 0 where
  pub unloaded : load w.view ≡ 0
  pub unasked : w.view.confirm ≡ none
  pub shown : Shown w.view
  pub no_copies : w.copies ≡ []

pub IsIdle-Inv : (w : World) → IsIdle w → Inv w
IsIdle-Inv w h = record {
  steady = record {
    alone = omega (arith, h.unloaded);
    quiet = subst Quiet (sym h.unasked) tt;
    shown = h.shown;
  };
  owned = subst (All (Owned w.view)) (sym h.no_copies) tt;
  counted = ground (arith, h.unloaded, h.no_copies);
}

-- From an idle view on, whatever messages come and whenever copies end: at most one copy runs that
-- is not cancelled, none does once the view shows no transfer, and each that is not cancelled is
-- that of the transfer that the view shows.
pub one_copy_runs :
    (es : List Event) (w : World)
    → IsIdle w
    → (running (run es w).view.cancelled (run es w).copies ≤ one_if (run es w).view.transfer)
      × All
          (λ c.
            (ctx_of (run es w).view.transfer ≡ some c.ctx)
            ⊎ (mem c.ctx (run es w).view.cancelled ≡ true))
          (run es w).copies
one_copy_runs es w h =
    let inv = run-Inv es w (IsIdle-Inv w h) in
    let v = run es w in
    (
      omega (arith, running-le v.view v.copies inv.owned, inv.counted),
      All-mono _ _ v.copies (λ c o. known c o) inv.owned,
    )
  where
    known :
        (c : Copying)
        → Owned (run es w).view c
        → (ctx_of (run es w).view.transfer ≡ some c.ctx)
          ⊎ (mem c.ctx (run es w).view.cancelled ≡ true)
    known c (inl (g, t)) = inl t
    known c (inr (g, m)) = inr m

-- From an idle view on, whatever comes: in both panes the cursor stands on an entry, if there is one,
-- and in the window, the window ends with a listing that fills it, and a message stands over an
-- empty listing.
pub panes_stay_shown : (es : List Event) (w : World) → IsIdle w → Shown (run es w).view
panes_stay_shown es w h = let inv = run-Inv es w (IsIdle-Inv w h) in inv.steady.shown
