-- ===== src/Ui/Sftp/World/Owned.antt =====
-- Whose the copies are that run, and that a change of the view keeps it so.
use tui_ssh_client.Prelude.{
  ℕ, ◌+◌, ◌≤◌, ◌<◌, ◌≡◌, ◌⊎◌, inl, inr, refl, sym, subst, Bool, true, false, List, [], ◌∷◌, ◌++◌,
  Option, none, some, arith, ◌==◌, All, All-append, All-mono, if◌then◌else◌,
}
use tui_ssh_client.Ui.Sftp.State.{TransferState, Cmd, SplitView}
use tui_ssh_client.Ui.Sftp.World.{Copying, copies_of, World}
use tui_ssh_client.Ui.Sftp.World.Change.{one_if, ctx_of, Kept, Started, Torn, Change, Steady}

abbrev pub mem : ℕ → List ℕ → Bool
mem x [] = false
mem x (y ∷ ys) = if y == x then true else mem x ys

-- The copies whose context is not cancelled.
abbrev pub running : List ℕ → List Copying → ℕ
running cancelled [] = 0
running cancelled (c ∷ cs) =
    let rest = running cancelled cs in if mem c.ctx cancelled then rest else rest + 1

-- The copies that report to the present connection.
abbrev pub of_gen : ℕ → List Copying → ℕ
of_gen g [] = 0
of_gen g (c ∷ cs) = let rest = of_gen g cs in if c.gen == g then rest + 1 else rest

-- A copy is the one that the view shows, or belongs to an older connection and was cancelled.
abbrev pub Owned : SplitView → Copying → Type 0
Owned a c =
    ((c.gen ≡ a.gen) × (ctx_of a.transfer ≡ some c.ctx))
    ⊎ ((c.gen < a.gen) × (mem c.ctx a.cancelled ≡ true))

pub record Inv (w : World) : Type 0 where
  pub steady : Steady w.view
  pub owned : All (Owned w.view) w.copies
  pub counted : of_gen w.view.gen w.copies ≡ one_if w.view.transfer

pub of_gen-append : (g : ℕ) (cs ds : List Copying) → of_gen g (cs ++ ds) ≡ of_gen g cs + of_gen g ds
of_gen-append g [] ds = omega arith
of_gen-append g (c ∷ cs) ds = ground (arith, of_gen-append g cs ds)

one_if-ctx : (t u : Option TransferState) → ctx_of t ≡ ctx_of u → one_if t ≡ one_if u
one_if-ctx none none e = refl
one_if-ctx none (some u) e = absurd (cc)
one_if-ctx (some t) none e = absurd (cc)
one_if-ctx (some t) (some u) e = refl

-- A copy of a later connection is none of theirs.
of_gen-later : (a : SplitView) (cs : List Copying) → All (Owned a) cs → of_gen (a.gen + 1) cs ≡ 0
of_gen-later a [] h = refl
of_gen-later a (c ∷ cs) h = ground (arith, of_gen-later a cs h.1)

pub running-le :
    (a : SplitView) (cs : List Copying)
    → All (Owned a) cs
    → running a.cancelled cs ≤ of_gen a.gen cs
running-le a [] h = omega arith
running-le a (c ∷ cs) h = ground (arith, running-le a cs h.1)

Kept-Owned :
    (a : SplitView) (r : SplitView × Cmd) (c : Copying) → Kept a r → Owned a c → Owned r.0 c
Kept-Owned a r c k h = ground arith

Started-Owned :
    (a : SplitView) (r : SplitView × Cmd) (c : Copying) → Started a r → Owned a c → Owned r.0 c
Started-Owned a r c k h = ground arith

Torn-Owned :
    (a : SplitView) (r : SplitView × Cmd) (c : Copying) → Torn a r → Owned a c → Owned r.0 c
Torn-Owned a r c k h = ground arith

pub Change-Inv :
    (a : SplitView) (r : SplitView × Cmd) (cs : List Copying)
    → All (Owned a) cs
    → of_gen a.gen cs ≡ one_if a.transfer
    → Change a r
    → Inv (record { view = r.0; copies = cs ++ copies_of r.1 })
Change-Inv a r cs own n (inl k) = record {
  steady = record { alone = k.alone; quiet = k.quiet; shown = k.shown };
  owned =
      All-append _ cs _ (All-mono _ _ cs (λ c o. Kept-Owned a r c k o) own)
        (subst (All (Owned r.0)) (sym k.starts_none) tt);
  counted = ground (
    arith,
    of_gen-append a.gen cs (copies_of r.1),
    one_if-ctx r.0.transfer a.transfer k.same_copy,
  );
}
Change-Inv a r cs own n (inr (inl k)) = record {
  steady = record { alone = k.alone; quiet = k.quiet; shown = k.shown };
  owned =
      All-append _ cs _ (All-mono _ _ cs (λ c o. Started-Owned a r c k o) own)
        (subst (All (Owned r.0)) (sym k.starts_one) (inl (sym k.same_gen, k.new_copy), tt));
  counted = ground (arith, of_gen-append a.gen cs (copies_of r.1));
}
Change-Inv a r cs own n (inr (inr k)) = record {
  steady = record { alone = k.alone; quiet = k.quiet; shown = k.shown };
  owned =
      All-append _ cs _ (All-mono _ _ cs (λ c o. Torn-Owned a r c k o) own)
        (subst (All (Owned r.0)) (sym k.starts_none) tt);
  counted = ground (arith, of_gen-append (a.gen + 1) cs (copies_of r.1), of_gen-later a cs own);
}
