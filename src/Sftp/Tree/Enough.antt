-- ===== src/Sftp/Tree/Enough.antt =====
-- The walk of Plan ends: it needs no more rounds than the tree has directories.
use tui_ssh_client.Prelude.{
  ℕ, zero, suc, ◌+◌, ◌≤◌, ◌≡◌, ◌≢◌, refl, subst, List, [], ◌∷◌, ◌++◌, Option, none, some, arith,
  Bool-cases, if◌then◌else◌, inl, inr,
}
use tui_ssh_client.Prelude.Text.{Text}
use tui_ssh_client.Sftp.Tree.{
  FileEntry, Stat, stat_failed, missing, found, Browser, Walk, join_rel, child, visit, visit_all,
  Plan, unfinished, listed, walk, from_root, plan_of, plan,
}

-- The sum of the weights of the queue.
abbrev pub queue_weight : (Text → ℕ) → List Text → ℕ
queue_weight weight [] = 0
queue_weight weight (q ∷ qs) = weight q + queue_weight weight qs

-- The sum of the weights of the directories of a listing that the walk goes into.
abbrev pub below : (Text → ℕ) → Text → List FileEntry → ℕ
below weight rel [] = 0
below weight rel (e ∷ es) =
    let rest = below weight rel es in
    if e.link then rest else if e.is_dir then weight (child rel e.name) + rest else rest

-- The weight of a directory counts it and all that is below it, as its number of directories does.
unfoldable pub Weighs : Browser → Text → (Text → ℕ) → Type 0
Weighs br root weight =
    (rel : Text) (es : List FileEntry)
    → br.list (join_rel br root rel) ≡ some es
    → below weight rel es + 1 ≤ weight rel

queue_weight-append :
    (weight : Text → ℕ) (q r : List Text)
    → queue_weight weight (q ++ r) ≡ queue_weight weight q + queue_weight weight r
queue_weight-append weight [] r = omega arith
queue_weight-append weight (x ∷ q) r = omega (arith, queue_weight-append weight q r)

queue_weight-visit_all :
    (weight : Text → ℕ) (rel : Text) (es : List FileEntry) (w : Walk)
    → queue_weight weight (visit_all rel es w).queue
      ≡ queue_weight weight w.queue + below weight rel es
unfolding visit_all visit
queue_weight-visit_all weight rel [] w = omega arith
queue_weight-visit_all weight rel (e ∷ es) w = ground (
  arith,
  queue_weight-visit_all weight rel es (visit rel e w),
  queue_weight-append weight w.queue (child rel e.name ∷ []),
)

-- Whether the walk came to an end.
abbrev Ended : Plan → Type 0
Ended unfinished = ⊥
Ended _ = Unit

walk-Ended :
    (n : ℕ) (br : Browser) (root : Text) (weight : Text → ℕ) (q : List Text) (w : Walk)
    → Weighs br root weight
    → ((rel : Text) → 1 ≤ weight rel)
    → queue_weight weight q ≤ n
    → Ended (walk n br root q w)
unfolding walk listed Weighs
walk-Ended n br root weight [] w fits one h = tt
walk-Ended zero br root weight (rel ∷ q) w fits one h = omega (arith, one rel)
walk-Ended (suc n) br root weight (rel ∷ q) w fits one h =
    go (br.list (join_rel br root rel)) refl (λ v. walk-Ended n br root weight v.queue v fits one)
  where
    go :
        (o : Option (List FileEntry))
        → br.list (join_rel br root rel) ≡ o
        → ((v : Walk) → queue_weight weight v.queue ≤ n → Ended (walk n br root v.queue v))
        → Ended (listed o rel (record w { queue = q }) (λ v. walk n br root v.queue v))
    go none e rest = tt
    go (some es) e rest = rest _ (
        omega (arith, fits rel es e, queue_weight-visit_all weight rel es (record w { queue = q })))

plan-Ended :
    (n : ℕ) (br : Browser) (root : Text) (weight : Text → ℕ) (o : Stat)
    → Weighs br root weight
    → ((rel : Text) → 1 ≤ weight rel)
    → weight [] ≤ n
    → Ended (plan_of n br root o)
unfolding plan_of
plan-Ended n br root weight stat_failed fits one h = tt
plan-Ended n br root weight missing fits one h = tt
plan-Ended n br root weight (found e) fits one h = elim (Bool-cases e.link) [
  | inl l ↦ rw l tt
  | inr l ↦ rw l (elim (Bool-cases e.is_dir) [
    | inl k ↦ rw k (walk-Ended n br root weight ([] ∷ []) from_root fits one (omega arith))
    | inr k ↦ rw k tt
  ])
]

-- Where each directory has a weight of at least 1 that exceeds the sum of the weights of the
-- directories in it, the walk has ended after as many rounds as the weight of its root.
pub plan_ends :
    (n : ℕ) (br : Browser) (root : Text) (weight : Text → ℕ)
    → Weighs br root weight
    → ((rel : Text) → 1 ≤ weight rel)
    → weight [] ≤ n
    → plan n br root ≢ unfinished
unfolding plan
plan_ends n br root weight fits one h e =
    subst Ended e (plan-Ended n br root weight (br.stat root) fits one h)
