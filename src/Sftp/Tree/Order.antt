-- ===== src/Sftp/Tree/Order.antt =====
-- What is known of a finished plan: its total, and that a directory comes before what is in it.
use tui_ssh_client.Prelude.{
  ℕ, zero, suc, ◌+◌, ◌≡◌, refl, subst, Bool, true, false, ◌&&◌, ◌||◌, List, [], ◌∷◌, ◌++◌, Option,
  none, some, arith, All, All-append, All-mono, Bool-cases, inl, inr, ◌⊎◌, if◌then◌else◌,
}
use tui_ssh_client.Prelude.Text.{Text, text_eq, text_eq_refl}
use tui_ssh_client.Sftp.Tree.{
  FileEntry, Item, Stat, stat_failed, missing, found, Browser, Walk, join_rel, child, dir_item,
  visit, visit_all, Plan, planned, listed, walk, from_root, plan_of, plan,
}

abbrev pub sum : List Item → ℕ
sum [] = 0
sum (i ∷ is) = i.size + sum is

sum-append : (is js : List Item) → sum (is ++ js) ≡ sum is + sum js
sum-append [] js = omega arith
sum-append (i ∷ is) js = omega (arith, sum-append is js)

-- Whether a directory of that path is among the items.
abbrev pub has_dir : Text → List Item → Bool
has_dir rel [] = false
has_dir rel (i ∷ is) = (i.is_dir && text_eq i.rel_path rel) || has_dir rel is

-- The item of an entry of a directory.
abbrev pub item_of : Text → FileEntry → Item
item_of rel e = record {
  rel_path = child rel e.name;
  size = if e.is_dir then 0 else e.size;
  is_dir = e.is_dir;
}

abbrev pub IsEntry : FileEntry → List FileEntry → Type 0
IsEntry e [] = ⊥
IsEntry e (x ∷ xs) = (x ≡ e) ⊎ IsEntry e xs

-- List gives the entry, which is no link, for the directory `rel`.
pub record IsListed (br : Browser) (root rel : Text) (e : FileEntry) : Type 0 where
  pub entries : List FileEntry
  pub lists : br.list (join_rel br root rel) ≡ some entries
  pub among : IsEntry e entries
  pub no_link : e.link ≡ false

-- No items, or a list of items in which each but the first, the root with the empty path, is what List
-- gives for a directory that comes before it.
pub data IsOrdered (br : Browser) (root : Text) : List Item → Type 0 where
  no_items : IsOrdered br root []
  only_root : (i : Item) → i.rel_path ≡ [] → IsOrdered br root (i ∷ [])
  snoc :
      {is : List Item} (rel : Text) (e : FileEntry)
      → IsOrdered br root is
      → has_dir rel is ≡ true
      → IsListed br root rel e
      → IsOrdered br root (is ++ item_of rel e ∷ [])

pub record IsSound (br : Browser) (root : Text) (w : Walk) : Type 0 where
  pub counted : w.total ≡ sum w.items
  pub ordered : IsOrdered br root w.items
  pub queued : All (λ q. has_dir q w.items ≡ true) w.queue

pub has_dir-append :
    (rel : Text) (is js : List Item) → has_dir rel (is ++ js) ≡ (has_dir rel is || has_dir rel js)
has_dir-append rel [] js = refl
has_dir-append rel (i ∷ is) js = ground (arith, has_dir-append rel is js)

pub later : (rel : Text) (is js : List Item) → has_dir rel is ≡ true → has_dir rel (is ++ js) ≡ true
later rel is js h = ground (arith, has_dir-append rel is js)

visit-IsSound :
    (br : Browser) (root rel : Text) (e : FileEntry) (w : Walk)
    → has_dir rel w.items ≡ true
    → (e.link ≡ false → IsListed br root rel e)
    → IsSound br root w
    → IsSound br root (visit rel e w) × (has_dir rel (visit rel e w).items ≡ true)
unfolding visit
visit-IsSound br root rel e w d given h = elim (Bool-cases e.link) [
  | inl l ↦ rw l (record { counted = h.counted; ordered = h.ordered; queued = h.queued }, d)
  | inr l ↦
      let more : IsOrdered br root (w.items ++ item_of rel e ∷ []) =
        snoc rel e h.ordered d (given l) in
      rw l (elim (Bool-cases e.is_dir) [
        | inl k ↦ rw k (
          record {
            counted =
                omega (arith, h.counted, sum-append w.items (dir_item (child rel e.name) ∷ []));
            ordered = rw k at more;
            queued =
                All-append _ w.queue _ (All-mono _ _ w.queue (λ q x. later q w.items _ x) h.queued)
                  (last w.items (child rel e.name), tt);
          },
          later rel w.items _ d,
        )
        | inr k ↦ rw k (
          record {
            counted = omega (
              arith,
              h.counted,
              sum-append w.items
                  (record { rel_path = child rel e.name; size = e.size; is_dir = false } ∷ []),
            );
            ordered = rw k at more;
            queued = All-mono _ _ w.queue (λ q x. later q w.items _ x) h.queued;
          },
          later rel w.items _ d,
        )
      ])
]
  where
    last : (is : List Item) (c : Text) → has_dir c (is ++ dir_item c ∷ []) ≡ true
    last is c = ground (arith, has_dir-append c is (dir_item c ∷ []), text_eq_refl c)

visit_all-IsSound :
    (br : Browser) (root rel : Text) (es : List FileEntry) (w : Walk)
    → has_dir rel w.items ≡ true
    → ((e : FileEntry) → IsEntry e es → e.link ≡ false → IsListed br root rel e)
    → IsSound br root w
    → IsSound br root (visit_all rel es w)
unfolding visit_all
visit_all-IsSound br root rel [] w d given h = h
visit_all-IsSound br root rel (e ∷ es) w d given h =
    let (s, k) = visit-IsSound br root rel e w d (given e (inl refl)) h in
    visit_all-IsSound br root rel es (visit rel e w) k (λ x m. given x (inr m)) s

module _ (br : Browser) (root : Text) where
  -- A finished plan is sound.
  abbrev Finished : Plan → Type 0
  Finished (planned w) = (w.total ≡ sum w.items) × IsOrdered br root w.items
  Finished _ = Unit

  walk-Finished :
      (n : ℕ) (q : List Text) (w : Walk)
      → w.queue ≡ q
      → IsSound br root w
      → Finished (walk n br root q w)
  unfolding walk listed
  walk-Finished n [] w e h = (h.counted, h.ordered)
  walk-Finished zero (rel ∷ q) w e h = tt
  walk-Finished (suc n) (rel ∷ q) w e h =
      let own : All (λ x. has_dir x w.items ≡ true) (rel ∷ q) =
        subst (λ x. All (λ y. has_dir y w.items ≡ true) x) e h.queued in
      go (br.list (join_rel br root rel)) refl own.0
        (record { counted = h.counted; ordered = h.ordered; queued = own.1 }) (walk-Finished n)
    where
      go :
          (o : Option (List FileEntry))
          → br.list (join_rel br root rel) ≡ o
          → has_dir rel w.items ≡ true
          → IsSound br root (record w { queue = q })
          → ((r : List Text) (v : Walk)
              → v.queue ≡ r
              → IsSound br root v
              → Finished (walk n br root r v))
          → Finished (listed o rel (record w { queue = q }) (λ v. walk n br root v.queue v))
      go none l d s rest = tt
      go (some es) l d s rest = rest _ _ refl (
          visit_all-IsSound br root rel es (record w { queue = q }) d
            (λ x m k. record { entries = es; lists = l; among = m; no_link = k }) s)

  from_root-IsSound : IsSound br root from_root
  unfolding text_eq
  from_root-IsSound = record { counted = refl; ordered = only_root _ refl; queued = (refl, tt) }

  plan-Finished : (n : ℕ) (o : Stat) → Finished (plan_of n br root o)
  unfolding plan_of
  plan-Finished n stat_failed = tt
  plan-Finished n missing = tt
  plan-Finished n (found e) = elim (Bool-cases e.link) [
    | inl l ↦ rw l (refl, no_items)
    | inr l ↦ rw l (elim (Bool-cases e.is_dir) [
      | inl k ↦ rw k (walk-Finished n _ from_root refl from_root-IsSound)
      | inr k ↦ rw k (omega arith, only_root _ refl)
    ])
  ]

-- The total of a plan is the sum of the sizes of its items, and each item but the root is what List gives,
-- and no link, for a directory that comes before it in the plan.
pub plan_in_order :
    (n : ℕ) (br : Browser) (root : Text) (w : Walk)
    → plan n br root ≡ planned w
    → (w.total ≡ sum w.items) × IsOrdered br root w.items
unfolding plan
plan_in_order n br root w e = subst (Finished br root) e (plan-Finished br root n (br.stat root))
