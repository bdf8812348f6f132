-- ===== src/Ui/Sftp/Commands/Confirmed.antt =====
-- What the confirmation of a transfer says, and what the transfer does.
use tui_ssh_client.Prelude.{
  ℕ, ◌+◌, ◌≡◌, refl, subst, true, List, [], ◌∷◌, ◌++◌, Option, arith, length,
}
use tui_ssh_client.Prelude.Text.{Text}
use tui_ssh_client.Sftp.Transfer.{Progress}
use tui_ssh_client.Sftp.Tree.{
  FileEntry, Item, Browser, Walk, Plan, planned, not_listed, not_stated, not_there, unfinished,
  plan,
}
use tui_ssh_client.Sftp.Tree.Order.{sum, plan_in_order}
use tui_ssh_client.Sftp.RunSet.{Set, Given, SetEnd, finished, broke, waits, run_of, run_set}
use tui_ssh_client.Sftp.RunSet.Whole.{files_of, is_finished, set_in_turn}
use tui_ssh_client.Ui.Sftp.State.{Request, PlanArgs}
use tui_ssh_client.Ui.Sftp.Commands.{
  count_dirs, count_files, Scan, scanned, with_set, walked, plan_entries, plan_transfer, Total,
  TransferEnd, done_all, done_until, copying, plus, after_set, run_sets, run_transfer,
}

-- The sums over the sets.
abbrev pub all_files : List Set → ℕ
all_files [] = 0
all_files (s ∷ ss) = files_of s.items + all_files ss

abbrev pub all_sizes : List Set → ℕ
all_sizes [] = 0
all_sizes (s ∷ ss) = sum s.items + all_sizes ss

abbrev pub all_skipped : List Set → ℕ
all_skipped [] = 0
all_skipped (s ∷ ss) = s.skipped + all_skipped ss

abbrev pub all_items : List Set → ℕ
all_items [] = 0
all_items (s ∷ ss) = length s.items + all_items ss

pub record AddsUp (req : Request) : Type 0 where
  pub files : req.files ≡ all_files req.sets
  pub total : req.total ≡ all_sizes req.sets
  pub skipped : req.skipped ≡ all_skipped req.sets
  pub items : req.files + req.dirs ≡ all_items req.sets

count_files-files_of : (is : List Item) → count_files is ≡ files_of is
unfolding count_files
count_files-files_of [] = refl
count_files-files_of (i ∷ is) = omega (arith, count_files-files_of is)

counts-length : (is : List Item) → count_files is + count_dirs is ≡ length is
unfolding count_files count_dirs
counts-length [] = refl
counts-length (i ∷ is) = ground (arith, counts-length is)

module _ (set : Set) where
  all_files-append :
      (ss : List Set) → all_files (ss ++ set ∷ []) ≡ all_files ss + files_of set.items
  all_files-append [] = omega arith
  all_files-append (s ∷ ss) = omega (arith, all_files-append ss)

  all_sizes-append : (ss : List Set) → all_sizes (ss ++ set ∷ []) ≡ all_sizes ss + sum set.items
  all_sizes-append [] = omega arith
  all_sizes-append (s ∷ ss) = omega (arith, all_sizes-append ss)

  all_skipped-append : (ss : List Set) → all_skipped (ss ++ set ∷ []) ≡ all_skipped ss + set.skipped
  all_skipped-append [] = omega arith
  all_skipped-append (s ∷ ss) = omega (arith, all_skipped-append ss)

  all_items-append : (ss : List Set) → all_items (ss ++ set ∷ []) ≡ all_items ss + length set.items
  all_items-append [] = omega arith
  all_items-append (s ∷ ss) = omega (arith, all_items-append ss)

with_set-AddsUp :
    (args : PlanArgs) (dst : Browser) (root : Text) (e : FileEntry) (w : Walk) (req : Request)
    → w.total ≡ sum w.items
    → AddsUp req
    → AddsUp (with_set args dst root e w req)
unfolding with_set
with_set-AddsUp args dst root e w req t a =
    let set : Set = record {
      upload = args.upload;
      src_root = root;
      dst_root = dst.join args.dst_dir e.name;
      items = w.items;
      skipped = w.skipped;
    } in
    record {
      files = omega (arith, a.files, all_files-append set req.sets, count_files-files_of w.items);
      total = omega (arith, a.total, all_sizes-append set req.sets, t);
      skipped = omega (arith, a.skipped, all_skipped-append set req.sets);
      items = omega (arith, a.items, all_items-append set req.sets, counts-length w.items);
    }

abbrev Adds : Scan → Type 0
Adds (scanned req) = AddsUp req
Adds _ = Unit

plan_entries-Adds :
    (n : ℕ) (args : PlanArgs) (src dst : Browser) (es : List FileEntry) (req : Request)
    → AddsUp req
    → Adds (plan_entries n args src dst es req)
unfolding plan_entries walked
plan_entries-Adds n args src dst [] req a = a
plan_entries-Adds n args src dst (e ∷ es) req a =
    let root = src.join args.src_dir e.name in
    after (plan n src root) refl (λ w same.
      plan_entries-Adds n args src dst es _
        (with_set-AddsUp args dst root e w req (plan_in_order n src root w same).0 a))
  where
    after :
        (o : Plan)
        → plan n src (src.join args.src_dir e.name) ≡ o
        → ((w : Walk)
            → plan n src (src.join args.src_dir e.name) ≡ planned w
            → Adds (
                plan_entries n args src dst es
                  (with_set args dst (src.join args.src_dir e.name) e w req)))
        → Adds (
            walked o (λ w.
              plan_entries n args src dst es
                (with_set args dst (src.join args.src_dir e.name) e w req)))
    after (planned w) same k = k w same
    after not_listed same k = tt
    after not_stated same k = tt
    after not_there same k = tt
    after unfinished same k = tt

plan_transfer-Adds :
    (n : ℕ) (args : PlanArgs) (src dst : Browser) → Adds (plan_transfer n args src dst)
unfolding plan_transfer
plan_transfer-Adds n args src dst =
    plan_entries-Adds n args src dst args.entries _
      (record { files = refl; total = refl; skipped = refl; items = refl })

-- From a total on, what the sets that are through add to it.
abbrev Sent : List Set → Total → TransferEnd → Type 0
Sent sets t (done_all u) =
    (u.files ≡ t.files + all_files sets) × (u.skipped ≡ t.skipped + all_skipped sets)
Sent sets t _ = Unit

run_sets-Sent :
    (src dst : Browser) (sets : List Set) (gss : List (List Given)) (t : Total)
    (p : Option Progress)
    → Sent sets t (run_sets src dst sets gss t p)
unfolding run_sets after_set
run_sets-Sent src dst [] gss t p = (omega arith, omega arith)
run_sets-Sent src dst (set ∷ sets) [] t p = tt
run_sets-Sent src dst (set ∷ sets) (gs ∷ gss) t p =
    let (through, left, same, turn, all, links) = set_in_turn src dst set gs p in
    after (run_set src dst set gs p) (λ h. (all h).1) links
      (λ u q. run_sets-Sent src dst sets gss u q)
  where
    after :
        (e : SetEnd)
        → (is_finished e ≡ true → (run_of e).files ≡ files_of set.items)
        → (run_of e).skipped ≡ set.skipped
        → ((u : Total) (q : Option Progress) → Sent sets u (run_sets src dst sets gss u q))
        → Sent (set ∷ sets) t (after_set t e (run_sets src dst sets gss))
    after (broke s e) f k rest = tt
    after (waits s) f k rest = tt
    after (finished s) f k rest =
        shift (run_sets src dst sets gss (plus t s) s.progress) (f refl)
          (rest (plus t s) s.progress)
      where
        shift :
            (o : TransferEnd)
            → s.files ≡ files_of set.items
            → Sent sets (plus t s) o
            → Sent (set ∷ sets) t o
        shift (done_all u) f h = (omega (arith, h.0, f), omega (arith, h.1, k))
        shift (done_until u e) f h = tt
        shift copying f h = tt

abbrev nothing_sent : Total
nothing_sent = record { files = 0; bytes = 0; skipped = 0 }

-- The request of a walk states the sum of the sizes and the number of its items, and a transfer of
-- it that ends without an error has copied as many files, and skipped as many links, as it states.
pub transfer_as_confirmed :
    (n : ℕ) (args : PlanArgs) (src dst : Browser) (req : Request) (gss : List (List Given))
    (p : Option Progress) (u : Total)
    → plan_transfer n args src dst ≡ scanned req
    → run_transfer src dst req gss p ≡ done_all u
    → (req.total ≡ all_sizes req.sets)
      × (req.files + req.dirs ≡ all_items req.sets)
      × (u.files ≡ req.files)
      × (u.skipped ≡ req.skipped)
unfolding run_transfer
transfer_as_confirmed n args src dst req gss p u e f =
    let a = subst Adds e (plan_transfer-Adds n args src dst) in
    let s =
      subst (Sent req.sets nothing_sent) f (run_sets-Sent src dst req.sets gss nothing_sent p) in
    (a.total, a.items, omega (arith, s.0, a.files), omega (arith, s.1, a.skipped))
