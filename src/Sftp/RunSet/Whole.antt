-- ===== src/Sftp/RunSet/Whole.antt =====
-- How far a set gets: through all of its items, or through the first of them up to the failure.
use tui_ssh_client.Prelude.{
  ℕ, ◌+◌, ◌≡◌, refl, sym, ap, ◌∙◌, Bool, true, false, List, [], ◌∷◌, ◌++◌, map, append_assoc,
  append-nil, Option, none, some, arith, if_cases, if_both, if◌then◌else◌,
}
use tui_ssh_client.Prelude.Text.{Text}
use tui_ssh_client.Sftp.Transfer.{Stop, Progress}
use tui_ssh_client.Sftp.Transfer.Files.{Transfer, Transferred, TransferError, returned, running}
use tui_ssh_client.Sftp.Tree.{Item, Browser, join_rel}
use tui_ssh_client.Sftp.RunSet.{
  Set, Given, Op, made_dir, copied, SetRun, SetEnd, finished, run_of, did, to, counted, transferred,
  run_item, run_items, run_set,
}
use tui_ssh_client.Sftp.RunSet.Parents.{target}

abbrev pub is_finished : SetEnd → Bool
is_finished (finished s) = true
is_finished _ = false

abbrev pub targets : List Op → List Text
targets [] = []
targets (op ∷ ops) = target op ∷ targets ops

-- How many of the items are files.
abbrev pub files_of : List Item → ℕ
files_of [] = 0
files_of (i ∷ is) = (if i.is_dir then 0 else 1) + files_of is

targets-append : (ops more : List Op) → targets (ops ++ more) ≡ targets ops ++ targets more
targets-append [] more = refl
targets-append (op ∷ ops) more = ap (λ t. target op ∷ t) (targets-append ops more)

module _ (src dst : Browser) (set : Set) where
  -- From a run on, the items of `through` were done in turn, and those of `left` were not.
  pub record Got (from : SetRun) (is : List Item) (e : SetEnd) : Type 0 where
    pub through : List Item
    pub left : List Item
    pub split : is ≡ through ++ left
    pub in_turn : targets (run_of e).ops ≡ targets from.ops ++ map (to dst set) through
    pub all_done : is_finished e ≡ true → left ≡ []
    pub all_counted : is_finished e ≡ true → (run_of e).files ≡ from.files + files_of is
    pub same_skipped : (run_of e).skipped ≡ from.skipped

  -- The end is where the run is.
  stays :
      (s : SetRun) (is : List Item) (e : SetEnd) → run_of e ≡ s → is_finished e ≡ false → Got s is e
  stays s is e same f = record {
    through = [];
    left = is;
    split = refl;
    in_turn = ap (λ (x : SetRun). targets x.ops) same ∙ sym (append-nil (targets s.ops));
    all_done = λ h. absurd (cc);
    all_counted = λ h. absurd (cc);
    same_skipped = ap (λ (x : SetRun). x.skipped) same;
  }

  -- One item is done, and then the rest, if there is any.
  goes :
      (s t : SetRun) (i : Item) (is : List Item) (e : SetEnd)
      → targets t.ops ≡ targets s.ops ++ to dst set i ∷ []
      → t.files ≡ s.files + (if i.is_dir then 0 else 1)
      → t.skipped ≡ s.skipped
      → Got t is e
      → Got s (i ∷ is) e
  goes s t i is e one n k g = record {
    through = i ∷ g.through;
    left = g.left;
    split = ap (λ x. i ∷ x) g.split;
    in_turn =
        g.in_turn
        ∙ (ap (λ x. x ++ map (to dst set) g.through) one
            ∙ append_assoc (targets s.ops) (to dst set i ∷ []) (map (to dst set) g.through));
    all_done = g.all_done;
    all_counted = λ h. omega (arith, g.all_counted h, n);
    same_skipped = g.same_skipped ∙ k;
  }

  -- The item is tried, and ends the run.
  fails :
      (s t : SetRun) (i : Item) (is : List Item) (e : SetEnd)
      → targets t.ops ≡ targets s.ops ++ to dst set i ∷ []
      → t.skipped ≡ s.skipped
      → run_of e ≡ t
      → is_finished e ≡ false
      → Got s (i ∷ is) e
  fails s t i is e one k same f = record {
    through = i ∷ [];
    left = is;
    split = refl;
    in_turn = ap (λ (x : SetRun). targets x.ops) same ∙ one;
    all_done = λ h. absurd (cc);
    all_counted = λ h. absurd (cc);
    same_skipped = ap (λ (x : SetRun). x.skipped) same ∙ k;
  }

  run_item-Got :
      (i : Item) (is : List Item) (g : Given) (stop : Option Stop) (s : SetRun)
      (rest : SetRun → SetEnd)
      → ((t : SetRun) → Got t is (rest t))
      → Got s (i ∷ is) (run_item src dst set i g stop s rest)
  unfolding run_item
  run_item-Got i is g (some e) s rest k = stays s (i ∷ is) _ refl refl
  run_item-Got i is g none s rest k =
      if_cases (Got s (i ∷ is)) i.is_dir _ _
        (λ dir.
          if_both (Got s (i ∷ is)) g.made _ _
            (goes s (did (made_dir (to dst set i)) s) i is _ (targets-append s.ops _)
              (rw dir (omega arith)) refl (k _))
            (stays s (i ∷ is) _ refl refl))
        (λ file. ends file _)
    where
      from : Text
      from = join_rel src set.src_root i.rel_path

      after : Transferred → SetRun
      after t =
          did (copied from (to dst set i) t.left)
            (record s { bytes = s.bytes + t.count; progress = t.progress })

      over :
          i.is_dir ≡ false
          → (t : Transferred) (e : Option TransferError)
          → Got s (i ∷ is) (counted t (after t) e rest)
      over file t none =
          goes s (record (after t) { files = s.files + 1 }) i is _ (targets-append s.ops _)
            (rw file refl) refl (k _)
      over file t (some e) = fails s (after t) i is _ (targets-append s.ops _) refl refl refl

      ends :
          i.is_dir ≡ false
          → (t : Transfer) → Got s (i ∷ is) (transferred from (to dst set i) s t rest)
      ends file running = stays s (i ∷ is) _ refl refl
      ends file (returned t) = over file t t.error

  run_items-Got :
      (is : List Item) (gs : List Given) (s : SetRun) → Got s is (run_items src dst set is gs s)
  unfolding run_items
  run_items-Got [] gs s = record {
    through = [];
    left = [];
    split = refl;
    in_turn = sym (append-nil (targets s.ops));
    all_done = λ h. refl;
    all_counted = λ h. omega arith;
    same_skipped = refl;
  }
  run_items-Got (i ∷ is) [] s = stays s (i ∷ is) _ refl refl
  run_items-Got (i ∷ is) (g ∷ gs) s =
      run_item-Got i is g g.stop s (run_items src dst set is gs) (run_items-Got is gs)

-- However a set ends, what was done are the first of its items, each once and in their order; where
-- RunSet reports no error these are all of them, and the result counts their files. The skipped
-- links are those of the set.
pub set_in_turn :
    (src dst : Browser) (set : Set) (gs : List Given) (p : Option Progress)
    → (through : List Item) × (left : List Item) × (set.items ≡ through ++ left)
      × (targets (run_of (run_set src dst set gs p)).ops ≡ map (to dst set) through)
      × ((is_finished (run_set src dst set gs p) ≡ true)
          → (left ≡ []) × ((run_of (run_set src dst set gs p)).files ≡ files_of set.items))
      × ((run_of (run_set src dst set gs p)).skipped ≡ set.skipped)
unfolding run_set
set_in_turn src dst set gs p =
    let g = run_items-Got src dst set set.items gs _ in
    (
      g.through,
      g.left,
      g.split,
      g.in_turn,
      λ h. (g.all_done h, omega (arith, g.all_counted h)),
      g.same_skipped,
    )
