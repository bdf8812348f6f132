-- ===== src/Sftp/RunSet/Parents.antt =====
-- A set is copied in an order in which every directory stands before what goes into it.
use tui_ssh_client.Prelude.{
  ℕ, ◌+◌, ◌≡◌, ◌⊎◌, inl, inr, refl, sym, subst, ap, ◌∙◌, Bool, true, false, ◌||◌, List, [], ◌∷◌,
  ◌++◌, append_assoc, append-nil, Option, none, some, arith, Bool-cases, if_cases, if_both,
}
use tui_ssh_client.Prelude.Text.{Text, text_eq, text_eq_iff, text_eq_refl}
use tui_ssh_client.Sftp.Transfer.{Stop, Progress}
use tui_ssh_client.Sftp.Transfer.Files.{Transfer, Transferred, TransferError, returned, running}
use tui_ssh_client.Sftp.Tree.{FileEntry, Item, Browser, Walk, planned, join_rel, child, plan}
use tui_ssh_client.Sftp.Tree.Order.{
  has_dir, has_dir-append, IsOrdered, no_items, only_root, snoc, plan_in_order, IsListed, item_of,
}
use tui_ssh_client.Sftp.RunSet.{
  Set, Given, Op, made_dir, copied, SetRun, SetEnd, run_of, did, to, counted, transferred, run_item,
  run_items, run_set, Written,
}

abbrev pub made : Text → List Op → Bool
made path [] = false
made path (made_dir p ∷ ops) = text_eq p path || made path ops
made path (copied f p w ∷ ops) = made path ops

abbrev pub target : Op → Text
target (made_dir p) = p
target (copied f p w) = p

-- Each but the first was done, in a directory that had been made before, for an entry of the directory of
-- the source that this is the copy of.
pub data IsBuilt (src : Browser) (from : Text) (dst : Browser) (root : Text)
    : List Op → Type 0 where
  untouched : IsBuilt src from dst root []
  first : (op : Op) → target op ≡ join_rel dst root [] → IsBuilt src from dst root (op ∷ [])
  next :
      {ops : List Op} (op : Op) (rel : Text) (e : FileEntry)
      → IsBuilt src from dst root ops
      → made (join_rel dst root rel) ops ≡ true
      → IsListed src from rel e
      → target op ≡ join_rel dst root (child rel e.name)
      → IsBuilt src from dst root (ops ++ op ∷ [])

module _ (src : Browser) (from : Text) where
  -- An item may follow the others.
  Fits : List Item → Item → Type 0
  Fits before i =
      ((before ≡ []) × (i.rel_path ≡ []))
      ⊎ ((rel : Text) × (e : FileEntry) × (has_dir rel before ≡ true)
          × IsListed src from rel e
          × (i.rel_path ≡ child rel e.name))

  abbrev Follow : List Item → List Item → Type 0
  Follow before [] = Unit
  Follow before (i ∷ is) = Fits before i × Follow (before ++ i ∷ []) is

  Follow-append :
      (before is : List Item) (i : Item)
      → Follow before is
      → Fits (before ++ is) i
      → Follow before (is ++ i ∷ [])
  Follow-append before [] i f h = (subst (λ x. Fits x i) (append-nil before) h, tt)
  Follow-append before (j ∷ is) i f h = (
    f.0,
    Follow-append (before ++ j ∷ []) is i f.1
        (subst (λ x. Fits x i) (sym (append_assoc before (j ∷ []) is)) h),
  )

  -- The items that an ordered list starts with are followed by the others in turn.
  IsOrdered-Follow : {is : List Item} → IsOrdered src from is → Follow [] is
  unfolding Fits
  IsOrdered-Follow no_items = tt
  IsOrdered-Follow (only_root i e) = (inl (refl, e), tt)
  IsOrdered-Follow (snoc {is} rel e o h l) =
      Follow-append [] is (item_of rel e) (IsOrdered-Follow o) (inr (rel, e, h, l, refl))

  -- What was done agrees with the items that are through.
  record Built (dst : Browser) (root : Text) (before : List Item) (ops : List Op) : Type 0 where
    built : IsBuilt src from dst root ops
    dirs : (rel : Text) → has_dir rel before ≡ true → made (join_rel dst root rel) ops ≡ true
    empty : before ≡ [] → ops ≡ []

made-append : (p : Text) (ops more : List Op) → made p (ops ++ more) ≡ (made p ops || made p more)
made-append p [] more = refl
made-append p (made_dir q ∷ ops) more = ground (arith, made-append p ops more)
made-append p (copied f q w ∷ ops) more = made-append p ops more

module _ (src : Browser) (from : Text) (dst : Browser) (root : Text) where
  op-IsBuilt :
      (before : List Item) (ops : List Op) (i : Item) (op : Op)
      → Built src from dst root before ops
      → Fits src from before i
      → target op ≡ join_rel dst root i.rel_path
      → IsBuilt src from dst root (ops ++ op ∷ [])
  unfolding Fits
  op-IsBuilt before ops i op b (inl (none_yet, e)) t =
      subst (λ x. IsBuilt src from dst root (x ++ op ∷ [])) (sym (b.empty none_yet))
        (first op (t ∙ ap (join_rel dst root) e))
  op-IsBuilt before ops i op b (inr (rel, x, h, l, e)) t =
      next op rel x b.built (b.dirs rel h) l (t ∙ ap (join_rel dst root) e)

  dir-made :
      (before : List Item) (ops : List Op) (i : Item) (rel : Text)
      → Built src from dst root before ops
      → has_dir rel (before ++ i ∷ []) ≡ true
      → made (join_rel dst root rel) (ops ++ made_dir (join_rel dst root i.rel_path) ∷ []) ≡ true
  dir-made before ops i rel b h = elim (Bool-cases (has_dir rel before)) [
    | inl old ↦ ground (
      arith,
      b.dirs rel old,
      made-append (join_rel dst root rel) ops (made_dir (join_rel dst root i.rel_path) ∷ []),
    )
    | inr new ↦ ground (
      arith,
      has_dir-append rel before (i ∷ []),
      text_eq_iff i.rel_path rel,
      text_eq_refl (join_rel dst root rel),
      made-append (join_rel dst root rel) ops (made_dir (join_rel dst root i.rel_path) ∷ []),
    )
  ]

  file-made :
      (before : List Item) (ops : List Op) (i : Item) (rel origin path : Text) (w : Option Written)
      → Built src from dst root before ops
      → i.is_dir ≡ false
      → has_dir rel (before ++ i ∷ []) ≡ true
      → made (join_rel dst root rel) (ops ++ copied origin path w ∷ []) ≡ true
  file-made before ops i rel origin path w b f h = ground (
    arith,
    b.dirs rel,
    has_dir-append rel before (i ∷ []),
    made-append (join_rel dst root rel) ops (copied origin path w ∷ []),
  )

  nonempty : (before : List Item) (i : Item) (ops : List Op) → before ++ i ∷ [] ≡ [] → ops ≡ []
  nonempty [] i ops e = absurd (cc)
  nonempty (j ∷ before) i ops e = absurd (cc)

module _ (src dst : Browser) (set : Set) where
  -- After the item, whatever the rest keeps building on.
  run_item-IsBuilt :
      (i : Item) (g : Given) (stop : Option Stop) (s : SetRun) (before : List Item)
      (rest : SetRun → SetEnd)
      → Fits src set.src_root before i
      → Built src set.src_root dst set.dst_root before s.ops
      → ((t : SetRun)
          → Built src set.src_root dst set.dst_root (before ++ i ∷ []) t.ops
          → IsBuilt src set.src_root dst set.dst_root (run_of (rest t)).ops)
      → IsBuilt src set.src_root dst set.dst_root
          (run_of (run_item src dst set i g stop s rest)).ops
  unfolding run_item
  run_item-IsBuilt i g (some e) s before rest f b k = b.built
  run_item-IsBuilt i g none s before rest f b k =
      if_cases P i.is_dir _ _
        (λ dir.
          if_both P g.made _ _
            (k (did (made_dir (to dst set i)) s) (record {
              built =
                  op-IsBuilt src set.src_root dst set.dst_root before s.ops i
                    (made_dir (to dst set i)) b f refl;
              dirs = λ rel. dir-made src set.src_root dst set.dst_root before s.ops i rel b;
              empty = nonempty src set.src_root dst set.dst_root before i _;
            }))
            b.built)
        (λ file. ends file _)
    where
      P : SetEnd → Type 0
      P e = IsBuilt src set.src_root dst set.dst_root (run_of e).ops

      over :
          i.is_dir ≡ false
          → (t : Transferred) (e : Option TransferError)
          → P (
              counted t
                (did
                  (copied (join_rel src set.src_root i.rel_path) (to dst set i) t.left)
                  (record s { bytes = s.bytes + t.count; progress = t.progress }))
                e
                rest)
      over file t none = k _ (record {
        built = op-IsBuilt src set.src_root dst set.dst_root before s.ops i _ b f refl;
        dirs =
            λ rel. file-made src set.src_root dst set.dst_root before s.ops i rel _ _ t.left b file;
        empty = nonempty src set.src_root dst set.dst_root before i _;
      })
      over file t (some e) = op-IsBuilt src set.src_root dst set.dst_root before s.ops i _ b f refl

      ends :
          i.is_dir ≡ false
          → (t : Transfer)
          → P (transferred (join_rel src set.src_root i.rel_path) (to dst set i) s t rest)
      ends file running = b.built
      ends file (returned t) = over file t t.error

  run_items-IsBuilt :
      (is : List Item) (gs : List Given) (s : SetRun) (before : List Item)
      → Follow src set.src_root before is
      → Built src set.src_root dst set.dst_root before s.ops
      → IsBuilt src set.src_root dst set.dst_root (run_of (run_items src dst set is gs s)).ops
  unfolding run_items
  run_items-IsBuilt [] gs s before f b = b.built
  run_items-IsBuilt (i ∷ is) [] s before f b = b.built
  run_items-IsBuilt (i ∷ is) (g ∷ gs) s before f b =
      run_item-IsBuilt i g g.stop s before (run_items src dst set is gs) f.0 b
        (λ t c. run_items-IsBuilt is gs t (before ++ i ∷ []) f.1 c)

-- A set that Plan walked is copied, as far as the copy gets and however it ends, so that all but the root is
-- put, under the name of an entry that List gave for a directory of the source, into the copy of that
-- directory, which was made before.
pub parents_first :
    (n : ℕ) (src dst : Browser) (set : Set) (w : Walk) (gs : List Given) (p : Option Progress)
    → plan n src set.src_root ≡ planned w
    → set.items ≡ w.items
    → IsBuilt src set.src_root dst set.dst_root (run_of (run_set src dst set gs p)).ops
unfolding run_set
parents_first n src dst set w gs p planned_so same =
    run_items-IsBuilt src dst set set.items gs _ []
      (IsOrdered-Follow src set.src_root (
        subst (IsOrdered src set.src_root) (sym same)
          (plan_in_order n src set.src_root w planned_so).1))
      (record { built = untouched; dirs = λ rel h. absurd (cc); empty = λ e. refl })
