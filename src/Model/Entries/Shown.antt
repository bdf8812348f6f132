-- ===== src/Model/Entries/Shown.antt =====
-- What SortEntries shows: every entry, in order, whichever order the listing came in.
use tui_ssh_client.Prelude.{
  ◌≡◌, refl, sym, ap, ◌∙◌, subst, inl, inr, Bool, true, false, List, [], ◌∷◌, All, All-mono, arith,
  Bool-cases, if_cases,
}
use tui_ssh_client.Prelude.Text.{text_eq}
use tui_ssh_client.Sftp.Tree.{FileEntry}
use tui_ssh_client.Model.Entries.{entry_less, insert_entry, sort_entries}
use tui_ssh_client.Model.Entries.Order.{
  text_eq_comm, entry_less-asym, entry_less-total, entry_less-splits,
}
use mathlib.Core.List.{Permᴰ}
use mathlib.Core.List.Permᴰ

-- No entry comes before one that stands over it.
abbrev pub InOrder : List FileEntry → Type 0
InOrder [] = Unit
InOrder (x ∷ xs) = All (λ y. entry_less y x ≡ false) xs × InOrder xs

abbrev pub HasNewName : FileEntry → List FileEntry → Type 0
HasNewName e es = All (λ x. text_eq e.name x.name ≡ false) es

abbrev pub Distinct : List FileEntry → Type 0
Distinct [] = Unit
Distinct (e ∷ es) = HasNewName e es × Distinct es

-- The same entries, in any order.
abbrev pub Rearranged : List FileEntry → List FileEntry → Type 0
Rearranged xs ys = Permᴰ xs ys

insert_entry-All :
    (P : FileEntry → Type 0) (e : FileEntry) (xs : List FileEntry)
    → P e
    → All P xs
    → All P (insert_entry e xs)
unfolding insert_entry
insert_entry-All P e [] p h = (p, tt)
insert_entry-All P e (x ∷ xs) p h =
    if_cases (All P) (entry_less x e) _ _ (λ q. (h.0, insert_entry-All P e xs p h.1)) (λ q. (p, h))

not_less :
    (y x e : FileEntry) → entry_less x e ≡ false → entry_less y x ≡ false → entry_less y e ≡ false
not_less y x e q r = elim (Bool-cases (entry_less y e)) [
  | inl h ↦ elim (entry_less-splits y x e h) [
    | inl a ↦ absurd (clash a r)
    | inr b ↦ absurd (clash b q)
  ]
  | inr h ↦ h
]
  where
    clash : {b : Bool} → b ≡ true → b ≡ false → ⊥
    clash a b = cc

insert_entry-InOrder :
    (e : FileEntry) (xs : List FileEntry) → InOrder xs → InOrder (insert_entry e xs)
unfolding insert_entry
insert_entry-InOrder e [] h = (tt, tt)
insert_entry-InOrder e (x ∷ xs) h =
    if_cases InOrder (entry_less x e) _ _
      (λ q. (
        insert_entry-All (λ y. entry_less y x ≡ false) e xs (entry_less-asym x e q) h.0,
        insert_entry-InOrder e xs h.1,
      ))
      (λ q. ((q, All-mono _ _ xs (λ y r. not_less y x e q r) h.0), h))

sort_entries-InOrder : (xs : List FileEntry) → InOrder (sort_entries xs)
unfolding sort_entries
sort_entries-InOrder [] = tt
sort_entries-InOrder (e ∷ es) = insert_entry-InOrder e (sort_entries es) (sort_entries-InOrder es)

insert_entry-Rearranged :
    (e : FileEntry) (xs : List FileEntry) → Rearranged (e ∷ xs) (insert_entry e xs)
unfolding insert_entry
insert_entry-Rearranged e [] = Permᴰ.refl (e ∷ [])
insert_entry-Rearranged e (x ∷ xs) =
    if_cases (Rearranged (e ∷ (x ∷ xs))) (entry_less x e) _ _
      (λ q. Permᴰ.trans (Permᴰ.swap refl refl) (Permᴰ.cons refl (insert_entry-Rearranged e xs)))
      (λ q. Permᴰ.refl (e ∷ (x ∷ xs)))

sort_entries-Rearranged : (xs : List FileEntry) → Rearranged xs (sort_entries xs)
unfolding sort_entries
sort_entries-Rearranged [] = Permᴰ.nil
sort_entries-Rearranged (e ∷ es) =
    Permᴰ.trans (Permᴰ.cons refl (sort_entries-Rearranged es))
      (insert_entry-Rearranged e (sort_entries es))

insert_entry-swap :
    (a b : FileEntry) (xs : List FileEntry)
    → text_eq a.name b.name ≡ false
    → insert_entry a (insert_entry b xs) ≡ insert_entry b (insert_entry a xs)
unfolding insert_entry
insert_entry-swap a b [] n =
    ground (arith, entry_less-asym a b, entry_less-asym b a, entry_less-total a b n)
insert_entry-swap a b (x ∷ xs) n = ground (
  arith,
  entry_less-asym a b,
  entry_less-asym b a,
  entry_less-total a b n,
  entry_less-splits x a b,
  entry_less-splits x b a,
  insert_entry-swap a b xs n,
)

All-Rearranged :
    (P : FileEntry → Type 0) (xs ys : List FileEntry) → Rearranged xs ys → All P xs → All P ys
All-Rearranged P _ _ Permᴰ.nil h = tt
All-Rearranged P _ _ (Permᴰ.cons {l₁ = l} {l₂ = m} e d) h =
    (subst P e h.0, All-Rearranged P l m d h.1)
All-Rearranged P _ _ (Permᴰ.swap e f) h = (subst P f h.1.0, (subst P e h.0, h.1.1))
All-Rearranged P _ _ (Permᴰ.trans {l₁ = l} {l₂ = m} {l₃ = n} d k) h =
    All-Rearranged P m n k (All-Rearranged P l m d h)

swapped-Distinct :
    (a b : FileEntry) (l : List FileEntry) → Distinct (a ∷ b ∷ l) → Distinct (b ∷ a ∷ l)
swapped-Distinct a b l h = ((text_eq_comm b.name a.name ∙ h.0.0, h.1.0), (h.0.1, h.1.1))

Distinct-Rearranged : (xs ys : List FileEntry) → Rearranged xs ys → Distinct xs → Distinct ys
Distinct-Rearranged _ _ Permᴰ.nil h = tt
Distinct-Rearranged _ _ (Permᴰ.cons {a = a} {b = b} {l₁ = l} {l₂ = m} e d) h = (
  subst (λ x. HasNewName x m) e (All-Rearranged (λ x. text_eq a.name x.name ≡ false) l m d h.0),
  Distinct-Rearranged l m d h.1,
)
Distinct-Rearranged _ _ (Permᴰ.swap {a = a} {b = b} {a' = c} {l = l} e f) h =
    subst (λ y. Distinct (c ∷ y ∷ l)) e
      (subst (λ x. Distinct (x ∷ a ∷ l)) f (swapped-Distinct a b l h))
Distinct-Rearranged _ _ (Permᴰ.trans {l₁ = l} {l₂ = m} {l₃ = n} d k) h =
    Distinct-Rearranged m n k (Distinct-Rearranged l m d h)

sort_entries-same :
    (xs ys : List FileEntry) → Distinct xs → Rearranged xs ys → sort_entries xs ≡ sort_entries ys
unfolding sort_entries
sort_entries-same _ _ h Permᴰ.nil = refl
sort_entries-same _ _ h (Permᴰ.cons {a = a} {l₁ = l} {l₂ = m} e d) =
    ap (insert_entry a) (sort_entries-same l m h.1 d) ∙ ap (λ x. insert_entry x (sort_entries m)) e
sort_entries-same _ _ h (Permᴰ.swap {a = a} {b = b} {a' = c} {l = l} e f) =
    insert_entry-swap a b (sort_entries l) h.0.0
    ∙ (ap (λ x. insert_entry x (insert_entry a (sort_entries l))) f
        ∙ ap (λ y. insert_entry c (insert_entry y (sort_entries l))) e)
sort_entries-same _ _ h (Permᴰ.trans {l₁ = l} {l₂ = m} {l₃ = n} d k) =
    sort_entries-same l m h d ∙ sort_entries-same m n (Distinct-Rearranged l m d h) k

-- In whatever order a directory lists its entries, if their names differ: SortEntries makes one listing
-- of them, with the same entries, in which none comes before one that stands over it.
pub listing_shown :
    (xs ys : List FileEntry)
    → Distinct xs
    → Rearranged xs ys
    → (sort_entries ys ≡ sort_entries xs)
      × Rearranged xs (sort_entries xs)
      × InOrder (sort_entries xs)
listing_shown xs ys h p =
    (sym (sort_entries-same xs ys h p), sort_entries-Rearranged xs, sort_entries-InOrder xs)
