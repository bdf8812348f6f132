-- ===== src/Model/Entries/Order.antt =====
-- The order of SortEntries is one: of two names exactly one comes first, and nothing lies between.
use tui_ssh_client.Prelude.{
  ◌≡◌, if◌then◌else◌, refl, ap, inl, inr, ◌⊎◌, Bool, true, false, [], ◌∷◌, arith, Bool-cases,
}
use tui_ssh_client.Prelude.Text.{Text, text_eq, text_lt, to_lower, text_eq_iff}
use tui_ssh_client.Sftp.Tree.{FileEntry}
use tui_ssh_client.Model.Entries.{entry_less}

text_lt-asym : (s t : Text) → text_lt s t ≡ true → text_lt t s ≡ false
unfolding text_lt
text_lt-asym [] [] h = absurd (cc)
text_lt-asym [] (d ∷ t) h = refl
text_lt-asym (c ∷ s) [] h = absurd (cc)
text_lt-asym (c ∷ s) (d ∷ t) h = ground (arith, text_lt-asym s t)

text_lt-total : (s t : Text) → text_eq s t ≡ false → (text_lt s t ≡ true) ⊎ (text_lt t s ≡ true)
unfolding text_lt text_eq
text_lt-total [] [] h = absurd (cc)
text_lt-total [] (d ∷ t) h = inl refl
text_lt-total (c ∷ s) [] h = inr refl
text_lt-total (c ∷ s) (d ∷ t) h = ground (arith, text_lt-total s t)

-- What lies between two texts is on one side of any third.
text_lt-splits : (s t u : Text) → text_lt s u ≡ true → (text_lt s t ≡ true) ⊎ (text_lt t u ≡ true)
unfolding text_lt
text_lt-splits [] t [] h = absurd (cc)
text_lt-splits [] [] (d ∷ u) h = inr refl
text_lt-splits [] (c ∷ t) (d ∷ u) h = inl refl
text_lt-splits (c ∷ s) t [] h = absurd (cc)
text_lt-splits (c ∷ s) [] (d ∷ u) h = inr refl
text_lt-splits (c ∷ s) (e ∷ t) (d ∷ u) h = ground (arith, text_lt-splits s t u)

pub text_eq_comm : (s t : Text) → text_eq s t ≡ text_eq t s
unfolding text_eq
text_eq_comm [] [] = refl
text_eq_comm [] (d ∷ t) = refl
text_eq_comm (c ∷ s) [] = refl
text_eq_comm (c ∷ s) (d ∷ t) = ground (arith, text_eq_comm s t)

same_order :
    (s t u : Text)
    → text_eq s t ≡ true
    → (text_eq s u ≡ text_eq t u)
      × (text_eq u s ≡ text_eq u t)
      × (text_lt s u ≡ text_lt t u)
      × (text_lt u s ≡ text_lt u t)
same_order s t u h =
    let e = (text_eq_iff s t).0 h in
    (
      ap (λ x. text_eq x u) e,
      ap (λ x. text_eq u x) e,
      ap (λ x. text_lt x u) e,
      ap (λ x. text_lt u x) e,
    )

pub entry_less-asym : (a b : FileEntry) → entry_less a b ≡ true → entry_less b a ≡ false
unfolding entry_less
entry_less-asym a b h = ground (
  arith,
  text_eq_comm (to_lower a.name) (to_lower b.name),
  text_lt-asym a.name b.name,
  text_lt-asym (to_lower a.name) (to_lower b.name),
)

pub entry_less-total :
    (a b : FileEntry)
    → text_eq a.name b.name ≡ false
    → (entry_less a b ≡ true) ⊎ (entry_less b a ≡ true)
unfolding entry_less
entry_less-total a b h = ground (
  arith,
  text_eq_comm (to_lower a.name) (to_lower b.name),
  text_lt-total a.name b.name,
  text_lt-total (to_lower a.name) (to_lower b.name),
)

-- By the lower-case names, then by the names.
by_lower_name : Text → Text → Text → Text → Bool
by_lower_name la a lb b = if text_eq la lb then text_lt a b else text_lt la lb

by_lower_name-splits :
    (la a lb b lc c : Text)
    → by_lower_name la a lc c ≡ true
    → (by_lower_name la a lb b ≡ true) ⊎ (by_lower_name lb b lc c ≡ true)
unfolding by_lower_name
by_lower_name-splits la a lb b lc c h = elim (Bool-cases (text_eq la lb)) [
  | inl e ↦ ground (arith, h, e, same_order la lb lc e, text_lt-splits a b c)
  | inr e ↦ elim (Bool-cases (text_eq lb lc)) [
    | inl f ↦ ground (arith, h, e, f, same_order lb lc la f, text_lt-splits a b c)
    | inr f ↦ elim (Bool-cases (text_eq la lc)) [
      | inl q ↦ ground (arith, h, e, f, q, same_order la lc lb q, text_lt-total la lb e)
      | inr q ↦ ground (arith, h, e, f, q, text_lt-splits la lb lc)
    ]
  ]
]

pub entry_less-splits :
    (a b c : FileEntry) → entry_less a c ≡ true → (entry_less a b ≡ true) ⊎ (entry_less b c ≡ true)
unfolding entry_less by_lower_name
entry_less-splits a b c h = ground (
  arith,
  by_lower_name-splits (to_lower a.name) a.name (to_lower b.name) b.name (to_lower c.name) c.name,
)
