-- ===== src/Config/Bundle/Grown.antt =====
-- How merging lines into known_hosts changes its state: nothing that is trusted changes, lines are added.
use tui_ssh_client.Prelude.{
  ◌+◌, ◌≡◌, refl, sym, ◌∙◌, ap, inl, inr, false, List, [], ◌∷◌, ◌++◌, some, map, arith,
  append_assoc, append-nil, length, All, All-mono, All-append, length-append, Bool-cases,
  Option-cases,
}
use tui_ssh_client.Prelude.Text.{Text, text_eq, text_eq_iff, text_eq_refl}
use tui_ssh_client.Prelude.Words.{has}
use tui_ssh_client.Prelude.Dict.{Dict, lookup, insert, lookup-insert}
use tui_ssh_client.Config.Bundle.{
  HostLine, keys, Merge, trust, index, conflicting, merge_line, merge_lines,
}

-- What was trusted is trusted still, under the same key.
abbrev pub Extends : Dict Text → Dict Text → Type 0
Extends a b = (k v : Text) → lookup k a ≡ some v → lookup k b ≡ some v

-- Every identity of the line is trusted under the line's own key.
abbrev pub Agrees : Dict Text → HostLine → Type 0
Agrees have l = All (λ k. lookup k have ≡ some l.key) (keys l)

differs-not :
    (have : Dict Text) (key k : Text) (ks : List Text)
    → conflicting have key (k ∷ ks) ≡ false
    → ((v : Text) → lookup k have ≡ some v → v ≡ key) × (conflicting have key ks ≡ false)
unfolding conflicting
differs-not have key k ks c = elim (Option-cases (lookup k have)) [
  | inl e ↦ ((λ v f. absurd (cc)), rw e at c)
  | inr (w, e) ↦ ground (arith, text_eq_iff w key)
]

conflicting-insert :
    (have : Dict Text) (key j : Text) (ks : List Text)
    → conflicting have key ks ≡ false
    → conflicting (insert j key have) key ks ≡ false
unfolding conflicting
conflicting-insert have key j [] c = refl
conflicting-insert have key j (k ∷ ks) c =
    ground (arith, lookup-insert j k key have, text_eq_refl key, conflicting-insert have key j ks)

-- A key more, which disagrees with none that is trusted.
insert-Extends :
    (have : Dict Text) (j key : Text)
    → ((v : Text) → lookup j have ≡ some v → v ≡ key)
    → Extends have (insert j key have)
insert-Extends have j key own k v e = elim (Bool-cases (text_eq j k)) [
  | inl h ↦
      let same : j ≡ k = (text_eq_iff j k).0 h in
      let old : v ≡ key = own v (rw same e) in
      rw (lookup-insert j k key have, h) (ground (arith, old))
  | inr h ↦ rw (lookup-insert j k key have, h) e
]

pub trust-Extends :
    (key : Text) (ks : List Text) (have : Dict Text)
    → conflicting have key ks ≡ false
    → Extends have (trust key ks have)
unfolding trust
trust-Extends key [] have c k v e = e
trust-Extends key (j ∷ ks) have c k v e =
    let (own, rest) = differs-not have key j ks c in
    trust-Extends key ks (insert j key have) (conflicting-insert have key j ks rest) k v
      (insert-Extends have j key own k v e)

trust-Agrees :
    (key : Text) (ks : List Text) (have : Dict Text)
    → conflicting have key ks ≡ false
    → All (λ k. lookup k (trust key ks have) ≡ some key) ks
unfolding trust
trust-Agrees key [] have c = tt
trust-Agrees key (j ∷ ks) have c =
    let rest = conflicting-insert have key j ks (differs-not have key j ks c).1 in
    (
      trust-Extends key ks (insert j key have) rest j key
          (rw (lookup-insert j j key have, text_eq_refl j) refl),
      trust-Agrees key ks (insert j key have) rest,
    )

-- Some of the lines, in their order.
pub data IsPart : List HostLine → List HostLine → Type 0 where
  no_lines : IsPart [] []
  left_out : {xs ys : List HostLine} (l : HostLine) → IsPart xs ys → IsPart xs (l ∷ ys)
  taken : {xs ys : List HostLine} (l : HostLine) → IsPart xs ys → IsPart (l ∷ xs) (l ∷ ys)

IsPart-append :
    {xs ys us vs : List HostLine} → IsPart xs ys → IsPart us vs → IsPart (xs ++ us) (ys ++ vs)
IsPart-append no_lines q = q
IsPart-append (left_out l p) q = left_out l (IsPart-append p q)
IsPart-append (taken l p) q = taken l (IsPart-append p q)

-- The lines that were added since, which are some of those that came, and what they did to the state.
pub record Grown (came : List HostLine) (m n : Merge) : Type 0 where
  pub lines : List HostLine
  pub part : IsPart lines came
  pub written : n.out ≡ m.out ++ map (λ l. l.raw) lines
  pub counted : n.added ≡ m.added + length lines
  pub kept : n.kept ≡ m.kept
  pub extends : Extends m.have n.have
  pub agree : All (Agrees n.have) lines
  pub index_have : (index lines m).have ≡ n.have
  pub index_seen : (index lines m).seen ≡ n.seen

agree-later :
    (a b : Dict Text) (ls : List HostLine) → Extends a b → All (Agrees a) ls → All (Agrees b) ls
agree-later a b ls x h =
    All-mono (Agrees a) (Agrees b) ls
      (λ l p.
        All-mono (λ k. lookup k a ≡ some l.key) (λ k. lookup k b ≡ some l.key) (keys l)
          (λ k e. x k l.key e) p)
      h

none_taken : (ls : List HostLine) → IsPart [] ls
none_taken [] = no_lines
none_taken (l ∷ ls) = left_out l (none_taken ls)

same-Grown : (came : List HostLine) (m : Merge) → Grown came m m
unfolding index
same-Grown came m = record {
  lines = [];
  part = none_taken came;
  written = sym (append-nil m.out);
  counted = omega arith;
  kept = refl;
  extends = λ k v e. e;
  agree = tt;
  index_have = refl;
  index_seen = refl;
}

pub merge_line-Grown : (l : HostLine) (m : Merge) → Grown (l ∷ []) m (merge_line l m)
unfolding merge_line index
merge_line-Grown l m = elim (Bool-cases (has l.raw m.seen)) [
  | inl h ↦ rw h (same-Grown (l ∷ []) m)
  | inr h ↦ rw h (elim (Bool-cases (conflicting m.have l.key (keys l))) [
    | inl c ↦ rw c (record {
      lines = [];
      part = none_taken (l ∷ []);
      written = sym (append-nil m.out);
      counted = omega arith;
      kept = refl;
      extends = λ k v e. e;
      agree = tt;
      index_have = refl;
      index_seen = refl;
    })
    | inr c ↦ rw c (record {
      lines = l ∷ [];
      part = taken l no_lines;
      written = refl;
      counted = omega arith;
      kept = refl;
      extends = trust-Extends l.key (keys l) m.have c;
      agree = (trust-Agrees l.key (keys l) m.have c, tt);
      index_have = refl;
      index_seen = refl;
    })
  ])
]

pub some_eq : (v w : Text) → some v ≡ some w → v ≡ w
some_eq v w e = ground arith

pub map-append :
    (ls us : List HostLine)
    → map (λ l. l.raw) (ls ++ us) ≡ map (λ l. l.raw) ls ++ map (λ l. l.raw) us
map-append [] us = refl
map-append (l ∷ ls) us = ap (λ t. l.raw ∷ t) (map-append ls us)

pub index-append : (ls us : List HostLine) (m : Merge) → index (ls ++ us) m ≡ index us (index ls m)
unfolding index
index-append [] us m = refl
index-append (l ∷ ls) us m = index-append ls us _

-- The index of lines depends on no more of the state than the index.
pub index-cong :
    (ls : List HostLine) (m n : Merge)
    → m.have ≡ n.have
    → m.seen ≡ n.seen
    → ((index ls m).have ≡ (index ls n).have) × ((index ls m).seen ≡ (index ls n).seen)
unfolding index
index-cong [] m n e f = (e, f)
index-cong (l ∷ ls) m n e f =
    index-cong ls _ _ (ap (trust l.key (keys l)) e) (ap (λ t. l.raw ∷ t) f)

then-Grown :
    (came more : List HostLine) (m n o : Merge)
    → Grown came m n
    → Grown more n o
    → Grown (came ++ more) m o
then-Grown came more m n o g h = record {
  lines = g.lines ++ h.lines;
  part = IsPart-append g.part h.part;
  written =
      h.written
      ∙ (ap (λ t. t ++ map (λ l. l.raw) h.lines) g.written
          ∙ (append_assoc m.out _ _ ∙ ap (λ t. m.out ++ t) (sym (map-append g.lines h.lines))));
  counted = omega (arith, g.counted, h.counted, length-append g.lines h.lines);
  kept = h.kept ∙ g.kept;
  extends = λ k v e. h.extends k v (g.extends k v e);
  agree =
      All-append (Agrees o.have) g.lines h.lines
        (agree-later n.have o.have g.lines h.extends g.agree) h.agree;
  index_have =
      ap (λ x. x.have) (index-append g.lines h.lines m)
      ∙ ((index-cong h.lines (index g.lines m) n g.index_have g.index_seen).0 ∙ h.index_have);
  index_seen =
      ap (λ x. x.seen) (index-append g.lines h.lines m)
      ∙ ((index-cong h.lines (index g.lines m) n g.index_have g.index_seen).1 ∙ h.index_seen);
}

pub merge_lines-Grown : (ls : List HostLine) (m : Merge) → Grown ls m (merge_lines ls m)
unfolding merge_lines
merge_lines-Grown [] m = same-Grown [] m
merge_lines-Grown (l ∷ ls) m =
    then-Grown (l ∷ []) ls m (merge_line l m) _ (merge_line-Grown l m)
      (merge_lines-Grown ls (merge_line l m))
