-- ===== src/Ui/Tabs/Find.antt =====
-- What tabByGen finds.
use tui_ssh_client.Prelude.{
  ℕ, zero, suc, ◌≤◌, ◌<◌, ◌≡◌, refl, List, [], ◌∷◌, Option, none, some, arith, ◌==◌, length,
  get_elem?, inl, inr, Bool-cases,
}
use tui_ssh_client.Ui.State.{Tab, find_gen, shift}
use tui_ssh_client.Ui.Tabs.Tally.{tally, tally-pos}
use tui_ssh_client.Ui.Tabs.Invariant.{tab_gen}

pub get_elem?-lt-length {ℓ} :
    {A : Type ℓ} (xs : List A) (i : ℕ) (x : A) → get_elem? xs i ≡ some x → i < length xs
get_elem?-lt-length [] i x e = absurd (cc)
get_elem?-lt-length (y ∷ xs) zero x e = omega arith
get_elem?-lt-length (y ∷ xs) (suc i) x e = omega (arith, get_elem?-lt-length xs i x e)

shift_cases :
    (o : Option (ℕ × Tab)) (i : ℕ) (t : Tab)
    → shift o ≡ some (i, t)
    → (j : ℕ) × (i ≡ suc j) × (o ≡ some (j, t))
shift_cases none i t e = absurd (cc)
shift_cases (some (j, u)) i t e = (j, ground arith, ground arith)

-- A tab that is found is in the strip at that place, and has the generation.
pub find_gen_found :
    (g : ℕ) (ts : List Tab) (i : ℕ) (t : Tab)
    → find_gen g ts ≡ some (i, t)
    → (get_elem? ts i ≡ some t) × (t.gen ≡ g)
unfolding find_gen
find_gen_found g [] i t e = absurd (cc)
find_gen_found g (u ∷ ts) i t e = elim (Bool-cases (u.gen == g)) [
  | inl h ↦ ground arith
  | inr h ↦
      let (j, p, q) = shift_cases (find_gen g ts) i t (rw h at e) in
      rw p (find_gen_found g ts j t q)
]

-- A tab of the strip is found by its generation, if no other has that.
pub find_gen_unique :
    (g : ℕ) (ts : List Tab) (i : ℕ) (t : Tab)
    → get_elem? ts i ≡ some t
    → t.gen ≡ g
    → tally tab_gen g ts ≤ 1
    → find_gen g ts ≡ some (i, t)
unfolding find_gen
find_gen_unique g [] i t e h u = absurd (cc)
find_gen_unique g (v ∷ ts) zero t e h u = ground arith
find_gen_unique g (v ∷ ts) (suc i) t e h u =
    ground (arith, find_gen_unique g ts i t e h, tally-pos tab_gen g ts i t e h)

pub find_gen-none : (g : ℕ) (ts : List Tab) → tally tab_gen g ts ≡ 0 → find_gen g ts ≡ none
unfolding find_gen
find_gen-none g [] u = refl
find_gen-none g (v ∷ ts) u = ground (arith, find_gen-none g ts)
