-- ===== src/Ui/Tabs/Tally.antt =====
-- How often a number is the slot, or the generation, of an entry of a list.
use tui_ssh_client.Prelude.{
  ℕ, zero, suc, ◌+◌, ◌<◌, ◌≡◌, Bool, true, false, List, [], ◌∷◌, ◌++◌, some, arith, ◌==◌, get_elem?,
  set, remove_at,
}

abbrev pub hit : Bool → ℕ
hit true = 1
hit false = 0

module _ {ℓ} {A : Type ℓ} (f : A → ℕ) (k : ℕ) where
  abbrev pub tally : List A → ℕ
  tally [] = 0
  tally (x ∷ xs) = hit (f x == k) + tally xs

  pub tally-append : (xs ys : List A) → tally (xs ++ ys) ≡ tally xs + tally ys
  tally-append [] ys = omega arith
  tally-append (x ∷ xs) ys = omega (arith, tally-append xs ys)

  pub tally-set :
      (xs : List A) (i : ℕ) (x v : A)
      → get_elem? xs i ≡ some x
      → tally (set xs i v) + hit (f x == k) ≡ tally xs + hit (f v == k)
  tally-set [] i x v e = absurd (cc)
  tally-set (y ∷ xs) zero x v e = ground arith
  tally-set (y ∷ xs) (suc i) x v e = omega (arith, tally-set xs i x v e)

  pub tally-remove_at :
      (xs : List A) (i : ℕ) (x : A)
      → get_elem? xs i ≡ some x
      → tally (remove_at i xs) + hit (f x == k) ≡ tally xs
  tally-remove_at [] i x e = absurd (cc)
  tally-remove_at (y ∷ xs) zero x e = ground arith
  tally-remove_at (y ∷ xs) (suc i) x e = omega (arith, tally-remove_at xs i x e)

  -- An entry that is there counts.
  pub tally-pos : (xs : List A) (i : ℕ) (x : A) → get_elem? xs i ≡ some x → f x ≡ k → 0 < tally xs
  tally-pos [] i x e h = absurd (cc)
  tally-pos (y ∷ xs) zero x e h = ground arith
  tally-pos (y ∷ xs) (suc i) x e h = omega (arith, tally-pos xs i x e h)
