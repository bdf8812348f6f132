-- ===== src/Config/Writes.antt =====
-- An operation of internal/config that changes several files, one after the other, and returns at the
-- first error: Migrate of migrate.go and ApplyBundle of bundle.go.
use tui_ssh_client.Prelude.{◌≡◌, refl, sym, ap, ◌∙◌, List, ◌∷◌, Option, none, some}

-- The files as they are and as they were before each change, the last first, with the report, the
-- secrets in memory and the error.
pub record Writes (D R S E : Type 0) : Type 0 where
  pub now : D
  pub past : List D
  pub report : R
  pub secrets : S
  pub err : Option E

module _ {D R S E : Type 0} where
  unfoldable pub become : D → Writes D R S E → Writes D R S E
  become d r = record r { now = d; past = r.now ∷ r.past }

  unfoldable pub stop : E → Writes D R S E → Writes D R S E
  stop e r = record r { err = some e }

  abbrev pub go_on : Option E → Writes D R S E → (Writes D R S E → Writes D R S E) → Writes D R S E
  go_on none r f = f r
  go_on (some e) r f = r

  -- if err != nil { return }
  unfoldable pub and_then : Writes D R S E → (Writes D R S E → Writes D R S E) → Writes D R S E
  and_then r f = go_on r.err r f

  -- Everything that the files were while the operation ran, the last first.
  abbrev pub states : Writes D R S E → List D
  states r = r.now ∷ r.past

  pub and_then-kept :
      (P : Writes D R S E → Type 0) (r : Writes D R S E) (f : Writes D R S E → Writes D R S E)
      → P r
      → (r.err ≡ none → P (f r))
      → P (and_then r f)
  unfolding and_then
  and_then-kept P r f p k = helper r.err refl
    where
      helper : (e : Option E) → r.err ≡ e → P (go_on e r f)
      helper none q = k q
      helper (some x) q = p

  -- Going on has succeeded only if what came before has.
  pub and_then-none :
      (r : Writes D R S E) (f : Writes D R S E → Writes D R S E)
      → (and_then r f).err ≡ none
      → (r.err ≡ none) × (and_then r f ≡ f r)
  unfolding and_then
  and_then-none r f = helper r.err refl
    where
      helper :
          (e : Option E)
          → r.err ≡ e
          → (go_on e r f).err ≡ none
          → (r.err ≡ none) × (go_on e r f ≡ f r)
      helper none q h = (q, refl)
      helper (some x) q h = absurd (cc)

  -- The same of three in a row.
  pub and_then-both :
      (r : Writes D R S E) (f g : Writes D R S E → Writes D R S E)
      → (and_then r (λ x. and_then (f x) g)).err ≡ none
      → (r.err ≡ none) × ((f r).err ≡ none) × (and_then r (λ x. and_then (f x) g) ≡ g (f r))
  and_then-both r f g e =
      let q = and_then-none r (λ x. and_then (f x) g) e in
      let p = and_then-none (f r) g (ap (λ x. x.err) (sym q.1) ∙ e) in (q.0, p.0, q.1 ∙ p.1)
