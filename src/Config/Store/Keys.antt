-- ===== src/Config/Store/Keys.antt =====
-- The key files that removing an entry may delete.
use tui_ssh_client.Prelude.{
  ◌≡◌, refl, ◌∙◌, inl, inr, true, false, not, List, [], ◌∷◌, Option, none, some, filter_by, arith,
  Bool-cases, ◌++◌, append_assoc, ◌&&◌, ◌==◌, ◌⊎◌, ap,
}
use tui_ssh_client.Prelude.Text.{Text, codes, has_prefix, text_eq, text_eq_iff}
use tui_ssh_client.Prelude.Path.{join_path}
use tui_ssh_client.Prelude.Words.{has}
use tui_ssh_client.Model.Server.{Server}
use tui_ssh_client.Config.Store.{
  Disk, System, StoreError, Result, failed, ok, load, save, owns_key, inside, abs, last_of,
  drop_key, after_save, remove_in, remove,
}

has-filter :
    (k p : Text) (ks : List Text)
    → text_eq k p ≡ false
    → has k (filter_by (λ x. not (text_eq x p)) ks) ≡ has k ks
unfolding has
has-filter k p [] n = refl
has-filter k p (x ∷ ks) n =
    ground (arith, has-filter k p ks n, text_eq_iff x p, text_eq_iff x k, text_eq_iff k p)

drop_key-foreign :
    (y : System) (o : Option Server) (d : Disk) (k : Text)
    → owns_key y k ≡ false
    → has k (drop_key y o d).0.keys ≡ has k d.keys
unfolding drop_key
drop_key-foreign y none d k f = refl
drop_key-foreign y (some s) d k f = elim (Bool-cases (owns_key y s.key_path)) [
  | inr e ↦ rw e refl
  | inl e ↦ rw e (elim (Bool-cases y.remove) [
    | inr r ↦ rw r refl
    | inl r ↦ rw r (has-filter k s.key_path d.keys (other k s.key_path f e))
  ])
]
  where
    other : (a b : Text) → owns_key y a ≡ false → owns_key y b ≡ true → text_eq a b ≡ false
    other a b f e = elim (Bool-cases (text_eq a b)) [
      | inr n ↦ n
      | inl q ↦ let same : a ≡ b = (text_eq_iff a b).0 q in absurd (cc)
    ]

save-keys : (y : System) (ss : List Server) (d : Disk) → (save y ss d).0.keys ≡ d.keys
unfolding save
save-keys y ss d = ground arith

after_save-foreign :
    (y : System) (o : Option Server) (x : Disk × Option StoreError) (k : Text)
    → owns_key y k ≡ false
    → has k (after_save y o x).0.keys ≡ has k x.0.keys
unfolding after_save
after_save-foreign y o (d, some e) k f = refl
after_save-foreign y o (d, none) k f = drop_key-foreign y o d k f

remove_in-foreign :
    (y : System) (id : Text) (r : Result (List Server)) (d : Disk) (k : Text)
    → owns_key y k ≡ false
    → has k (remove_in y id r d).0.keys ≡ has k d.keys
unfolding remove_in
remove_in-foreign y id (failed e) d k f = refl
remove_in-foreign y id (ok ss) d k f =
    after_save-foreign y (last_of id ss) _ k f ∙ ap (has k) (save-keys y _ d)

-- The path is the directory itself, or a slash and more follow the directory in it.
abbrev pub IsIn : Text → Text → Type 0
IsIn dir p = (dir ≡ codes "/") ⊎ (p ≡ dir) ⊎ (rest : Text) × (p ≡ dir ++ (codes "/" ++ rest))

-- The store's directory of keys.
abbrev pub keys_dir : System → Text
keys_dir y = abs y (join_path y.dir (codes "keys"))

has_prefix-splits : (s p : Text) → has_prefix s p ≡ true → (rest : Text) × (s ≡ p ++ rest)
unfolding has_prefix
has_prefix-splits s [] h = (s, refl)
has_prefix-splits [] (d ∷ p) h = absurd (cc)
has_prefix-splits (c ∷ s) (d ∷ p) h =
    let (same, tail) = both h in
    let (rest, e) = has_prefix-splits s p tail in (rest, ap (λ x. x ∷ s) same ∙ ap (λ t. d ∷ t) e)
  where
    both : (c == d && has_prefix s p) ≡ true → (c ≡ d) × (has_prefix s p ≡ true)
    both h = ground (arith, h)

inside-IsIn : (dir p : Text) → inside dir p ≡ true → IsIn dir p
unfolding inside
inside-IsIn dir p h = elim (Bool-cases (text_eq dir (codes "/"))) [
  | inl e ↦ inl ((text_eq_iff dir (codes "/")).0 e)
  | inr e ↦ elim (Bool-cases (text_eq p dir)) [
    | inl f ↦ inr (inl ((text_eq_iff p dir).0 f))
    | inr f ↦
        let (rest, q) = has_prefix-splits p (dir ++ codes "/") (ground (arith, e, f, h)) in
        inr (inr (rest, q ∙ append_assoc dir (codes "/") rest))
  ]
]

not_owned : (y : System) (k : Text) → ¬ IsIn (keys_dir y) (abs y k) → owns_key y k ≡ false
unfolding owns_key
not_owned y k n = elim (Bool-cases (inside (keys_dir y) (abs y k))) [
  | inl e ↦ absurd (n (inside-IsIn (keys_dir y) (abs y k) e))
  | inr e ↦ ground (arith, e)
]

-- Removing an entry deletes no key file whose absolute path is not in the store's own directory of keys: it
-- is not that directory, and does not go on from it with a slash.
pub foreign_keys_stay :
    (y : System) (id : Text) (d : Disk) (k : Text)
    → ¬ IsIn (keys_dir y) (abs y k)
    → has k (remove y id d).0.keys ≡ has k d.keys
unfolding remove
foreign_keys_stay y id d k n = remove_in-foreign y id (load y d.servers) d k (not_owned y k n)
