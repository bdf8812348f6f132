-- ===== src/Config/Store/RoundTrip.antt =====
-- What a write is read back as, and what a failed one leaves.
use tui_ssh_client.Prelude.{
  ◌≡◌, refl, sym, subst, ◌∙◌, ap, Bool, true, false, List, [], ◌∷◌, ◌++◌, Option, none, some, map,
  arith, if◌then◌else◌,
}
use tui_ssh_client.Prelude.Text.{Text, is_empty}
use tui_ssh_client.Model.Server.{Server}
use tui_ssh_client.Config.Store.Kept.{report-disk}
use tui_ssh_client.Config.Store.{
  ServersFile, holding, Disk, System, StoreError, no_id, Result, failed, ok, load, stored, save,
  completed, add_to, add, replace, save_replaced, update_in, update, with_port, report,
}

save-failed :
    (y : System) (ss : List Server) (d : Disk) (e : StoreError)
    → (save y ss d).1 ≡ some e
    → (save y ss d).0 ≡ d
unfolding save
save-failed y ss d e h = ground arith

save-ok :
    (y : System) (ss : List Server) (d : Disk)
    → (save y ss d).1 ≡ none
    → (save y ss d).0.servers ≡ holding (map stored ss)
unfolding save
save-ok y ss d h = ground arith

ok-inj : (a b : Server) → ok a ≡ ok b → a ≡ b
ok-inj a b e = ap (λ r. elim r [ ok c ↦ c | failed e ↦ a ]) e

report-ok :
    (a b : Server) (x : Disk × Option StoreError) → (report a x).1 ≡ ok b → (a ≡ b) × (x.1 ≡ none)
report-ok a b (d, none) h = (ok-inj a b h, refl)
report-ok a b (d, some e) h = absurd (cc)

map-append : (ss us : List Server) → map stored (ss ++ us) ≡ map stored ss ++ map stored us
map-append [] us = refl
map-append (s ∷ ss) us = ap (λ t. stored s ∷ t) (map-append ss us)

load-holding :
    (y : System) (f : ServersFile) (ss : List Server)
    → y.read ≡ true
    → f ≡ holding ss
    → load y f ≡ ok ss
unfolding load
load-holding y f ss r e = rw (e, r) refl

add_to-load :
    (y : System) (s new : Server) (ss : List Server) (d : Disk)
    → y.read ≡ true
    → (add_to y s (ok ss) d).1 ≡ ok new
    → (new ≡ s) × (load y (add_to y s (ok ss) d).0.servers ≡ ok (map stored ss ++ stored new ∷ []))
unfolding add_to
add_to-load y s new ss d r a =
    let (same, saved) = report-ok s new (save y (ss ++ s ∷ []) d) a in
    (
      sym same,
      load-holding y _ _ r (
          ap (λ x. x.servers) (report-disk s (save y (ss ++ s ∷ []) d))
          ∙ (save-ok y (ss ++ s ∷ []) d saved
              ∙ ap holding
                  (map-append ss (s ∷ []) ∙ ap (λ x. map stored ss ++ stored x ∷ []) same))),
    )

-- An entry that was added is read back at the end of the list, without its secrets and after the
-- entries that were there.
pub load-add :
    (y : System) (uuid : Text) (s new : Server) (ss : List Server) (d : Disk)
    → y.read ≡ true
    → load y d.servers ≡ ok ss
    → (add y uuid s d).1 ≡ ok new
    → (new ≡ completed uuid s)
      × (load y (add y uuid s d).0.servers ≡ ok (map stored ss ++ stored new ∷ []))
unfolding add
load-add y uuid s new ss d r l =
    subst
      (λ x.
        (add_to y (completed uuid s) x d).1 ≡ ok new
        → (new ≡ completed uuid s)
          × (load y (add_to y (completed uuid s) x d).0.servers
              ≡ ok (map stored ss ++ stored new ∷ [])))
      (sym l) (add_to-load y (completed uuid s) new ss d r)

save_replaced-failed :
    (y : System) (o : Option (List Server)) (d : Disk) (e : StoreError)
    → (save_replaced y o d).1 ≡ some e
    → (save_replaced y o d).0 ≡ d
unfolding save_replaced
save_replaced-failed y none d e h = refl
save_replaced-failed y (some ss) d e h = save-failed y ss d e h

update_in-failed :
    (y : System) (s : Server) (r : Result (List Server)) (d : Disk) (e : StoreError)
    → (update_in y s r d).1 ≡ some e
    → (update_in y s r d).0 ≡ d
unfolding update_in
update_in-failed y s (failed x) d e h = refl
update_in-failed y s (ok ss) d e h = save_replaced-failed y (replace s ss) d e h

-- An update that reports an error leaves the disk as it was, wherever it failed.
update_failed_keeps :
    (y : System) (s : Server) (d : Disk) (e : StoreError)
    → (update y s d).1 ≡ some e
    → (update y s d).0 ≡ d
unfolding update
update_failed_keeps y s d e = by_id (is_empty s.id)
  where
    by_id :
        (b : Bool)
        → (if b then (d, some no_id) else update_in y (with_port s) (load y d.servers) d).1 ≡ some e
        → (if b then (d, some no_id) else update_in y (with_port s) (load y d.servers) d).0 ≡ d
    by_id true h = refl
    by_id false h = update_in-failed y _ _ d e h
