-- ===== src/Sftp/Transfer/Left.antt =====
-- What Upload and Download leave at the destination.
use tui_ssh_client.Prelude.{
  ℕ, ◌≡◌, refl, ap, ◌⊎◌, inl, inr, Bool, true, false, not, Option, none, some, All, if◌then◌else◌,
  if-true, if-false, Bool-cases, ◌++◌, ◌∙◌, sym, [],
}
use tui_ssh_client.Prelude.Text.{Text}
use tui_ssh_client.Sftp.Transfer.{set_name, Failure, Progress, Copy, Outcome, over, waiting}
use tui_ssh_client.Sftp.Transfer.Counting.{IsHonest, content, copy_ctx-Moved}
use tui_ssh_client.Sftp.Transfer.Whole.{copy_ctx-whole}
use tui_ssh_client.Sftp.Transfer.Files.{
  Written, Answers, TransferError, not_found, not_a_file, not_opened, not_created, failed, Transfer,
  returned, running, refuse, first_err, finish, close, copy_into, upload, download,
}

-- After a failure: nothing, where Remove succeeds, else the first part of the content.
abbrev pub Removed : Answers → Option Written → Type 0
Removed a left =
    ((a.remove ≡ true) × (left ≡ none))
    ⊎ ((a.remove ≡ false)
        × (w : Written) × (rest : Text) × (left ≡ some w)
        × (content a.rounds ≡ w.bytes ++ rest))

-- A transfer that is over either succeeded and left the whole content; or failed in the copy, and
-- removed the file if it could; or was refused before the destination was touched.
abbrev pub Clean : Answers → Option Written → Transfer → Type 0
Clean a old running = Unit
Clean a old (returned t) =
    ((t.error ≡ none) × ((w : Written) × ((t.left ≡ some w) × (w.bytes ≡ content a.rounds))))
    ⊎ (((e : Failure) × ((t.error ≡ some (failed e)) × Removed a t.left))
        ⊎ ((e : TransferError) × ((t.error ≡ some e) × ((t.left ≡ old) × (t.count ≡ 0)))))

-- What was written so far is the first part of the content.
IsPartial : Answers → Text → Type 0
IsPartial a written = (rest : Text) × (content a.rounds ≡ written ++ rest)

finish-Clean :
    (a : Answers) (mode : Option ℕ) (old : Option Written) (c : Copy) (f : Option Failure)
    → (f ≡ none → c.written ≡ content a.rounds)
    → IsPartial a c.written
    → Clean a old (finish a mode c f)
unfolding finish IsPartial
finish-Clean a mode old c none whole part = inl (refl, (_, (refl, whole refl)))
finish-Clean a mode old c (some f) whole part = elim (Bool-cases a.remove) [
  | inl r ↦ inr (inl (f, (refl, inl (r, if-true a.remove none _ r))))
  | inr r ↦ inr (inl (f, (refl, inr (r, _, part.0, if-false a.remove none _ r, part.1))))
]

first_err-none : (o : Option Failure) (t : Option Text) → first_err o t ≡ none → o ≡ none
first_err-none none t e = refl
first_err-none (some f) t e = absurd (cc)

over_none : (o : Option Failure) → o ≡ none → over o ≡ over none
over_none o e = ap over e

close-Clean :
    (a : Answers) (mode : Option ℕ) (old : Option Written) (x : Copy × Outcome)
    → (x.1 ≡ over none → x.0.written ≡ content a.rounds)
    → IsPartial a x.0.written
    → Clean a old (close a mode x)
unfolding close
close-Clean a mode old (c, waiting) whole rm = tt
close-Clean a mode old (c, over e) whole rm =
    finish-Clean a mode old c (first_err e a.close_err)
      (λ q. whole (over_none e (first_err-none e a.close_err q))) rm

copy_into-Clean :
    (a : Answers) (mode : Option ℕ) (old : Option Written) (p : Option Progress)
    → All IsHonest a.rounds
    → Clean a old (copy_into a mode p)
unfolding copy_into IsPartial
copy_into-Clean a mode old p h =
    let start : Copy = record { total = 0; written = []; progress = set_name a.name p } in
    let m = copy_ctx-Moved a.rounds start h in
    close-Clean a mode old _ (copy_ctx-whole a.rounds _ h)
      (m.rest, m.whole ∙ ap (λ t. t ++ m.rest) (sym m.written))

refuse-Clean :
    (a : Answers) (old : Option Written) (p : Option Progress) (e : TransferError)
    → Clean a old (refuse e old p)
refuse-Clean a old p e = inr (inr (e, (refl, (refl, refl))))

-- With a writer that takes no more than it is given, an upload or a download that returns either reports no
-- error and leaves the whole content there; or reports an error of the copy or of Close, and leaves no file
-- if Remove succeeds, and if not, a file with the first part of the content; or is refused before it writes,
-- and leaves what was there.
pub transfer_leaves :
    (a : Answers) (old : Option Written) (p : Option Progress)
    → All IsHonest a.rounds
    → Clean a old (upload a old p) × Clean a old (download a old p)
unfolding upload download
transfer_leaves a old p h = (
  guard (not a.stat) not_found _ (guard (not a.regular) not_a_file _ (opening none)),
  guard (not a.stat) not_found _ (guard a.directory not_a_file _ (opening (some a.perm))),
)
  where
    guard :
        (b : Bool) (e : TransferError) (x : Transfer)
        → Clean a old x
        → Clean a old (if b then refuse e old p else x)
    guard true e x h = refuse-Clean a old p e
    guard false e x h = h

    opening :
        (mode : Option ℕ)
        → Clean a old (
            if not a.opened
            then refuse not_opened old p
            else if not a.created
            then refuse not_created old p
            else copy_into a mode p)
    opening mode =
        guard (not a.opened) not_opened _
          (guard (not a.created) not_created _ (copy_into-Clean a mode old p h))
