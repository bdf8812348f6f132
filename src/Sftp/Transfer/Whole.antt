-- ===== src/Sftp/Transfer/Whole.antt =====
-- A copy that reports success is whole, and a copy comes to an end.
use tui_ssh_client.Prelude.{
  ◌≡◌, ◌≢◌, refl, sym, ◌∙◌, ap, Bool, true, false, List, [], ◌∷◌, ◌++◌, Option, none, some,
  append_assoc, append-nil, All,
}
use tui_ssh_client.Sftp.Transfer.{
  Stop, Failure, ReadEnd, more, eof, broken, Round, Copy, Outcome, over, waiting, feed,
  write_result, after_read, after_write, go_on, copy_round, copy_ctx,
}
use tui_ssh_client.Sftp.Transfer.Counting.{content, IsHonest, feed-whole}

-- A copy that reports no error has written all that the reader has.
pub copy_ctx-whole :
    (rs : List Round) (c : Copy)
    → All IsHonest rs
    → (copy_ctx rs c).1 ≡ over none
    → (copy_ctx rs c).0.written ≡ c.written ++ content rs
unfolding copy_ctx copy_round after_write after_read go_on
copy_ctx-whole [] c h e = absurd (cc)
copy_ctx-whole (r ∷ rs) c h e = go (copy_ctx-whole rs (feed r c) h.1) r.stop e
  where
    Ends : ReadEnd → Copy × Outcome → Type 0
    Ends x y =
        y.1 ≡ over none
        → y.0.written ≡ c.written ++ (r.chunk ++ elim x [ more ↦ content rs | _ ↦ [] ])

    full : write_result r ≡ none → (feed r c).written ≡ c.written ++ r.chunk
    full w =
        let (m, none_left) = feed-whole r c h.0 w in
        m.written
        ∙ ap (λ t. c.written ++ t)
            (sym (m.whole ∙ (ap (λ t. m.new ++ t) none_left ∙ append-nil m.new)))

    on :
        ((copy_ctx rs (feed r c)).1 ≡ over none
          → (copy_ctx rs (feed r c)).0.written ≡ (feed r c).written ++ content rs)
        → (x : ReadEnd) (w : Option Failure) → write_result r ≡ w
        → Ends x (go_on (after_write w x) (feed r c) (copy_ctx rs (feed r c)))
    on later more none w e =
        later e ∙ (ap (λ t. t ++ content rs) (full w) ∙ append_assoc c.written r.chunk (content rs))
    on later eof none w e = (full w ∙ ap (λ t. c.written ++ t) (sym (append-nil r.chunk)))
    on later (broken t) none w e = absurd (cc)
    on later x (some f) w e = absurd (cc)

    go :
        ((copy_ctx rs (feed r c)).1 ≡ over none
          → (copy_ctx rs (feed r c)).0.written ≡ (feed r c).written ++ content rs)
        → (s : Option Stop) → Ends r.end (copy_round s r c (copy_ctx rs (feed r c)))
    go later (some s) e = absurd (cc)
    go later none e = on later r.end (write_result r) refl e

-- Whether the reader ends in one of the rounds.
abbrev pub ends : List Round → Bool
ends [] = false
ends (r ∷ rs) = let rest = ends rs in elim r.end [ more ↦ rest | _ ↦ true ]

-- The loop is over if the reader ends in one of the rounds.
pub copy_ctx-returns : (rs : List Round) (c : Copy) → ends rs ≡ true → (copy_ctx rs c).1 ≢ waiting
unfolding copy_ctx copy_round after_write after_read go_on
copy_ctx-returns [] c h e = absurd (cc)
copy_ctx-returns (r ∷ rs) c h e = go (copy_ctx-returns rs (feed r c)) r.stop e
  where
    on :
        (ends rs ≡ true → (copy_ctx rs (feed r c)).1 ≢ waiting)
        → (x : ReadEnd) (w : Option Failure) → r.end ≡ x
        → (go_on (after_write w x) (feed r c) (copy_ctx rs (feed r c))).1 ≢ waiting
    on later more none q = later (rw q at h)
    on later eof none q = λ e. cc
    on later (broken t) none q = λ e. cc
    on later x (some f) q = λ e. cc

    go :
        (ends rs ≡ true → (copy_ctx rs (feed r c)).1 ≢ waiting)
        → (s : Option Stop) → (copy_round s r c (copy_ctx rs (feed r c))).1 ≢ waiting
    go later (some s) = λ e. cc
    go later none = on later r.end (write_result r) refl
