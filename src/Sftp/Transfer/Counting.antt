-- ===== src/Sftp/Transfer/Counting.antt =====
-- What the copy loop writes, counts and returns.
use tui_ssh_client.Prelude.{
  ℕ, ◌+◌, ◌≤◌, ◌≡◌, refl, sym, ◌∙◌, ap, inl, inr, List, [], ◌∷◌, ◌++◌, Option, none, some, arith,
  length, length-append, take, drop, take-drop, drop-length, length-take, append_assoc, append-nil,
  All, Option-cases,
}
use tui_ssh_client.Prelude.Text.{Text}
use tui_ssh_client.Sftp.Transfer.{
  Stop, Failure, ReadEnd, more, eof, broken, Round, Progress, add, Copy, receive, write_error, feed,
  feed_of, write_result, write_result_of, after_read, after_write, go_on, copy_round, copy_ctx,
}

-- What the reader has: the chunks up to the round in which it ends.
abbrev pub content : List Round → Text
content [] = []
content (r ∷ rs) = r.chunk ++ elim r.end [ more ↦ content rs | _ ↦ [] ]

-- io.Writer: no more is taken than was given.
abbrev pub IsHonest : Round → Type 0
IsHonest r = r.took ≤ length r.chunk

add_nothing : (p : Option Progress) → add 0 p ≡ p
unfolding add
add_nothing none = refl
add_nothing (some p) = ap (λ n. some (record p { done = n })) (omega arith)

add_twice : (m n : ℕ) (p : Option Progress) → add n (add m p) ≡ add (m + n) p
unfolding add
add_twice m n none = refl
add_twice m n (some p) = ap (λ k. some (record p { done = k })) (omega arith)

-- What came to the destination between two states of the loop, out of `all` that was to come.
pub record Moved (c d : Copy) (all : Text) : Type 0 where
  pub new : Text
  pub rest : Text
  pub written : d.written ≡ c.written ++ new
  pub whole : all ≡ new ++ rest
  pub total : d.total ≡ c.total + length new
  pub progress : d.progress ≡ add (length new) c.progress

nothing_moved : (c : Copy) (all : Text) → Moved c c all
nothing_moved c all = record {
  new = [];
  rest = all;
  written = sym (append-nil c.written);
  whole = refl;
  total = omega arith;
  progress = sym (add_nothing c.progress);
}

receive-Moved : (r : Round) (c : Copy) → IsHonest r → Moved c (receive r c) r.chunk
receive-Moved r c h = record {
  new = take r.took r.chunk;
  rest = drop r.took r.chunk;
  written = refl;
  whole = sym (take-drop r.took r.chunk);
  total = ap (λ n. c.total + n) (sym (length-take r.took r.chunk h));
  progress = ap (λ n. add n c.progress) (sym (length-take r.took r.chunk h));
}

feed-Moved : (r : Round) (c : Copy) → IsHonest r → Moved c (feed r c) r.chunk
unfolding feed feed_of
feed-Moved r c h = go r.chunk refl
  where
    go : (t : Text) → r.chunk ≡ t → Moved c (feed_of t r c) r.chunk
    go [] e = nothing_moved c r.chunk
    go (b ∷ bs) e = receive-Moved r c h

write_error-none : (r : Round) → write_error r ≡ none → r.took ≡ length r.chunk
unfolding write_error
write_error-none r e = elim (Option-cases r.write_err) [
  | inl w ↦ ground (arith, w, e)
  | inr (x, w) ↦ absurd (ground (arith, w, e))
]

-- Where the loop goes on to look at the read error, the whole chunk was written.
pub feed-whole :
    (r : Round) (c : Copy)
    → IsHonest r
    → write_result r ≡ none
    → (m : Moved c (feed r c) r.chunk) × (m.rest ≡ [])
unfolding feed write_result feed_of write_result_of nothing_moved receive-Moved
feed-whole r c h = go r.chunk refl
  where
    go :
        (t : Text)
        → r.chunk ≡ t
        → write_result_of t r ≡ none
        → (m : Moved c (feed_of t r c) r.chunk) × (m.rest ≡ [])
    go [] e w = (nothing_moved c r.chunk, e)
    go (b ∷ bs) e w =
        (receive-Moved r c h, ap (λ n. drop n r.chunk) (write_error-none r w) ∙ drop-length r.chunk)

then-Moved :
    (c d e : Copy) (chunk rest : Text)
    → (m : Moved c d chunk) → m.rest ≡ []
    → Moved d e rest
    → Moved c e (chunk ++ rest)
then-Moved c d e chunk rest m full n = record {
  new = m.new ++ n.new;
  rest = n.rest;
  written = n.written ∙ (ap (λ t. t ++ n.new) m.written ∙ append_assoc c.written m.new n.new);
  whole =
      ap (λ t. t ++ rest) (m.whole ∙ (ap (λ t. m.new ++ t) full ∙ append-nil m.new))
      ∙ (ap (λ t. m.new ++ t) n.whole ∙ sym (append_assoc m.new n.new n.rest));
  total = omega (arith, m.total, n.total, length-append m.new n.new);
  progress =
      n.progress
      ∙ (ap (add (length n.new)) m.progress
          ∙ (add_twice (length m.new) (length n.new) c.progress
              ∙ ap (λ k. add k c.progress) (sym (length-append m.new n.new))));
}

feed-part :
    (r : Round) (c : Copy) (more_to_come : Text)
    → IsHonest r
    → Moved c (feed r c) (r.chunk ++ more_to_come)
feed-part r c later h =
    let m = feed-Moved r c h in
    record {
      new = m.new;
      rest = m.rest ++ later;
      written = m.written;
      whole = ap (λ t. t ++ later) m.whole ∙ append_assoc m.new m.rest later;
      total = m.total;
      progress = m.progress;
    }

-- With a writer that takes no more than it is given, and whatever else the rounds answer: what the
-- destination received is a prefix of what the reader has, the count that is returned has gone up by
-- its length, and so has the progress counter, if there is one.
pub copy_ctx-Moved :
    (rs : List Round) (c : Copy) → All IsHonest rs → Moved c (copy_ctx rs c).0 (content rs)
unfolding copy_ctx copy_round after_write after_read go_on
copy_ctx-Moved [] c h = nothing_moved c []
copy_ctx-Moved (r ∷ rs) c h = go (copy_ctx-Moved rs (feed r c) h.1) r.stop
  where
    rounds : Option Failure → ReadEnd → Type 0
    rounds w e =
        Moved c (go_on (after_write w e) (feed r c) (copy_ctx rs (feed r c))).0
          (r.chunk ++ elim e [ more ↦ content rs | _ ↦ [] ])

    on :
        Moved (feed r c) (copy_ctx rs (feed r c)).0 (content rs)
        → (e : ReadEnd) (w : Option Failure) → write_result r ≡ w
        → rounds w e
    on later more none w =
        let (m, full) = feed-whole r c h.0 w in
        then-Moved c (feed r c) _ r.chunk (content rs) m full later
    on later eof none w = feed-part r c [] h.0
    on later (broken t) none w = feed-part r c [] h.0
    on later e (some f) w = feed-part r c _ h.0

    go :
        Moved (feed r c) (copy_ctx rs (feed r c)).0 (content rs)
        → (s : Option Stop)
        → Moved c (copy_round s r c (copy_ctx rs (feed r c))).0 (content (r ∷ rs))
    go later (some s) = nothing_moved c _
    go later none = on later r.end (write_result r) refl
