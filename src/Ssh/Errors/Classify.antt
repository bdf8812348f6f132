-- ===== src/Ssh/Errors/Classify.antt =====
-- What classify answers: which causes it finds, and when it leaves an error as it is.
use tui_ssh_client.Prelude.{
  ℕ, zero, suc, ◌≡◌, refl, ◌⊎◌, inl, inr, Bool, true, false, ◌||◌, ◌++◌, Option, none, some, arith,
  Bool-cases,
}
use tui_ssh_client.Prelude.Text.{Text, codes, contains}
use tui_ssh_client.Ssh.Errors.{
  Sentinel, auth, unreachable, timeout, host_key_unknown, host_key_mismatch, sftp, Err, op, wrap,
  same, message, is, is_deadline, as_revoked, as_key_error, as_partial, as_dns, as_op, is_timeout,
  sentinels, is_any, tag, classify_net, classify_key, classify, dial_error,
}

-- An answer is the error itself, or the error under one of the sentinels that classify looks for.
abbrev Tagged : Err → Err → Type 0
Tagged e r = (r ≡ e) ⊎ ((s : Sentinel) × (same s sftp ≡ false) × (r ≡ tag e s))

classify_net-Tagged : (e : Err) → Tagged e (classify_net e)
unfolding classify_net
classify_net-Tagged e = elim (Bool-cases (is_timeout e || is_deadline e)) [
  | inl h ↦ rw h (inr (timeout, refl, refl))
  | inr h ↦ rw h (elim (Bool-cases (as_partial e)) [
    | inl p ↦ rw p (inr (auth, refl, refl))
    | inr p ↦
        rw p
          (elim (Bool-cases (
            contains (message e) (codes "unable to authenticate")
            || contains (message e) (codes "no supported methods remain"))) [
              | inl c ↦ rw c (inr (auth, refl, refl))
              | inr c ↦ rw c (elim (Bool-cases (as_dns e)) [
                | inl d ↦ rw d (inr (unreachable, refl, refl))
                | inr d ↦ rw d (elim (Bool-cases (as_op e)) [
                  | inl o ↦ rw o (inr (unreachable, refl, refl))
                  | inr o ↦ rw o (inl refl)
                ])
              ])
            ])
  ])
]

classify_key-Tagged : (o : Option ℕ) (e : Err) → Tagged e (classify_key o e)
classify_key-Tagged none e = classify_net-Tagged e
classify_key-Tagged (some zero) e = inr (host_key_unknown, refl, refl)
classify_key-Tagged (some (suc n)) e = inr (host_key_mismatch, refl, refl)

classify-Tagged : (e : Err) → Tagged e (classify e)
unfolding classify
classify-Tagged e = elim (Bool-cases (is_any sentinels e)) [
  | inl h ↦ rw h (inl refl)
  | inr h ↦ rw h (elim (Bool-cases (as_revoked e)) [
    | inl r ↦ rw r (inr (host_key_mismatch, refl, refl))
    | inr r ↦ rw r (classify_key-Tagged (as_key_error e) e)
  ])
]

is_any-tag : (s : Sentinel) (e : Err) → same s sftp ≡ false → is_any sentinels (tag e s) ≡ true
unfolding is_any is
is_any-tag sftp e h = cc
is_any-tag _ e h = ground arith

classify-tag : (s : Sentinel) (e : Err) → same s sftp ≡ false → classify (tag e s) ≡ tag e s
unfolding classify
classify-tag s e h = rw (is_any-tag s e h)

-- Classifying an error that is classified already changes nothing, and the first time it adds at
-- most one sentinel in front of the error, which stays in the chain.
pub classify_once :
    (e : Err)
    → (classify (classify e) ≡ classify e)
      × ((classify e ≡ e) ⊎ ((s : Sentinel) × (classify e ≡ tag e s)))
classify_once e = elim (classify-Tagged e) [
  | inl h ↦ (rw h h, inl h)
  | inr (s, ok, h) ↦ (rw h (classify-tag s e ok), inr (s, h))
]

-- No sentinel of the list is in the chain of an error that the loop did not find.
is_any-false :
    (e : Err)
    → is_any sentinels e ≡ false
    → (is host_key_mismatch e ≡ false) × (is host_key_unknown e ≡ false) × (is timeout e ≡ false)
unfolding is_any
is_any-false e h = ground arith

wrap_is_any : (t : Text) (e : Err) → is_any sentinels (wrap t e) ≡ is_any sentinels e
unfolding is_any is
wrap_is_any t e = refl

op_is_any : (b : Bool) (t : Text) (e : Err) → is_any sentinels (op b t e) ≡ is_any sentinels e
unfolding is_any is
op_is_any b t e = refl

classify_net-timeout :
    (e : Err)
    → is timeout e ≡ false
    → is_timeout e ≡ false
    → is_deadline e ≡ false
    → is timeout (classify_net e) ≡ false
unfolding classify_net is
classify_net-timeout e h t d = ground arith

-- A dial whose chain holds no sentinel, and in which knownhosts reports a revoked key or a key
-- that differs from one on record, ends in ErrHostKeyMismatch and not in ErrHostKeyUnknown.
dial_error_changed_key :
    (addr : Text) (e : Err) (n : ℕ)
    → is_any sentinels e ≡ false
    → (as_revoked e ≡ true) ⊎ (as_key_error e ≡ some (suc n))
    → (is host_key_mismatch (dial_error addr e) ≡ true)
      × (is host_key_unknown (dial_error addr e) ≡ false)
unfolding dial_error classify is as_revoked as_key_error
dial_error_changed_key addr e n h (inl r) =
    rw (wrap_is_any, h, r) (ground (arith, is_any-false e h))
dial_error_changed_key addr e n h (inr k) = elim (Bool-cases (as_revoked e)) [
  | inl r ↦ rw (wrap_is_any, h, r) (ground (arith, is_any-false e h))
  | inr r ↦ rw (wrap_is_any, h, r, k) (ground (arith, is_any-false e h))
]

-- A dial that failed with net's timeout, by its Timeout() method alone, is not reported as
-- ErrTimeout: Dial wraps the error before it is classified, and the test looks at the wrap.
pub dial_error_timeout :
    (addr t : Text) (e : Err)
    → is_any sentinels e ≡ false
    → as_revoked e ≡ false
    → as_key_error e ≡ none
    → is_deadline e ≡ false
    → (is_timeout (op true t e) ≡ true) × (is timeout (dial_error addr (op true t e)) ≡ false)
unfolding dial_error classify is as_revoked as_key_error is_deadline is_timeout
dial_error_timeout addr t e h r k d = (
  refl,
  rw (wrap_is_any, op_is_any, h, r, k)
      (classify_net-timeout (wrap (codes "connect to " ++ addr) (op true t e)) (is_any-false e h).2
        refl d),
)
