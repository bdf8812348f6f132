-- ===== src/Ssh/HostKey/Trust.antt =====
-- Who decides whether a host key is trusted.
use tui_ssh_client.Prelude.{
  ℕ, zero, suc, ◌≡◌, refl, ap, ◌⊎◌, inl, inr, Bool, true, false, not, ◌&&◌, List, [], ◌∷◌, Option,
  none, some, arith, Bool-cases, and_elim, if◌then◌else◌,
}
use tui_ssh_client.Prelude.Text.{Text}
use tui_ssh_client.Ssh.Errors.{Err, is, host_key_mismatch, as_revoked, as_key_error}
use tui_ssh_client.Ssh.HostKey.{
  Offer, Prompt, Asked, Verdict, answer, answers, refuse, append_line, take_answer,
  trust_on_first_use, check_key, host_key_callback,
}

answers-some : (b : Bool) (oks : List Bool) → answers oks (some b) ≡ some b
unfolding answers answer
answers-some b [] = refl
answers-some b (k ∷ oks) = answers-some b oks

-- The first call of Accept or Reject is the answer.
first_answer :
    (oks : List Bool) → answers oks none ≡ some true → (rest : List Bool) × (oks ≡ true ∷ rest)
unfolding answers answer
first_answer [] e = absurd (cc)
first_answer (true ∷ oks) e = (oks, refl)
first_answer (false ∷ oks) e = absurd (ground (arith, answers-some false oks, e))

-- A key that differs from one on record, or is revoked, is refused as a mismatch, whatever the
-- options and whoever is there to answer: nothing is asked and nothing is appended.
pub changed_key_refused :
    (a : Asked) (o : Offer) (known : Option Text) (e : Err) (n : ℕ)
    → (as_revoked e ≡ true) ⊎ ((as_revoked e ≡ false) × (as_key_error e ≡ some (suc n)))
    → let v = host_key_callback a o known (some e) in
      (f : Err) × (v.err ≡ some f)
      × (is host_key_mismatch f ≡ true)
      × (v.question ≡ none)
      × (v.appended ≡ [])
unfolding host_key_callback check_key refuse is
changed_key_refused a o known e n (inl r) = rw r (_, refl, refl, refl, refl)
changed_key_refused a o known e n (inr (r, k)) = rw (r, k) (_, refl, refl, refl, refl)

-- That the user was there and said yes first, and that the line was saved.
pub record Approved (a : Asked) : Type 0 where
  pub prompting : a.prompts ≡ true
  pub saving : a.append ≡ true
  pub heard : a.listening ≡ true
  pub later : List Bool
  pub first_yes : a.replies ≡ true ∷ later
  pub saved : a.append_err ≡ none

-- A refusal appends nothing.
abbrev pub Refused : Verdict → Type 0
Refused v = (f : Err) × (v.err ≡ some f) × (v.appended ≡ [])

abbrev Decided : Asked → Offer → Verdict → Type 0
Decided a o v = ((v.err ≡ none) × (v.appended ≡ o.line ∷ []) × Approved a) ⊎ Refused v

guard-Decided :
    (a : Asked) (o : Offer) (b : Bool) (e : Err) (v : Verdict)
    → (b ≡ true → Decided a o v)
    → Decided a o (if not b then refuse none e else v)
unfolding refuse
guard-Decided a o true e v h = h refl
guard-Decided a o false e v h = inr (e, refl, refl)

append_line-Decided :
    (a : Asked) (o : Offer) (p : Prompt) (x : Option Err)
    → p.line ≡ o.line
    → (x ≡ none → Approved a)
    → Decided a o (append_line p x)
unfolding append_line refuse
append_line-Decided a o p none e h = inl (refl, ap (λ t. t ∷ []) e, h refl)
append_line-Decided a o p (some x) e h = inr (_, refl, refl)

take_answer-Decided :
    (a : Asked) (o : Offer) (p : Prompt) (c : Option Bool)
    → p.line ≡ o.line
    → (c ≡ some true → a.append_err ≡ none → Approved a)
    → Decided a o (take_answer a p c)
unfolding take_answer refuse
take_answer-Decided a o p none e h = inr (_, refl, refl)
take_answer-Decided a o p (some false) e h = inr (_, refl, refl)
take_answer-Decided a o p (some true) e h = append_line-Decided a o p a.append_err e (h refl)

first_use-Decided : (a : Asked) (o : Offer) → Decided a o (trust_on_first_use a o)
unfolding trust_on_first_use
first_use-Decided a o = guard-Decided a o (a.prompts && a.append) _ _ λ set.
    guard-Decided a o a.listening _ _ λ heard.
      take_answer-Decided a o _ (answers a.replies none) refl λ yes saved.
        let (later, first) = first_answer a.replies yes in
        let both = and_elim a.prompts a.append set in
        record {
          prompting = both.0;
          saving = both.1;
          heard = heard;
          later = later;
          first_yes = first;
          saved = saved;
        }

abbrev pub Recorded : Option Err → Verdict → Type 0
Recorded result v = (result ≡ none) × (v.err ≡ none) × (v.appended ≡ [])

-- An error of knownhosts that says no more than that it has no key for the host.
abbrev pub IsNewHost : Option Err → Type 0
IsNewHost result =
    (e : Err) × (result ≡ some e) × (as_revoked e ≡ false) × (as_key_error e ≡ some 0)

-- The callback lets a key pass only if knownhosts has it on record, and then appends nothing, or if
-- the host has no key on record and the user was asked, said yes before anything else, and the line
-- was saved: that line is then the one that is appended. In every other case it returns an error
-- and appends nothing.
pub trust_decided :
    (a : Asked) (o : Offer) (known : Option Text) (result : Option Err)
    → let v = host_key_callback a o known result in
      Recorded result v
      ⊎ ((IsNewHost result × ((v.err ≡ none) × (v.appended ≡ o.line ∷ []) × Approved a))
          ⊎ Refused v)
unfolding host_key_callback check_key refuse
trust_decided a o known none = inl (refl, refl, refl)
trust_decided a o known (some e) = elim (Bool-cases (as_revoked e)) [
  | inl r ↦ rw r (inr (inr (_, refl, refl)))
  | inr r ↦ rw r (by_key (as_key_error e) refl r)
]
  where
    by_key :
        (k : Option ℕ)
        → as_key_error e ≡ k
        → as_revoked e ≡ false
        → let v = check_key a o known e k in
          Recorded (some e) v
          ⊎ ((IsNewHost (some e) × ((v.err ≡ none) × (v.appended ≡ o.line ∷ []) × Approved a))
              ⊎ Refused v)
    by_key none q r = inr (inr (_, refl, refl))
    by_key (some (suc n)) q r = inr (inr (_, refl, refl))
    by_key (some zero) q r = elim (first_use-Decided a o) [
      | inl d ↦ inr (inl ((e, refl, r, q), d))
      | inr f ↦ inr (inr f)
    ]
