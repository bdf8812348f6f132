-- ===== src/Ssh/HostKey.antt =====
-- internal/ssh/hostkey.go: the host key callback, and trust on first use.
pub mod Trust
use tui_ssh_client.Prelude.{
  ℕ, zero, suc, Bool, true, false, not, ◌&&◌, ◌||◌, List, [], ◌∷◌, ◌++◌, Option, none, some,
  if◌then◌else◌,
}
use tui_ssh_client.Prelude.Text.{Text, codes}
use tui_ssh_client.Ssh.Errors.{
  Err, sentinel, plain, join, Sentinel, host_key_unknown, host_key_mismatch, as_revoked,
  as_key_error,
}

-- The key that the server offers to a dial of `hostname`, with what x/crypto says of it: its type,
-- its fingerprint, and the line that knownhosts would write for it.
pub record Offer : Type 0 where
  pub hostname : Text
  pub key_type : Text
  pub fingerprint : Text
  pub line : Text

-- HostKeyPrompt without its channel.
pub record Prompt : Type 0 where
  pub addr : Text
  pub fingerprint : Text
  pub key_type : Text
  pub line : Text

-- (p *HostKeyPrompt) answer: the channel has room for one value, and a send that would block is
-- dropped.
unfoldable pub answer : Bool → Option Bool → Option Bool
answer ok none = some ok
answer ok (some b) = some b

-- Accept and Reject, called in this order before anybody reads the channel.
unfoldable pub answers : List Bool → Option Bool → Option Bool
answers [] c = c
answers (ok ∷ oks) c = answers oks (answer ok c)

-- Which of the options are set, and what happens to a question: whether somebody takes it before the
-- timer runs out, the calls of Accept (true) and Reject (false) that come before it does, and the
-- error of AppendKnownHost.
pub record Asked : Type 0 where
  pub prompts : Bool
  pub append : Bool
  pub listening : Bool
  pub replies : List Bool
  pub append_err : Option Err

-- What the callback returns, the question that it put, and the lines that were appended.
pub record Verdict : Type 0 where
  pub err : Option Err
  pub question : Option Prompt
  pub appended : List Text

-- fmt.Errorf("%w: …", sentinel): the text is not in the chain that errors.Is walks.
abbrev because : Sentinel → Text → Err
because s t = join (sentinel s) (plain t)

refuse : Option Prompt → Err → Verdict
refuse q e = record { err = some e; question = q; appended = [] }

append_line : Prompt → Option Err → Verdict
unfolding refuse
append_line p none = record { err = none; question = some p; appended = p.line ∷ [] }
append_line p (some e) = refuse (some p) (join (sentinel host_key_unknown) e)

-- The second select.
take_answer : Asked → Prompt → Option Bool → Verdict
unfolding append_line refuse
take_answer a p none =
    refuse (some p) (because host_key_unknown (codes "the fingerprint prompt timed out"))
take_answer a p (some false) =
    refuse (some p) (because host_key_unknown (p.addr ++ codes " was not trusted"))
take_answer a p (some true) = append_line p a.append_err

-- (o Options) trustOnFirstUse
unfoldable pub trust_on_first_use : Asked → Offer → Verdict
unfolding take_answer refuse
trust_on_first_use a o =
    let p : Prompt = record {
      addr = o.hostname;
      fingerprint = o.fingerprint;
      key_type = o.key_type;
      line = o.line;
    } in
    if not (a.prompts && a.append)
    then refuse none (because host_key_unknown (o.hostname ++ codes " is not in known_hosts"))
    else if not a.listening
    then refuse none
        (because host_key_unknown (codes "nobody was listening for the fingerprint prompt"))
    else take_answer a p (answers a.replies none)

-- describeKnown, with what it prints of the first key on record.
unfoldable pub describe_known : Option Text → Text
describe_known none = codes "another key"
describe_known (some k) = k

check_key : Asked → Offer → Option Text → Err → Option ℕ → Verdict
unfolding refuse
check_key a o known e none = refuse none e
check_key a o known e (some (suc n)) = refuse none (
    because host_key_mismatch (
      o.hostname
      ++ (codes " offers "
          ++ (o.key_type
              ++ (codes " "
                  ++ (o.fingerprint
                      ++ (codes ", but " ++ (describe_known known ++ codes " is on record"))))))))
check_key a o known e (some zero) = trust_on_first_use a o

-- The function that hostKeyCallback returns, after the answer of knownhosts.
unfoldable pub host_key_callback : Asked → Offer → Option Text → Option Err → Verdict
unfolding check_key refuse
host_key_callback a o known none = record { err = none; question = none; appended = [] }
host_key_callback a o known (some e) =
    if as_revoked e
    then refuse none (because host_key_mismatch (o.hostname ++ codes " offered a revoked key"))
    else check_key a o known e (as_key_error e)
