-- ===== src/Ssh/Errors.antt =====
-- internal/ssh/errors.go: the sentinel causes, and the classification of a raw dial error.
-- An error value is its chain: the leaves that Go's packages return, under `fmt.Errorf` wraps.
pub mod Classify
use tui_ssh_client.Prelude.{
  ℕ, zero, suc, Bool, true, false, ◌||◌, List, [], ◌∷◌, ◌++◌, Option, none, some, if◌then◌else◌,
}
use tui_ssh_client.Prelude.Text.{Text, codes, contains}

pub data Sentinel : Type 0 where
  auth unreachable timeout host_key_unknown host_key_mismatch key_file sftp : Sentinel
  connection_lost agent_unavailable key_passphrase_required : Sentinel

abbrev pub same : Sentinel → Sentinel → Bool
same auth auth = true
same unreachable unreachable = true
same timeout timeout = true
same host_key_unknown host_key_unknown = true
same host_key_mismatch host_key_mismatch = true
same key_file key_file = true
same sftp sftp = true
same connection_lost connection_lost = true
same agent_unavailable agent_unavailable = true
same key_passphrase_required key_passphrase_required = true
same _ _ = false

abbrev pub sentinel_text : Sentinel → Text
sentinel_text auth = codes "authentication failed"
sentinel_text unreachable = codes "host unreachable"
sentinel_text timeout = codes "connection timed out"
sentinel_text host_key_unknown = codes "host key not accepted"
sentinel_text host_key_mismatch = codes "host key mismatch"
sentinel_text key_file = codes "private key problem"
sentinel_text sftp = codes "sftp subsystem unavailable"
sentinel_text connection_lost = codes "connection lost"
sentinel_text agent_unavailable = codes "ssh-agent unavailable"
sentinel_text key_passphrase_required = codes "key passphrase required"

-- `revoked` and `key_error` are the knownhosts errors, the second with the count of its `Want`;
-- `partial` is PartialSuccessError. `dns` and `op` are those of net, with the answer of their
-- Timeout() method; `deadline` is os.ErrDeadlineExceeded. `wrap` is fmt.Errorf("prefix: %w") and
-- `join` is fmt.Errorf("%w: %w").
pub data Err : Type 0 where
  sentinel : Sentinel → Err
  plain : Text → Err
  revoked : Text → Err
  key_error : ℕ → Text → Err
  partial : Text → Err
  dns : Bool → Text → Err
  deadline : Err
  op : Bool → Text → Err → Err
  wrap : Text → Err → Err
  join : Err → Err → Err

-- err.Error()
unfoldable pub message : Err → Text
message (sentinel s) = sentinel_text s
message (plain t) = t
message (revoked t) = t
message (key_error n t) = t
message (partial t) = t
message (dns b t) = t
message deadline = codes "i/o timeout"
message (op b t e) = t ++ (codes ": " ++ message e)
message (wrap t e) = t ++ (codes ": " ++ message e)
message (join a b) = message a ++ (codes ": " ++ message b)

-- errors.Is and errors.As walk the chain in pre-order.
unfoldable pub is : Sentinel → Err → Bool
is s (sentinel r) = same r s
is s (op b t e) = is s e
is s (wrap t e) = is s e
is s (join a b) = is s a || is s b
is s _ = false

unfoldable pub is_deadline : Err → Bool
is_deadline deadline = true
is_deadline (op b t e) = is_deadline e
is_deadline (wrap t e) = is_deadline e
is_deadline (join a b) = is_deadline a || is_deadline b
is_deadline _ = false

unfoldable pub as_revoked : Err → Bool
as_revoked (revoked t) = true
as_revoked (op b t e) = as_revoked e
as_revoked (wrap t e) = as_revoked e
as_revoked (join a b) = as_revoked a || as_revoked b
as_revoked _ = false

abbrev or_else : Option ℕ → Option ℕ → Option ℕ
or_else none o = o
or_else (some n) o = some n

-- The count of keys on record of the first KeyError.
unfoldable pub as_key_error : Err → Option ℕ
as_key_error (key_error n t) = some n
as_key_error (op b t e) = as_key_error e
as_key_error (wrap t e) = as_key_error e
as_key_error (join a b) = or_else (as_key_error a) (as_key_error b)
as_key_error _ = none

unfoldable pub as_partial : Err → Bool
as_partial (partial t) = true
as_partial (op b t e) = as_partial e
as_partial (wrap t e) = as_partial e
as_partial (join a b) = as_partial a || as_partial b
as_partial _ = false

unfoldable pub as_dns : Err → Bool
as_dns (dns b t) = true
as_dns (op b t e) = as_dns e
as_dns (wrap t e) = as_dns e
as_dns (join a b) = as_dns a || as_dns b
as_dns _ = false

unfoldable pub as_op : Err → Bool
as_op (op b t e) = true
as_op (wrap t e) = as_op e
as_op (join a b) = as_op a || as_op b
as_op _ = false

-- os.IsTimeout asks the error itself. Of the errors here it looks through none: not through
-- `fmt.Errorf` either.
unfoldable pub is_timeout : Err → Bool
is_timeout (dns b t) = b
is_timeout (op b t e) = b
is_timeout deadline = true
is_timeout _ = false

abbrev pub sentinels : List Sentinel
sentinels =
    host_key_mismatch ∷ host_key_unknown ∷ agent_unavailable ∷ key_passphrase_required ∷ key_file
    ∷ auth ∷ timeout ∷ unreachable ∷ connection_lost ∷ []

-- The loop over the sentinels: whether one of them is in the chain.
unfoldable pub is_any : List Sentinel → Err → Bool
is_any [] e = false
is_any (s ∷ ss) e = is s e || is_any ss e

-- join(err, sentinel)
abbrev pub tag : Err → Sentinel → Err
tag e s = join (sentinel s) e

unfoldable pub classify_net : Err → Err
classify_net e =
    if is_timeout e || is_deadline e
    then tag e timeout
    else if as_partial e
    then tag e auth
    else if contains (message e) (codes "unable to authenticate")
        || contains (message e) (codes "no supported methods remain")
    then tag e auth
    else if as_dns e
    then tag e unreachable
    else if as_op e
    then tag e unreachable
    else e

abbrev classify_key : Option ℕ → Err → Err
classify_key none e = classify_net e
classify_key (some zero) e = tag e host_key_unknown
classify_key (some (suc n)) e = tag e host_key_mismatch

-- classify of an error that is not nil.
unfoldable pub classify : Err → Err
unfolding classify_net
classify e =
    if is_any sentinels e
    then e
    else if as_revoked e
    then tag e host_key_mismatch
    else classify_key (as_key_error e) e

-- The last lines of Dial, where xssh.Dial has failed.
unfoldable pub dial_error : Text → Err → Err
dial_error addr e = classify (wrap (codes "connect to " ++ addr) e)
