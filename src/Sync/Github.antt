-- ===== src/Sync/Github.antt =====
-- internal/sync/github.go: the client of the GitHub Contents API. A reply is an input: the status, and
-- what its body reads as; the request is written out as far as the replies depend on it.
use tui_ssh_client.Prelude.{
  ℕ, ◌≡◌, refl, arith, ◌==◌, ◌||◌, ◌&&◌, Bool, true, false, not, List, [], ◌∷◌, ◌++◌, Option, none,
  some, leb, if◌then◌else◌,
}
use tui_ssh_client.Prelude.Text.{Text, codes, is_empty, text_eq, trim_byte, trim_space, split}

pub data SyncError : Type 0 where
  repo_public repo_not_found bad_token sync_conflict http : SyncError

pub record Repo : Type 0 where
  pub owner : Text
  pub name : Text
  pub path : Text
  pub branch : Text

-- (r Repo) Valid
unfoldable pub valid : Repo → Bool
valid r = not (is_empty r.owner) && (not (is_empty r.name) && not (is_empty r.path))

-- (r Repo) Slug
unfoldable pub slug : Repo → Text
slug r = r.owner ++ (codes "/" ++ r.name)

owner_and_name : List Text → Option (Text × Text)
owner_and_name (o ∷ (n ∷ [])) = if is_empty o || is_empty n then none else some (o, n)
owner_and_name _ = none

-- ParseRepo
unfoldable pub parse_repo : Text → Option (Text × Text)
unfolding owner_and_name
parse_repo s = owner_and_name (split b'/' (trim_space (trim_byte b'/' s)))

-- What a request comes back with: nothing, or a status and a body, which reads as `B` or not, unless
-- reading it failed.
pub data Reply {ℓ} (B : Type ℓ) : Type ℓ where
  unreachable : Reply B
  unread : ℕ → Reply B
  reply : ℕ → Option B → Reply B

pub data Got {ℓ} (B : Type ℓ) : Type ℓ where
  got : B → Got B
  refused : SyncError → Got B

-- The switch over the status in do; `none` goes on.
unfoldable pub status_error : ℕ → Option SyncError
status_error n =
    if n == 401 || n == 403
    then some bad_token
    else if n == 404
    then some repo_not_found
    else if n == 409 || n == 422
    then some sync_conflict
    else if leb 300 n
    then some http
    else none

module _ {ℓ} {B : Type ℓ} where
  unfoldable pub got_or : Option SyncError → Option B → Got B
  got_or (some e) body = refused e
  got_or none none = refused http
  got_or none (some b) = got b

  -- (r *Remote) do, and the reading of the body that each caller does
  unfoldable pub request : Reply B → Got B
  unfolding got_or
  request unreachable = refused http
  request (unread n) = got_or (status_error n) none
  request (reply n body) = got_or (status_error n) body

  unfoldable pub then_got {κ} : {C : Type κ} → Got B → (B → Got C) → Got C
  then_got (got b) f = f b
  then_got (refused e) f = refused e

private_only : Got Bool → Option SyncError
private_only (got true) = none
private_only (got false) = some repo_public
private_only (refused e) = some e

-- (r *Remote) Check, on the field `private` of the reply
unfoldable pub check : Reply Bool → Option SyncError
unfolding private_only
check r = private_only (request r)

-- What the body of Get reads as: the sha, the encoding, and the content if it is base64.
pub record Contents : Type 0 where
  pub sha : Text
  pub encoding : Text
  pub content : Option Text

unfoldable pub decoded : Text → Option Text → Got (Text × Text)
decoded sha none = refused http
decoded sha (some raw) = got (raw, sha)

unfoldable pub contents : Contents → Got (Text × Text)
unfolding decoded
contents c =
    if not (is_empty c.encoding) && not (text_eq c.encoding (codes "base64"))
    then refused http
    else decoded c.sha c.content

-- (r *Remote) Get: the ciphertext and its sha
unfoldable pub get_file : Reply Contents → Got (Text × Text)
unfolding contents
get_file r = then_got (request r) contents

-- The payload of Put: a sha or a branch that is empty is left out.
pub record Payload : Type 0 where
  pub content : Text
  pub sha : Option Text
  pub branch : Option Text

abbrev unless_empty : Text → Option Text
unless_empty [] = none
unless_empty (c ∷ t) = some (c ∷ t)

unfoldable pub payload : Repo → Text → Text → Payload
payload r data_ sha = record {
  content = data_;
  sha = unless_empty sha;
  branch = unless_empty r.branch;
}

-- (r *Remote) Put, once the payload was sent: the new sha
unfoldable pub put_file : Reply Text → Got Text
put_file r = request r

abbrev without_slash : Text → Text
without_slash p = elim p [ [] ↦ [] | c ∷ t ↦ if c == b'/' then t else c ∷ t ]

-- (r *Remote) contentsURL behind the base, with the branch as it is: url.QueryEscape maps different
-- branches to different texts.
unfoldable pub contents_url : Repo → Text
contents_url r =
    r.owner
    ++ (codes "/"
        ++ (r.name
            ++ (codes "/contents/"
                ++ (without_slash r.path
                    ++ (if is_empty r.branch then [] else codes "?ref=" ++ r.branch)))))

-- A reply that says that the repository is private.
abbrev pub IsPrivate : Reply Bool → Type 0
IsPrivate r = (n : ℕ) × (r ≡ reply n (some true)) × (leb 300 n ≡ false)

pub check-IsPrivate : (r : Reply Bool) → check r ≡ none → IsPrivate r
unfolding check request private_only got_or status_error
check-IsPrivate unreachable h = absurd (cc)
check-IsPrivate (unread n) h = absurd (ground (arith, h))
check-IsPrivate (reply n none) h = absurd (ground (arith, h))
check-IsPrivate (reply n (some false)) h = absurd (ground (arith, h))
check-IsPrivate (reply n (some true)) h = (n, refl, ground (arith, h))
