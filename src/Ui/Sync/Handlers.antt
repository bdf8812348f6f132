-- ===== src/Ui/Sync/Handlers.antt =====
-- internal/ui/sync.go, the keys of the registration and of push and pull, and the cases of Update in
-- internal/ui/app.go for the messages that answer.
use tui_ssh_client.Prelude.{
  ℕ, ◌+◌, ◌%◌, ◌&&◌, Bool, true, false, List, [], ◌∷◌, ◌++◌, Option, none, some, length, get_elem?,
  set, if◌then◌else◌,
}
use tui_ssh_client.Prelude.Text.{Text, text_eq}
use tui_ssh_client.Config.Bundle.Apply.{Report}
use tui_ssh_client.Ui.Sync.{
  Auth, Registration, Failure, sync_advice, first_line_of, Form, Checked, wrong, right, form_auth,
  Fetched, Cmd, check_repo, push_cmd, pull_cmd, apply_pull, persist, load_servers, Msg,
  check_failed, push_failed, fetch_failed, apply_failed, checked, pushed, fetched, applied, quiet,
  sync_not_set_up, pushing, pulling, pulled, SyncApp, close_sync, SyncKey, sync_cancel, sync_next,
  sync_prev, sync_submit,
}

-- The sha that a pointer leads to.
abbrev pub text_or_empty : Option Text → Text
text_or_empty none = []
text_or_empty (some t) = t

unfoldable pub sha_at : List Text → ℕ → Text
sha_at shas i = text_or_empty (get_elem? shas i)

-- A new pointer with that sha.
unfoldable pub register : Auth → Text → SyncApp → SyncApp
register auth sha a = record a {
  registration = some (record { auth = auth; cell = length a.shas });
  shas = a.shas ++ sha ∷ [];
}

unfoldable pub with_form : (Form → Form) → SyncApp → SyncApp
with_form f a = record a { form = elim a.form [ none ↦ none | some x ↦ some (f x) ] }

unfoldable pub submit : Form → Checked → SyncApp → SyncApp × List Cmd
submit f (wrong e) a = (record a { form = some (record f { err = some (first_line_of e) }) }, [])
submit f (right auth) a =
    (record a { form = some (record f { busy = true; err = none }) }, check_repo auth ∷ [])

unfoldable pub form_key : Form → SyncKey → SyncApp → SyncApp × List Cmd
unfolding submit close_sync
form_key f sync_cancel a = (close_sync a, [])
form_key f sync_next a = (record a { form = some (record f { focused = (f.focused + 1) % 3 }) }, [])
form_key f sync_prev a = (record a { form = some (record f { focused = (f.focused + 2) % 3 }) }, [])
form_key f (sync_submit fields) a = submit f (form_auth fields a.registration) a

unfoldable pub form_keys : Option Form → SyncKey → SyncApp → SyncApp × List Cmd
unfolding form_key
form_keys none k a = (a, [])
form_keys (some f) k a = if f.busy then (a, []) else form_key f k a

-- handleSyncKey
unfoldable pub handle_sync_key : SyncKey → SyncApp → SyncApp × List Cmd
unfolding form_keys
handle_sync_key k a = form_keys a.form k a

unfoldable pub start_push_with : Option Registration → SyncApp → SyncApp × List Cmd
start_push_with none a = (record a { status = sync_not_set_up }, [])
start_push_with (some r) a = (record a { status = pushing; err = none }, push_cmd r ∷ [])

-- startPush
unfoldable pub start_push : SyncApp → SyncApp × List Cmd
unfolding start_push_with
start_push a = start_push_with a.registration a

unfoldable pub start_pull_with : Option Registration → SyncApp → SyncApp × List Cmd
start_pull_with none a = (record a { status = sync_not_set_up }, [])
start_pull_with (some r) a = (record a { status = pulling; err = none }, pull_cmd r ∷ [])

-- startPull
unfoldable pub start_pull : SyncApp → SyncApp × List Cmd
unfolding start_pull_with
start_pull a = start_pull_with a.registration a

unfoldable pub confirm_yes : Option Fetched → SyncApp → SyncApp × List Cmd
confirm_yes none a = (a, [])
confirm_yes (some f) a = (record a { confirm = none }, apply_pull f.blob f.sha a.registration ∷ [])

-- The answer to the question of pullConfirm.
unfoldable pub answer_pull : Bool → SyncApp → SyncApp × List Cmd
unfolding confirm_yes
answer_pull accepted a =
    if accepted then confirm_yes a.confirm a else (record a { confirm = none }, [])

unfoldable pub same_file : Auth → Auth → Bool
same_file a b = text_eq a.owner b.owner && (text_eq a.repo b.repo && text_eq a.path b.path)

-- The sha that a new registration keeps from the old one.
unfoldable pub kept_sha : Option Registration → Auth → List Text → Text
unfolding same_file sha_at
kept_sha none auth shas = []
kept_sha (some old) auth shas = if same_file old.auth auth then sha_at shas old.cell else []

-- case syncCheckedMsg
unfoldable pub on_checked : Auth → SyncApp → SyncApp × List Cmd
unfolding register kept_sha close_sync
on_checked auth a =
    let b = close_sync (register auth (kept_sha a.registration auth a.shas) a) in
    (b, persist b.registration ∷ [])

unfoldable pub on_check_failed : Failure → SyncApp → SyncApp × List Cmd
unfolding with_form
on_check_failed e a = (with_form (λ f. record f { busy = false; err = some (sync_advice e) }) a, [])

unfoldable pub pushed_with : Option Registration → Text → List Text → List Text
pushed_with none sha shas = shas
pushed_with (some r) sha shas = set shas r.cell sha

-- case syncPushedMsg
unfoldable pub on_pushed : Text → SyncApp → SyncApp × List Cmd
unfolding pushed_with
on_pushed sha a = (
  record a { err = none; shas = pushed_with a.registration sha a.shas },
  persist a.registration ∷ [],
)

unfoldable pub on_failed : Failure → SyncApp → SyncApp × List Cmd
on_failed e a = (record a { status = quiet; err = some (sync_advice e) }, [])

-- case syncFetchedMsg
unfoldable pub on_fetched : Fetched → SyncApp → SyncApp × List Cmd
on_fetched f a = (record a { status = quiet; err = none; confirm = some f }, [])

unfoldable pub register_if : Option Auth → Text → SyncApp → SyncApp
unfolding register
register_if none sha a = record a { registration = none }
register_if (some auth) sha a = register auth sha a

-- case syncAppliedMsg, where the secrets bring a pointer of their own
unfoldable pub on_applied : Report → Option Auth → Text → SyncApp → SyncApp × List Cmd
unfolding register_if
on_applied rep auth sha a = (
  record (register_if auth sha a) {
    err = none;
    status = pulled rep;
    warned = elim rep.conflicts [ [] ↦ a.warned | c ∷ cs ↦ c ∷ cs ];
  },
  load_servers ∷ [],
)

-- The cases of Update for sync.
unfoldable pub update : Msg → SyncApp → SyncApp × List Cmd
update (check_failed e) = on_check_failed e
update (checked auth) = on_checked auth
update (push_failed e) = on_failed e
update (pushed sha n) = on_pushed sha
update (fetch_failed e) = on_failed e
update (fetched f) = on_fetched f
update (apply_failed e) = on_failed e
update (applied rep auth sha) = on_applied rep auth sha
