-- ===== src/Model/Server.antt =====
-- internal/model/server.go: a saved connection entry and its validation.
use tui_ssh_client.Prelude.{
  ℕ, zero, suc, Option, none, some, Bool, true, false, ◌&&◌, [], ◌∷◌, ◌++◌, ltb, if◌then◌else◌,
}
use tui_ssh_client.Prelude.Int.{ℤ, pos, negsuc}
use tui_ssh_client.Prelude.Text.{Text, codes, is_empty, trim_space, to_lower, join, itoa}

-- AuthMethod is a string in the file; any text but the three is carried along.
pub data AuthMethod : Type 0 where
  auth_password auth_key auth_agent : AuthMethod
  auth_other : Text → AuthMethod

abbrev pub default_port : ℤ
default_port = pos 22

-- The time of the last connection is in nanoseconds, 0 for the zero time.
pub record Server : Type 0 where
  pub id : Text
  pub name : Text
  pub host : Text
  pub port : ℤ
  pub user : Text
  pub auth : AuthMethod
  pub password : Text
  pub key_pem : Text
  pub key_passphrase : Text
  pub key_path : Text
  pub group : Text
  pub last_used : ℕ

-- port == 0
abbrev pub is_zero : ℤ → Bool
is_zero (pos zero) = true
is_zero _ = false

unfoldable pub filter_key : Server → Text
filter_key s = to_lower (join (codes " ") (s.name ∷ s.user ∷ s.host ∷ s.group ∷ []))

unfoldable pub user_host : Server → Text
user_host s = s.user ++ (codes "@" ++ s.host)

unfoldable pub title : Server → Text
unfolding user_host
title s = let n = trim_space s.name in if is_empty n then user_host s else n

unfoldable pub effective_port : Server → ℤ
effective_port s = if is_zero s.port then default_port else s.port

-- %d
unfoldable pub show_ℤ : ℤ → Text
show_ℤ (pos n) = itoa n
show_ℤ (negsuc n) = codes "-" ++ itoa (suc n)

unfoldable pub addr : Server → Text
unfolding show_ℤ
addr s =
    let port = if is_zero s.port then default_port else s.port in
    s.host ++ (codes ":" ++ show_ℤ port)

pub data Invalid : Type 0 where
  host_required user_required port_out_of_range password_required key_required : Invalid
  unknown_auth : Text → Invalid

-- s.Port < 0 || s.Port > 65535
abbrev pub port_out : ℤ → Bool
port_out (negsuc n) = true
port_out (pos n) = ltb 65535 n

unfoldable pub validate_auth : Server → AuthMethod → Option Invalid
validate_auth s auth_password = if is_empty s.password then some password_required else none
validate_auth s auth_key =
    if is_empty (trim_space s.key_path) && is_empty s.key_pem then some key_required else none
validate_auth s auth_agent = none
validate_auth s (auth_other m) = some (unknown_auth m)

-- `none` when the entry may be saved.
unfoldable pub validate : Server → Option Invalid
unfolding validate_auth
validate s =
    if is_empty (trim_space s.host)
    then some host_required
    else if is_empty (trim_space s.user)
    then some user_required
    else if port_out s.port
    then some port_out_of_range
    else validate_auth s s.auth
