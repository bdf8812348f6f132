-- ===== src/Ui/Sidebar/Tests.antt =====
-- Witness for the property of the sidebar: three servers, two of them in a group that is folded.
use tui_ssh_client.Prelude.{◌≡◌, ◌<◌, refl, Bool, true, not, ◌&&◌, [], ◌∷◌, length}
use tui_ssh_client.Prelude.Int.{pos}
use tui_ssh_client.Prelude.Text.{Text, codes, text_eq, trim_space}
use tui_ssh_client.Model.Server.{Server, auth_agent}
use tui_ssh_client.Ui.Sidebar.{Sidebar, connect_row, header_row, server_row, reload, items_for}
use tui_ssh_client.Ui.Sidebar.Shown.{count, shown, hidden, reload_shows}
use tui_ssh_client.Prelude.Dict.{lookup}

abbrev on_host : Text → Text → Server
on_host host group = record {
  id = host;
  name = host;
  host = host;
  port = pos 22;
  user = codes "u";
  auth = auth_agent;
  password = [];
  key_pem = [];
  key_passphrase = [];
  key_path = [];
  group = group;
  last_used = 0;
}

abbrev folded : Sidebar
folded = record {
  rows = [];
  cursor = 7;
  servers =
      on_host (codes "a") (codes "prod")
      ∷ on_host (codes "b") []
      ∷ on_host (codes "c") (codes " prod")
      ∷ [];
  sessions = (codes "c", 1) ∷ [];
  collapsed = (codes "prod", true) ∷ [];
  sort_recent = true;
}

abbrev is_b : Server → Bool
is_b s = text_eq s.id (codes "b")

reload_shows_example :
    (shown is_b (reload folded).rows
      ≡ count (λ x. is_b x && not (hidden folded.collapsed x)) folded.servers)
    × ((reload folded).cursor < length (reload folded).rows)
reload_shows_example = reload_shows is_b folded

folded_rows :
    (reload folded).rows
    ≡ connect_row
      ∷ server_row (on_host (codes "b") []) 0
      ∷ header_row (codes "prod") true 2 true
      ∷ []
unfolding reload items_for trim_space lookup text_eq
folded_rows = refl
