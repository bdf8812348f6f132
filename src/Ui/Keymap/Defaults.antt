-- ===== src/Ui/Keymap/Defaults.antt =====
-- internal/ui/keymap.go, defaultBindings: the rows in the order of their declaration, with what
-- the dispatch reads of them. Labels, descriptions and priorities are for the screen alone.
use tui_ssh_client.Prelude.{Bool, true, false, List, [], ◌∷◌, ◌++◌}
use tui_ssh_client.Prelude.Text.{Text, codes}

-- Binding; an action and a context are strings.
pub record Binding : Type 0 where
  pub action : Text
  pub ctx : Text
  pub keys : List Text
  pub doc : Bool

abbrev bound : Text → Text → List Text → Binding
bound ctx action keys = record { action = action; ctx = ctx; keys = keys; doc = false }

-- A row that is described here and dispatched elsewhere.
abbrev shown : Text → Text → List Text → Binding
shown ctx action keys = record { action = action; ctx = ctx; keys = keys; doc = true }

abbrev global_rows : List Binding
global_rows =
    bound (codes "global") (codes "global.help") (codes "?" ∷ [])
    ∷ bound (codes "global") (codes "global.quit") (codes "q" ∷ codes "ctrl+c" ∷ [])
    ∷ []

abbrev sidebar_rows : List Binding
sidebar_rows =
    bound (codes "sidebar") (codes "sidebar.focus_panel") (codes "tab" ∷ [])
    ∷ bound (codes "sidebar") (codes "sidebar.new_session") (codes "n" ∷ [])
    ∷ bound (codes "sidebar") (codes "sidebar.files") (codes "f" ∷ [])
    ∷ bound (codes "sidebar") (codes "sidebar.connect") (codes "enter" ∷ [])
    ∷ shown (codes "sidebar") (codes "sidebar.move") (codes "up" ∷ codes "down" ∷ [])
    ∷ bound (codes "sidebar") (codes "sidebar.edit") (codes "e" ∷ [])
    ∷ bound (codes "sidebar") (codes "sidebar.delete") (codes "d" ∷ [])
    ∷ shown (codes "sidebar") (codes "sidebar.filter") (codes "/" ∷ [])
    ∷ bound (codes "sidebar") (codes "sidebar.toggle_group") (codes " " ∷ [])
    ∷ bound (codes "sidebar") (codes "sidebar.fold_group") (codes "left" ∷ [])
    ∷ bound (codes "sidebar") (codes "sidebar.unfold_group") (codes "right" ∷ [])
    ∷ bound (codes "sidebar") (codes "sidebar.sort_recent") (codes "s" ∷ [])
    ∷ bound (codes "sidebar") (codes "sidebar.import") (codes "i" ∷ [])
    ∷ bound (codes "sidebar") (codes "sidebar.sync_setup") (codes "Y" ∷ [])
    ∷ bound (codes "sidebar") (codes "sidebar.sync_push") (codes "S" ∷ [])
    ∷ bound (codes "sidebar") (codes "sidebar.sync_pull") (codes "P" ∷ [])
    ∷ []

abbrev session_rows : List Binding
session_rows =
    bound (codes "session") (codes "session.escape") (codes "ctrl+b" ∷ [])
    ∷ bound (codes "session") (codes "session.scroll_up") (codes "shift+up" ∷ [])
    ∷ bound (codes "session") (codes "session.scroll_down") (codes "shift+down" ∷ [])
    ∷ bound (codes "session") (codes "session.scroll_page_up") (codes "shift+pgup" ∷ [])
    ∷ bound (codes "session") (codes "session.scroll_page_down") (codes "shift+pgdown" ∷ [])
    ∷ bound (codes "session") (codes "session.reconnect") (codes "r" ∷ [])
    ∷ shown (codes "session") (codes "session.copy") []
    ∷ []

abbrev tabs_rows : List Binding
tabs_rows =
    bound (codes "tabs") (codes "tabs.select") (
      codes "alt+1"
      ∷ codes "alt+2"
      ∷ codes "alt+3"
      ∷ codes "alt+4"
      ∷ codes "alt+5"
      ∷ codes "alt+6"
      ∷ codes "alt+7"
      ∷ codes "alt+8"
      ∷ codes "alt+9"
      ∷ [])
    ∷ bound (codes "tabs") (codes "tabs.next") (codes "alt+right" ∷ codes "alt+l" ∷ [])
    ∷ bound (codes "tabs") (codes "tabs.prev") (codes "alt+left" ∷ codes "alt+h" ∷ [])
    ∷ bound (codes "tabs") (codes "tabs.close") (codes "alt+w" ∷ [])
    ∷ []

abbrev sftp_rows : List Binding
sftp_rows =
    bound (codes "sftp") (codes "sftp.switch_pane")
      (codes "tab" ∷ codes "left" ∷ codes "right" ∷ codes "h" ∷ codes "l" ∷ [])
    ∷ bound (codes "sftp") (codes "sftp.mark") (codes " " ∷ [])
    ∷ bound (codes "sftp") (codes "sftp.transfer") (codes "t" ∷ [])
    ∷ bound (codes "sftp") (codes "sftp.delete") (codes "d" ∷ [])
    ∷ bound (codes "sftp") (codes "sftp.rename") (codes "R" ∷ [])
    ∷ bound (codes "sftp") (codes "sftp.refresh") (codes "r" ∷ [])
    ∷ shown (codes "sftp") (codes "sftp.drag") []
    ∷ bound (codes "sftp") (codes "sftp.back") (codes "ctrl+b" ∷ codes "esc" ∷ [])
    ∷ bound (codes "sftp") (codes "sftp.clear_marks") (codes "a" ∷ [])
    ∷ bound (codes "sftp") (codes "sftp.open") (codes "enter" ∷ [])
    ∷ bound (codes "sftp") (codes "sftp.parent") (codes "backspace" ∷ [])
    ∷ bound (codes "sftp") (codes "sftp.up") (codes "up" ∷ codes "k" ∷ [])
    ∷ bound (codes "sftp") (codes "sftp.down") (codes "down" ∷ codes "j" ∷ [])
    ∷ bound (codes "sftp") (codes "sftp.page_up") (codes "pgup" ∷ [])
    ∷ bound (codes "sftp") (codes "sftp.page_down") (codes "pgdown" ∷ [])
    ∷ bound (codes "sftp") (codes "sftp.home") (codes "home" ∷ [])
    ∷ bound (codes "sftp") (codes "sftp.end") (codes "end" ∷ [])
    ∷ []

abbrev form_rows : List Binding
form_rows =
    shown (codes "form") (codes "form.save") (codes "enter" ∷ codes "ctrl+s" ∷ [])
    ∷ shown (codes "form") (codes "form.move") (codes "tab" ∷ codes "shift+tab" ∷ [])
    ∷ shown (codes "form") (codes "form.auth") (codes "left" ∷ codes "right" ∷ [])
    ∷ shown (codes "form") (codes "form.cancel") (codes "esc" ∷ [])
    ∷ []

abbrev import_rows : List Binding
import_rows =
    bound (codes "import") (codes "import.toggle") (codes " " ∷ [])
    ∷ bound (codes "import") (codes "import.toggle_all") (codes "a" ∷ [])
    ∷ bound (codes "import") (codes "import.accept") (codes "enter" ∷ [])
    ∷ bound (codes "import") (codes "import.cancel") (codes "esc" ∷ codes "q" ∷ codes "ctrl+c" ∷ [])
    ∷ bound (codes "import") (codes "import.up") (codes "up" ∷ codes "k" ∷ [])
    ∷ bound (codes "import") (codes "import.down") (codes "down" ∷ codes "j" ∷ [])
    ∷ []

abbrev sync_rows : List Binding
sync_rows =
    bound (codes "sync") (codes "sync.next_field") (codes "tab" ∷ codes "down" ∷ [])
    ∷ bound (codes "sync") (codes "sync.submit") (codes "enter" ∷ [])
    ∷ bound (codes "sync") (codes "sync.cancel") (codes "esc" ∷ [])
    ∷ bound (codes "sync") (codes "sync.prev_field") (codes "shift+tab" ∷ codes "up" ∷ [])
    ∷ []

abbrev confirm_rows : List Binding
confirm_rows =
    bound (codes "confirm") (codes "confirm.yes") (codes "enter" ∷ codes "y" ∷ codes "Y" ∷ [])
    ∷ bound (codes "confirm") (codes "confirm.no")
        (codes "esc" ∷ codes "n" ∷ codes "N" ∷ codes "q" ∷ codes "ctrl+c" ∷ [])
    ∷ []

abbrev error_rows : List Binding
error_rows =
    bound (codes "error") (codes "error.retry") (codes "r" ∷ [])
    ∷ bound (codes "error") (codes "error.edit") (codes "e" ∷ [])
    ∷ bound (codes "error") (codes "error.dismiss") (codes "esc" ∷ [])
    ∷ []

abbrev unlock_rows : List Binding
unlock_rows =
    bound (codes "unlock") (codes "unlock.submit") (codes "enter" ∷ [])
    ∷ bound (codes "unlock") (codes "unlock.switch_field")
        (codes "tab" ∷ codes "shift+tab" ∷ codes "up" ∷ codes "down" ∷ [])
    ∷ bound (codes "unlock") (codes "unlock.cancel") (codes "esc" ∷ [])
    ∷ bound (codes "unlock") (codes "unlock.quit") (codes "ctrl+c" ∷ [])
    ∷ []

abbrev prompt_rows : List Binding
prompt_rows =
    shown (codes "prompt") (codes "prompt.accept") (codes "enter" ∷ [])
    ∷ shown (codes "prompt") (codes "prompt.cancel") (codes "esc" ∷ [])
    ∷ []

abbrev help_rows : List Binding
help_rows =
    bound (codes "help") (codes "help.close") (codes "esc" ∷ codes "q" ∷ [])
    ∷ bound (codes "help") (codes "help.search") (codes "/" ∷ [])
    ∷ bound (codes "help") (codes "help.scroll_up") (codes "up" ∷ [])
    ∷ bound (codes "help") (codes "help.scroll_down") (codes "down" ∷ [])
    ∷ bound (codes "help") (codes "help.page_up") (codes "pgup" ∷ [])
    ∷ bound (codes "help") (codes "help.page_down") (codes "pgdown" ∷ [])
    ∷ []

unfoldable pub default_bindings : List Binding
default_bindings =
    global_rows
    ++ (sidebar_rows
        ++ (session_rows
            ++ (tabs_rows
                ++ (sftp_rows
                    ++ (form_rows
                        ++ (import_rows
                            ++ (sync_rows
                                ++ (confirm_rows
                                    ++ (error_rows
                                        ++ (unlock_rows ++ (prompt_rows ++ (help_rows))))))))))))
