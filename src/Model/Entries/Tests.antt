-- ===== src/Model/Entries/Tests.antt =====
-- Witnesses for the order of a listing.
use tui_ssh_client.Prelude.{◌≡◌, refl, true, false, List, [], ◌∷◌}
use tui_ssh_client.Prelude.Text.{codes, text_eq, text_lt, to_lower, to_lower_byte}
use tui_ssh_client.Sftp.Tree.{FileEntry}
use tui_ssh_client.Model.Entries.{entry_less, insert_entry, sort_entries}
use tui_ssh_client.Model.Entries.Shown.{Distinct, Rearranged, InOrder, listing_shown}
use mathlib.Core.List.{Permᴰ}

abbrev readme : FileEntry
readme = record { name = codes "README"; size = 5; link = false; is_dir = false }

abbrev ant : FileEntry
ant = record { name = codes "ant"; size = 7; link = false; is_dir = false }

abbrev src : FileEntry
src = record { name = codes "src"; size = 0; link = false; is_dir = true }

abbrev listed : List FileEntry
listed = readme ∷ ant ∷ src ∷ []

listed-Distinct : Distinct listed
unfolding text_eq
listed-Distinct = ((refl, (refl, tt)), ((refl, tt), (tt, tt)))

in_order : sort_entries listed ≡ src ∷ ant ∷ readme ∷ []
unfolding sort_entries insert_entry entry_less text_eq text_lt to_lower to_lower_byte
in_order = refl

listing_shown_example :
    (sort_entries (ant ∷ readme ∷ src ∷ []) ≡ sort_entries listed)
    × Rearranged listed (sort_entries listed)
    × InOrder (sort_entries listed)
listing_shown_example =
    listing_shown listed (ant ∷ readme ∷ src ∷ []) listed-Distinct (Permᴰ.swap refl refl)
