-- ===== src/Sftp/Tree.antt =====
-- internal/sftp/tree.go: Plan, the walk before a recursive copy.
pub mod Order
pub mod Enough
pub mod Tests
use tui_ssh_client.Prelude.{
  ℕ, zero, suc, ◌+◌, Bool, true, false, List, [], ◌∷◌, ◌++◌, Option, none, some, if◌then◌else◌,
}
use tui_ssh_client.Prelude.Text.{Text, codes, is_empty, split}

-- model.FileEntry, as far as the walk reads it: `link` is the symlink bit of its mode.
pub record FileEntry : Type 0 where
  pub name : Text
  pub size : ℕ
  pub link : Bool
  pub is_dir : Bool

-- TransferItem
pub record Item : Type 0 where
  pub rel_path : Text
  pub size : ℕ
  pub is_dir : Bool

pub data Stat : Type 0 where
  stat_failed missing : Stat
  found : FileEntry → Stat

-- The part of Browser that Plan uses; List gives `none` for an error.
pub record Browser : Type 0 where
  pub stat : Text → Stat
  pub list : Text → Option (List FileEntry)
  pub join : Text → Text → Text

-- The results of Plan that grow, and the queue.
pub record Walk : Type 0 where
  pub items : List Item
  pub total : ℕ
  pub skipped : ℕ
  pub queue : List Text

unfoldable pub join_all : Browser → Text → List Text → Text
join_all br p [] = p
join_all br p (seg ∷ segs) = join_all br (br.join p seg) segs

-- joinRel
unfoldable pub join_rel : Browser → Text → Text → Text
unfolding join_all
join_rel br root rel = if is_empty rel then root else join_all br root (split b'/' rel)

abbrev pub child : Text → Text → Text
child rel name = if is_empty rel then name else rel ++ (codes "/" ++ name)

abbrev pub dir_item : Text → Item
dir_item rel = record { rel_path = rel; size = 0; is_dir = true }

-- One case of the switch.
unfoldable pub visit : Text → FileEntry → Walk → Walk
visit rel e w =
    if e.link
    then record w { skipped = w.skipped + 1 }
    else if e.is_dir
    then record w {
      items = w.items ++ dir_item (child rel e.name) ∷ [];
      queue = w.queue ++ child rel e.name ∷ [];
    }
    else record w {
      items = w.items ++ record { rel_path = child rel e.name; size = e.size; is_dir = false } ∷ [];
      total = w.total + e.size;
    }

unfoldable pub visit_all : Text → List FileEntry → Walk → Walk
visit_all rel [] w = w
visit_all rel (e ∷ es) w = visit_all rel es (visit rel e w)

-- The plan, an error of List or Stat, a root that does not exist, or a walk that needs more rounds.
pub data Plan : Type 0 where
  planned : Walk → Plan
  not_listed not_stated not_there unfinished : Plan

-- One round, after the answer of List, and then the rest.
unfoldable pub listed : Option (List FileEntry) → Text → Walk → (Walk → Plan) → Plan
listed none rel w rest = not_listed
listed (some es) rel w rest = rest (visit_all rel es w)

-- The loop, for at most so many rounds.
unfoldable pub walk : ℕ → Browser → Text → List Text → Walk → Plan
walk n br root [] w = planned w
walk zero br root (rel ∷ q) w = unfinished
walk (suc n) br root (rel ∷ q) w =
    listed (br.list (join_rel br root rel)) rel (record w { queue = q })
      (λ v. walk n br root v.queue v)

abbrev pub from_root : Walk
from_root = record { items = dir_item [] ∷ []; total = 0; skipped = 0; queue = [] ∷ [] }

unfoldable pub plan_of : ℕ → Browser → Text → Stat → Plan
plan_of n br root stat_failed = not_stated
plan_of n br root missing = not_there
plan_of n br root (found e) =
    if e.link
    then planned (record { items = []; total = 0; skipped = 1; queue = [] })
    else if e.is_dir
    then walk n br root ([] ∷ []) from_root
    else planned (record {
      items = record { rel_path = []; size = e.size; is_dir = false } ∷ [];
      total = e.size;
      skipped = 0;
      queue = [];
    })

-- The whole of Plan, with at most n rounds of the walk.
unfoldable pub plan : ℕ → Browser → Text → Plan
unfolding plan_of
plan n br root = plan_of n br root (br.stat root)
