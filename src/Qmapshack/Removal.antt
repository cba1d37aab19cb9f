-- ===== src/Qmapshack/Removal.antt =====
-- `remove_stale_items` of src/server/qmapshack/reconcile.rs, the pass that trashes what is gone from
-- the archive, and the counters of a run.
pub mod Gone
pub mod Effect
mod Runs
use gps_trips.Prelude.{
  ℕ, ◌+◌, ◌≡◌, Bool, true, false, not, List, [], ◌∷◌, Option, none, some, if◌then◌else◌, length,
  drop,
}
use gps_trips.Prelude.Int.{ℤ}
use gps_trips.Text.Decimal.{parse_i64}
use gps_trips.Qmapshack.Target.{Database, ExporterItem, list_exporter_items, unlink_item}
use gps_trips.Qmapshack.Reconcile.{ItemOutcome, inserted, updated, skipped}

pub record ExportOutcome : Type 0 where
  pub inserted : ℕ
  pub updated : ℕ
  pub removed : ℕ
  pub skipped : ℕ
  pub failed : ℕ

unfoldable pub count_removed : ExportOutcome → ExportOutcome
count_removed o = record {
  inserted = o.inserted;
  updated = o.updated;
  removed = o.removed + 1;
  skipped = o.skipped;
  failed = o.failed;
}

-- `record`, without the log; `none` is an error.
unfoldable pub record_outcome : ExportOutcome → Option ItemOutcome → ExportOutcome
record_outcome o (some inserted) = record {
  inserted = o.inserted + 1;
  updated = o.updated;
  removed = o.removed;
  skipped = o.skipped;
  failed = o.failed;
}
record_outcome o (some (updated content relinked)) = record {
  inserted = o.inserted;
  updated = o.updated + 1;
  removed = o.removed;
  skipped = o.skipped;
  failed = o.failed;
}
record_outcome o (some skipped) = record {
  inserted = o.inserted;
  updated = o.updated;
  removed = o.removed;
  skipped = o.skipped + 1;
  failed = o.failed;
}
record_outcome o none = record {
  inserted = o.inserted;
  updated = o.updated;
  removed = o.removed;
  skipped = o.skipped;
  failed = o.failed + 1;
}

abbrev pub is_live : (ℤ → Bool) → Option ℤ → Bool
is_live live_ids none = false
is_live live_ids (some id) = live_ids id

-- Whether the record behind a key of the namespace is gone.
unfoldable pub is_stale : List ℕ → (ℤ → Bool) → List ℕ → Bool
is_stale prefix live_ids keyqms = not (is_live live_ids (parse_i64 (drop (length prefix) keyqms)))

-- What the error of an item adds.
unfoldable pub count_failed : ExportOutcome → ExportOutcome
count_failed o = record {
  inserted = o.inserted;
  updated = o.updated;
  removed = o.removed;
  skipped = o.skipped;
  failed = o.failed + 1;
}

-- The loop over the items that were listed. `fails` says of each item whether its removal is an
-- error, which leaves the database as it is.
unfoldable pub remove_items :
    List ℕ
    → (ℤ → Bool)
    → (ℕ → Bool)
    → List ExporterItem
    → Database
    → ExportOutcome
    → Database × ExportOutcome
unfolding is_stale count_removed count_failed
remove_items prefix live_ids fails [] db outcome = (db, outcome)
remove_items prefix live_ids fails (item ∷ items) db outcome =
    let kept = remove_items prefix live_ids fails items db outcome in
    let dropped =
      remove_items prefix live_ids fails items (unlink_item db item.id) (count_removed outcome) in
    let refused = remove_items prefix live_ids fails items db (count_failed outcome) in
    if is_stale prefix live_ids item.keyqms
    then (if item.linked then (if fails item.id then refused else dropped) else kept)
    else kept

unfoldable pub remove_stale_items :
    Database → List ℕ → (ℤ → Bool) → (ℕ → Bool) → ExportOutcome → Database × ExportOutcome
unfolding remove_items
remove_stale_items db prefix live_ids fails outcome =
    remove_items prefix live_ids fails (list_exporter_items db prefix) db outcome
