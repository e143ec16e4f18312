-- ===== src/Database/Saved.antt =====
-- What is saved is found: a model policy through the snapshot, from the table of its rows.
use my_ai_router.Common.{◌≡◌, some}
use my_ai_router.Database.Table.{find_row}
use my_ai_router.Database.{ModelRow, Store, invalidate}
use my_ai_router.Database.Reading.{scan_model, read_model}
use my_ai_router.Database.Models.{model_id}

Saved : ModelRow → Store → Type 0
Saved cfg after =
    (row : ModelRow) × (find_row model_id cfg.id after.tables.models ≡ some row)
    × (read_model (scan_model row) ≡ read_model (scan_model cfg))
    × (after ≡ invalidate after.tables)
