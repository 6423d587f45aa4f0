-- ===== src/Database/Writer/Tests.antt =====
-- A run of the writer with two log rows and a statement, and the theorems at it.
use free_lunch.Prelude.{String, ◌≡◌, refl, true, none, [], ◌∷◌}
use free_lunch.Database.Writer.{
  WriteTask, Writer, start_writer, admit_log, put_log, act, Reached, start, step, admit, put_nowait,
}
use free_lunch.Database.Writer.Accounting.{
  IsConsistent, start_writer-IsConsistent, Reached-IsConsistent,
}

abbrev fresh : Writer String
fresh = record {
  enabled = true;
  log_queue_size = 1;
  pending = 0;
  dropped = 0;
  maxsize = 257;
  queue = [];
  reserved = 0;
  running = none;
  alive = true;
  accepted = [];
  executed = [];
}

fresh_is_new : start_writer true 1 ≡ fresh
unfolding start_writer
fresh_is_new = refl

abbrev log_row : WriteTask String
log_row = record { statement = "insert"; is_low_priority_log = true }

abbrev admitted : Writer String
admitted = record fresh { pending = 1; reserved = 1 }

-- The second log row is dropped.
abbrev full : Writer String
full = record admitted { dropped = 1 }

abbrev queued : Writer String
queued = record full { reserved = 0; queue = log_row ∷ []; accepted = log_row ∷ [] }

reached : Reached fresh queued
unfolding act admit put_nowait
reached =
    let one : Reached fresh admitted = step admit_log start refl in
    let two : Reached fresh full = step admit_log one refl in step (put_log "insert") two refl

fresh-IsConsistent : IsConsistent fresh
unfolding start_writer
fresh-IsConsistent = start_writer-IsConsistent true 1

Reached-IsConsistent_example : IsConsistent queued
Reached-IsConsistent_example = Reached-IsConsistent fresh queued fresh-IsConsistent reached
