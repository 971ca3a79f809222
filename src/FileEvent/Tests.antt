-- ===== src/FileEvent/Tests.antt =====
-- A run: file1 is opened, then file2 is modified and closed after writing; the next read fails.
use linuxapi.Base.{List, [], ◌∷◌}
use linuxapi.Inotify.Format.{Notice}

abbrev opened : Notice
opened = record { wd = 1; mask = 32; cookie = 0; name = []; padding = 0 }

abbrev written : Notice
written = record { wd = 2; mask = 10; cookie = 0; name = []; padding = 0 }

abbrev batches : List (List Notice)
batches = (opened ∷ []) ∷ (written ∷ []) ∷ []
