-- ===== src/Inotify/Tests.antt =====
-- A run on a directory, with two events: a file `ab` is created, and the directory is opened.
use linuxapi.Base.{pos, ◌≡◌, refl, List, [], ◌∷◌, arith}
use linuxapi.Posix.{Reply, val, chunk, trace_of}
use linuxapi.Inotify.{
  events_in, inotify_example, watch_descriptor, mask_value, dir, file_name, event,
}
use linuxapi.Inotify.Format.{Notice, WellFormed, all_bytes, all_lines, notice_lines}
use linuxapi.Inotify.Report.{shown, inotify_reports}
use linuxapi.Inotify.Failure.{EndPost, inotify_ends}

abbrev notices : List Notice
notices =
    (record { wd = 1; mask = 256; cookie = 0; name = 97 ∷ 98 ∷ []; padding = 1 })
    ∷ (record { wd = 1; mask = 1073741856; cookie = 0; name = []; padding = 0 })
    ∷ []

abbrev answers : List Reply
answers = val 3 ∷ val 1 ∷ chunk (all_bytes notices) ∷ val 0 ∷ val 0 ∷ []

notices_lines :
    all_lines notice_lines notices
    ≡ watch_descriptor (pos 1)
      ∷ mask_value (pos 256)
      ∷ dir 0
      ∷ file_name (97 ∷ 98 ∷ [])
      ∷ event "IN_CREATE"
      ∷ watch_descriptor (pos 1)
      ∷ mask_value (pos 1073741856)
      ∷ dir 1073741824
      ∷ event "IN_ISDIR"
      ∷ event "IN_OPEN"
      ∷ []
unfolding events_in
notices_lines = refl

created : WellFormed (record { wd = 1; mask = 256; cookie = 0; name = 97 ∷ 98 ∷ []; padding = 1 })
created = (omega arith, omega arith, omega arith, omega arith, (omega arith, (omega arith, tt)))

opened : WellFormed (record { wd = 1; mask = 1073741856; cookie = 0; name = []; padding = 0 })
opened = (omega arith, omega arith, omega arith, omega arith, tt)

inotify_reports_example :
    shown (trace_of (inotify_example (46 ∷ []) (0 ∷ []) answers []))
    ≡ all_lines notice_lines notices
inotify_reports_example =
    inotify_reports (46 ∷ []) (0 ∷ []) 3 1 notices (val 0 ∷ val 0 ∷ []) (created, (opened, tt))

inotify_ends_example : EndPost (inotify_example (46 ∷ []) (0 ∷ []) answers [])
inotify_ends_example = inotify_ends (46 ∷ []) (0 ∷ []) answers
