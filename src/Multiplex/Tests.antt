-- ===== src/Multiplex/Tests.antt =====
-- Runs: two files are read and closed; one descriptor is read once and then times out.
use linuxapi.Base.{List, [], ◌∷◌}
use linuxapi.Posix.{Reply, fail, val, chunk, eintr}
use linuxapi.Multiplex.{alt_io_epoll, select_sample, pselect_sample, poll_sample}
use linuxapi.Multiplex.Epoll.{EpollPost, epoll_serves}
use linuxapi.Multiplex.Waiting.{WaitPost, IsText, samples_show_reads}

-- EPOLLIN on 4, an interrupt, EPOLLHUP on 4 and on 5.
abbrev events : List Reply
events =
    val 3
    ∷ val 4
    ∷ val 0
    ∷ val 5
    ∷ val 0
    ∷ chunk (4294967300 ∷ [])
    ∷ chunk (97 ∷ [])
    ∷ fail eintr
    ∷ chunk (68719476740 ∷ 68719476741 ∷ [])
    ∷ val 0
    ∷ val 0
    ∷ []

epoll_serves_example : EpollPost (alt_io_epoll events [])
epoll_serves_example = epoll_serves events

abbrev waits : List Reply
waits = val 3 ∷ chunk (1 ∷ []) ∷ chunk (97 ∷ 98 ∷ []) ∷ val 0 ∷ []

samples_show_reads_example :
    WaitPost (select_sample waits [])
    × WaitPost (pselect_sample waits [])
    × WaitPost (poll_sample waits [])
    × IsText (97 ∷ 0 ∷ 98 ∷ []) (97 ∷ [])
samples_show_reads_example = samples_show_reads waits (97 ∷ 0 ∷ 98 ∷ [])
