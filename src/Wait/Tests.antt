-- ===== src/Wait/Tests.antt =====
-- Runs: a child that ends with 258, one killed by signal 9, and a parent of five children.
use linuxapi.Base.{ℕ, ◌≡◌, refl, pos, List, [], ◌∷◌}
use linuxapi.Posix.{Reply, fail, val, echild, eintr, call, trace_of}
use linuxapi.Posix.Loop.{repeat}
use linuxapi.Wait.{
  Options, normal_termination, will_wait, test_is, status_is, wifexited, fork_exec_wait,
  process_waitpid, system_sample, process_wait, by_fork, fork_children, wait_round, none_left,
}
use linuxapi.Wait.Status.{lines, waited, statuses, ends, status_of, five_children, changes_reported}
use linuxapi.Wait.Children.{WaitPost, announced, children_awaited}

abbrev exits : ℕ
exits = status_of (ends 258)

changes_reported_example :
    (lines (trace_of (fork_exec_wait exits (val 7 ∷ val 7 ∷ []) [])) ≡ normal_termination 2 ∷ [])
    × (waited (trace_of (fork_exec_wait exits (val 7 ∷ val 7 ∷ []) []))
        ≡ (pos 7, Options.wnohang) ∷ [])
    × (lines (trace_of (process_waitpid (pos 0) 99 exits (five_children 6 7 8 9 10 (val 7)) []))
        ≡ will_wait ∷ test_is (pos 7) ∷ status_is 512 ∷ wifexited ∷ [])
    × (waited (trace_of (process_waitpid (pos 0) 99 exits (five_children 6 7 8 9 10 (val 7)) []))
        ≡ (pos 7, Options.wuntraced) ∷ [])
    × (statuses
          (trace_of (process_waitpid (pos 0) 99 exits (five_children 6 7 8 9 10 (fail eintr)) []))
        ≡ 99 ∷ [])
    × (lines (trace_of (system_sample (val exits ∷ []) [])) ≡ status_is 2 ∷ [])
changes_reported_example = changes_reported (ends 258) 6 6 6 7 8 9 10 (pos 0) 99 eintr tt

abbrev parent_answers : List Reply
parent_answers = val 11 ∷ val 12 ∷ val 13 ∷ val 14 ∷ val 15 ∷ val 13 ∷ val 11 ∷ fail echild ∷ []

announced_in_order : announced (trace_of (process_wait parent_answers [])) ≡ pos 11 ∷ pos 13 ∷ []
unfolding process_wait fork_children by_fork wait_round none_left repeat call
announced_in_order = refl

children_awaited_example : WaitPost (process_wait parent_answers [])
children_awaited_example = children_awaited parent_answers
