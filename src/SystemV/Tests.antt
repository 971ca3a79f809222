-- ===== src/SystemV/Tests.antt =====
-- Runs of the System V programs.
use linuxapi.Base.{ℕ, some, arith, ◌≡◌, refl, List, [], ◌∷◌}
use linuxapi.Posix.{Reply, fail, val, chunk_from, eexist, enoent, trace_of, call, call_or, guard}
use linuxapi.Posix.Loop.{repeat}
use linuxapi.Inotify.{c_string}
use linuxapi.SystemV.Msg.{show_message, create_round, receive_round, ipc_systemv_msg_server}
use linuxapi.SystemV.Msg.Served.{ServedPost, printed, server_prints}

-- The semaphore exists, and is initialised at the second look.
abbrev second : List Reply
second = val 1 ∷ fail eexist ∷ val 7 ∷ val 0 ∷ val 0 ∷ val 99 ∷ val 2 ∷ val 0 ∷ val 0 ∷ val 0 ∷ []

-- An old queue is removed; two messages come in.
abbrev server_answers : List Reply
server_answers =
    val 1
    ∷ fail eexist
    ∷ val 5
    ∷ val 0
    ∷ val 6
    ∷ val 3
    ∷ val 4
    ∷ val 0
    ∷ chunk_from 1 (104 ∷ 0 ∷ [])
    ∷ val 0
    ∷ chunk_from 2 (105 ∷ 0 ∷ [])
    ∷ val 0
    ∷ fail enoent
    ∷ []

-- What `mtext` may hold at first
abbrev stale : List ℕ
stale = 255 ∷ 255 ∷ 255 ∷ []

server_run :
    printed (trace_of (ipc_systemv_msg_server stale server_answers []))
    ≡ (2, some (105 ∷ [])) ∷ (1, some (104 ∷ [])) ∷ []
unfolding ipc_systemv_msg_server create_round receive_round show_message c_string repeat call
    call_or guard
server_run = refl

server_prints_example :
    ServedPost stale (ipc_systemv_msg_server stale server_answers [])
    × (c_string (104 ∷ 0 ∷ 255 ∷ []) ≡ some (104 ∷ []))
server_prints_example = server_prints stale (104 ∷ []) server_answers (omega arith, tt)
