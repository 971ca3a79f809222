-- ===== src/Memory/Tests.antt =====
-- Runs: a whole run of mem_alloc, and the path of /etc/fstab.
use linuxapi.Base.{◌≡◌, refl, List, [], ◌∷◌, ◌++◌, ℕ}
use linuxapi.Posix.{Reply, val, call, call_or, guard, trace_of}
use linuxapi.Memory.{
  etc, mem_alloc, zeroed_block, resize_block, align_block, mem_variable_len_array, etc_path, strcpy,
  strcat,
}
use linuxapi.Memory.Owned.{live}
use linuxapi.Memory.Paths.{paths}

abbrev pointers : List Reply
pointers = val 100 ∷ val 200 ∷ val 300 ∷ val 4096 ∷ val 400 ∷ []

all_released : live (trace_of (mem_alloc pointers [])) ≡ []
unfolding mem_alloc zeroed_block resize_block align_block call call_or guard
all_released = refl

-- fstab
abbrev fstab : List ℕ
fstab = 102 ∷ 115 ∷ 116 ∷ 97 ∷ 98 ∷ []

path_of_fstab : paths (trace_of (mem_variable_len_array fstab pointers [])) ≡ (etc ++ fstab) ∷ []
unfolding mem_variable_len_array etc_path strcpy strcat call call_or guard
path_of_fstab = refl
