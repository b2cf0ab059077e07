-- ===== src/Ownership/Processes.antt =====
-- ownership_store.cpp: the table of processes, by linear probing in `kProcesses` slots with a mark in the
-- slots of those that are forgotten. The calls are under the store's lock, and `Process` is modelled where
-- no writer is active. A process id is a 32-bit word; `ProcessStart` is given, 0 for no such process.
pub mod Probe
pub mod Laws
use andlify.Common.{
  ℕ, zero, suc, ◌+◌, ◌-◌, ◌%◌, ◌^◌, Bool, true, false, not, ◌&&◌, ◌||◌, if◌then◌else◌, ◌==◌, leb,
  Option, none, some,
}

pub record ProcessOwner : Type 0 where
  pub pid : ℕ
  pub real_uid : ℕ
  pub effective_uid : ℕ
  pub real_gid : ℕ
  pub effective_gid : ℕ
  pub start_time : ℕ

-- `kProcesses`
abbrev pub max_processes : ℕ
max_processes = 16384

abbrev pub Processes : Type 0
Processes = ℕ → ProcessOwner

-- -1
abbrev pub forgotten : ℕ
forgotten = 2 ^ 32 - 1

-- `slot.pid <= 0`
abbrev pub is_unused : ProcessOwner → Bool
is_unused slot = slot.pid == 0 || leb (2 ^ 31) slot.pid

abbrev pub next_process : ℕ → ℕ
next_process index = (index + 1) % max_processes

abbrev pub write_process : Processes → ℕ → ProcessOwner → Processes
write_process processes index process i = if i == index then process else processes i

-- `if (slot.pid <= 0 && !free) free = &slot`
unfoldable pub note_unused : Option ℕ → ProcessOwner → ℕ → Option ℕ
note_unused none slot index = if is_unused slot then some index else none
note_unused (some i) slot index = some i

-- The loop of `RegisterProcess`: the slot of the process, or the first that can be used.
unfoldable pub choose_from : ℕ → ℕ → Processes → ℕ → Option ℕ → Option ℕ
choose_from zero index processes pid free = free
choose_from (suc n) index processes pid free =
    let first = note_unused free (processes index) index in
    let rest = choose_from n (next_process index) processes pid first in
    if (processes index).pid == pid
    then some index
    else if (processes index).pid == 0
    then first
    else rest

-- The loops of `Process` and `ForgetProcess`.
unfoldable pub find_from : ℕ → ℕ → Processes → ℕ → Option ℕ
find_from zero index processes pid = none
find_from (suc n) index processes pid =
    let rest = find_from n (next_process index) processes pid in
    if (processes index).pid == 0
    then none
    else if (processes index).pid == pid
    then some index
    else rest

unfoldable pub find_process : Processes → ℕ → Option ℕ
find_process processes pid = find_from max_processes (pid % max_processes) processes pid

-- `none` is ESRCH or ENOSPC.
unfoldable pub register_process : Processes → ProcessOwner → ℕ → Option Processes
register_process processes process start =
    if start == 0
    then none
    else elim (choose_from max_processes (process.pid % max_processes) processes process.pid none) [
      | none ↦ none
      | some index ↦ some (write_process processes index (record process { start_time = start }))
    ]

unfoldable pub lookup_process : Processes → ℕ → ℕ → Option ProcessOwner
lookup_process processes pid start = elim (find_process processes pid) [
  | none ↦ none
  | some index ↦ if (processes index).start_time == start then some (processes index) else none
]

unfoldable pub forget_process : Processes → ℕ → Processes
forget_process processes pid = elim (find_process processes pid) [
  | none ↦ processes
  | some index ↦ write_process processes index (record (processes index) { pid = forgotten })
]
