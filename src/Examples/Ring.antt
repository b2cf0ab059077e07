-- ===== src/Examples/Ring.antt =====
-- The tracer's records of a tracee (ptrace_engine.cpp): the ring of its last calls, its limit and its
-- namespaces, on one tracee.
use andlify.Common.{
  ℕ, ◌+◌, ◌*◌, ◌/◌, ◌%◌, ◌^◌, true, false, List, [], ◌∷◌, ◌≡◌, ◌≢◌, ◌⊎◌, refl, some, replicate,
  take,
}
use mathlib.Core.List.{reverse}
use Prim.Native.Nat.{bit_and}
use andlify.Common.Bytes.{Bytes}
use andlify.Tracee.{none_blocked, Regs, Ids, Rlimit, TraceeState, Memory, Ptrace}
use andlify.Tracee.History.{syscall_history_size, logged_calls}
use andlify.Tracee.History.Laws.{Event, entry, result, record_events}
use andlify.Tracee.History.Reports.{calls, logged_calls-record_events}
use andlify.Tracee.Limits.{maybe_emulate_file_descriptor_limit, sys_prlimit64}
use andlify.Tracee.Limits.Laws.{Allowed, maybe_emulate_file_descriptor_limit-Allowed}
use andlify.Tracee.Namespaces.{
  namespace_clone_flags, other_flags, emulate_unshare, sys_unshare, sys_clone3,
}
use andlify.Tracee.Namespaces.Strips.{Strips}
use andlify.Tracee.Namespaces.Laws.{Executes, Answers, emulate_unshare-Executes}

abbrev user : Ids
user = record { real = 1000; effective = 1000; saved = 1000; fs = 1000 }

abbrev tracee : TraceeState
tracee = record {
  expect_entry = true;
  blocked_syscall_retry = none_blocked;
  retried_syscall_number = 0;
  pending_openat2_retry = false;
  retrying_openat2 = false;
  pending_openat_dirfd = 0;
  pending_openat_path = 0;
  pending_openat_flags = 0;
  pending_openat_mode = 0;
  uid = user;
  gid = user;
  supplementary_groups = 4 ∷ 27 ∷ [];
  no_new_privileges = false;
  file_descriptor_limit = record { rlim_cur = 1024; rlim_max = 4096 };
  emulated_mount_namespace = false;
  emulated_network_namespace = false;
  emulated_user_namespace = false;
  pending_clone_namespace_flags = 0;
  has_emulated_return = false;
  emulated_return = 0;
  recent_syscalls = replicate 32 (record { number = 0; args = []; result = 0; finished = false });
  recent_syscall_count = 0;
}

abbrev call : ℕ → ℕ → ℕ → Regs
call number x0 x1 = record {
  x0 = x0;
  x1 = x1;
  x2 = 512;
  x3 = 0;
  x4 = 0;
  x5 = 0;
  x8 = number;
  pc = 4096;
}

-- A memory of one range: what is written is what is read, wherever.
abbrev memory : Memory Bytes
memory = record {
  read = λ bytes address size. some bytes;
  write = λ old address bytes. (true, bytes);
}

abbrev ptrace : Ptrace
ptrace = record { set_regs = λ regs. true; set_syscall_number = λ regs. true }

abbrev two_calls : List Event
two_calls = entry (call 56 3 4) ∷ result 7 ∷ entry (call 57 7 0) ∷ []

logged_calls-record_events_example :
    logged_calls (record_events tracee two_calls)
    ≡ reverse (take syscall_history_size (reverse (calls two_calls)))
logged_calls-record_events_example = logged_calls-record_events tracee two_calls (refl, refl)

-- The layout of `struct rlimit` for numbers below 256.
abbrev rlimit_of : Bytes → Rlimit
rlimit_of (cur ∷ max ∷ _) = record { rlim_cur = cur; rlim_max = max }
rlimit_of _ = record { rlim_cur = 0; rlim_max = 0 }

abbrev bytes_of : Rlimit → Bytes
bytes_of limit = limit.rlim_cur ∷ limit.rlim_max ∷ []

maybe_emulate_file_descriptor_limit-Allowed_example :
    Allowed tracee
      (maybe_emulate_file_descriptor_limit memory rlimit_of bytes_of 12 ptrace tracee
        (call sys_prlimit64 0 7)
        (100 ∷ 200 ∷ [])).1.file_descriptor_limit
maybe_emulate_file_descriptor_limit-Allowed_example =
    maybe_emulate_file_descriptor_limit-Allowed memory rlimit_of bytes_of 12 ptrace tracee
      (call sys_prlimit64 0 7) (100 ∷ 200 ∷ [])

abbrev start : Bytes
start = 3 ∷ []

-- CLONE_NEWNS and CLONE_FILES.
abbrev unshare_call : Regs
unshare_call = call sys_unshare 0x0002_0400 0

emulate_unshare-Executes_example :
    let out = emulate_unshare ptrace tracee unshare_call start in
    (out.0 ≡ false)
      × ((bit_and unshare_call.x0 namespace_clone_flags ≡ 0)
          ⊎ (bit_and unshare_call.x0 other_flags ≢ 0))
      × Executes unshare_call out.2
    ⊎ (out.0 ≡ true)
      × (bit_and unshare_call.x0 namespace_clone_flags ≢ 0)
      × (bit_and unshare_call.x0 other_flags ≡ 0)
      × Answers 0 out.1 out.2
emulate_unshare-Executes_example =
    emulate_unshare-Executes ptrace tracee unshare_call start (λ r. refl) (λ r. refl)

-- A `uint64_t` in memory.
abbrev bytes_of_word : ℕ → Bytes
bytes_of_word n =
    n % 256
    ∷ n / 256 % 256
    ∷ n / 2 ^ 16 % 256
    ∷ n / 2 ^ 24 % 256
    ∷ n / 2 ^ 32 % 256
    ∷ n / 2 ^ 40 % 256
    ∷ n / 2 ^ 48 % 256
    ∷ n / 2 ^ 56 % 256
    ∷ []

abbrev word_of_bytes : Bytes → ℕ
word_of_bytes [] = 0
word_of_bytes (b ∷ bytes) = b + 256 * word_of_bytes bytes

abbrev clone3_call : Regs
clone3_call = call sys_clone3 4096 88

-- CLONE_NEWUSER and CLONE_VM.
abbrev clone_flags : ℕ
clone_flags = 0x1000_0100
