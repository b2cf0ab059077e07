-- ===== src/Examples/Identity.antt =====
-- The identity calls of ptrace_engine.cpp on one tracee.
use andlify.Common.{ℕ, true, false, List, [], ◌∷◌, ◌≡◌, ◌≢◌, refl, arith, some, if◌then◌else◌}
use andlify.Common.Bytes.{Bytes}
use andlify.Common.Components.{All}
use andlify.Tracee.{none_blocked, Regs, Ids, TraceeState, Memory, Ptrace, root_uid, negated, efault}
use andlify.Tracee.Credentials.{set_groups, get_groups, sys_setresuid, sys_setuid}
use andlify.Tracee.Credentials.Privileges.{
  IsDropped, run_uid_gid_calls, run_uid_gid_calls-IsDropped,
}
use andlify.Tracee.Exec.Laws.{Step, identity_calls, exec, run_steps, run_steps-IsDropped}
use andlify.Tracee.Credentials.Groups.{IsByte, get_groups-set_groups}

abbrev ids : ℕ → Ids
ids id = record { real = id; effective = id; saved = id; fs = id }

abbrev tracee : ℕ → TraceeState
tracee id = record {
  expect_entry = true;
  blocked_syscall_retry = none_blocked;
  retried_syscall_number = 0;
  pending_openat2_retry = false;
  retrying_openat2 = false;
  pending_openat_dirfd = 0;
  pending_openat_path = 0;
  pending_openat_flags = 0;
  pending_openat_mode = 0;
  uid = ids id;
  gid = ids id;
  supplementary_groups = 4 ∷ 27 ∷ [];
  no_new_privileges = false;
  file_descriptor_limit = record { rlim_cur = 1024; rlim_max = 4096 };
  emulated_mount_namespace = false;
  emulated_network_namespace = false;
  emulated_user_namespace = false;
  pending_clone_namespace_flags = 0;
  has_emulated_return = false;
  emulated_return = 0;
  recent_syscalls = [];
  recent_syscall_count = 0;
}

abbrev call : ℕ → ℕ → ℕ → Regs
call number x0 x1 = record {
  x0 = x0;
  x1 = x1;
  x2 = 0;
  x3 = 0;
  x4 = 0;
  x5 = 0;
  x8 = number;
  pc = 4096;
}

-- A memory of one range: what is written is what is read, wherever.
abbrev memory : Memory Bytes
memory = record {
  read = λ bytes address size. some bytes;
  write = λ old address bytes. (true, bytes);
}

abbrev ptrace : Ptrace
ptrace = record { set_regs = λ regs. true; set_syscall_number = λ regs. true }

abbrev user_id : ℕ
user_id = 1000

not_root : user_id ≢ root_uid
not_root = ground arith

abbrev attempts : List Regs
attempts = call sys_setresuid 0 0 ∷ call sys_setuid 1000 0 ∷ []

user-IsDropped : IsDropped (tracee user_id)
user-IsDropped = record { real = not_root; effective = not_root; saved = not_root; fs = not_root }

run_uid_gid_calls-IsDropped_example :
    let after = run_uid_gid_calls memory ptrace (tracee user_id) [] attempts in
    IsDropped after
    × (after.supplementary_groups ≡ (tracee user_id).supplementary_groups)
    × (after.no_new_privileges ≡ (tracee user_id).no_new_privileges)
run_uid_gid_calls-IsDropped_example =
    run_uid_gid_calls-IsDropped memory ptrace (tracee user_id) [] attempts user-IsDropped

-- The groups 5 and 256.
abbrev groups : Bytes
groups = 5 ∷ 0 ∷ 0 ∷ 0 ∷ 0 ∷ 1 ∷ 0 ∷ 0 ∷ []

groups_bytes : All IsByte groups
groups_bytes = (
  omega arith,
  (
    omega arith,
    (omega arith, (omega arith, (omega arith, (omega arith, (omega arith, (omega arith, tt)))))),
  ),
)

get_groups-set_groups_example :
    ((set_groups memory (tracee 0) groups 2 8).0 ≡ 0)
    × (get_groups memory (set_groups memory (tracee 0) groups 2 8).1 [] 3 16 ≡ (
      if (memory.write [] 16 groups).0 then 2 else negated efault,
      (set_groups memory (tracee 0) groups 2 8).1,
      (memory.write [] 16 groups).1,
    ))
get_groups-set_groups_example =
    get_groups-set_groups memory (tracee 0) groups [] 2 8 3 16 groups refl (omega arith)
      (omega arith) (omega arith) refl refl groups_bytes (omega arith) (omega arith)

abbrev locked : TraceeState
locked = record (tracee user_id) { no_new_privileges = true }

locked-IsDropped : IsDropped locked
locked-IsDropped = record { real = not_root; effective = not_root; saved = not_root; fs = not_root }

-- A program of root's that runs with its owner's ids, and then an attempt to take them.
abbrev sudo : List (Step Bytes)
sudo =
    exec (some (record { st_uid = 0; st_gid = 0; st_mode = 35309 }))
    ∷ identity_calls [] attempts
    ∷ []

run_steps-IsDropped_example :
    IsDropped (run_steps memory ptrace locked sudo)
    × ((run_steps memory ptrace locked sudo).no_new_privileges ≡ true)
run_steps-IsDropped_example = run_steps-IsDropped memory ptrace locked sudo refl locked-IsDropped
