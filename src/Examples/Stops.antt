-- ===== src/Examples/Stops.antt =====
-- The stops of a tracee (ptrace_engine.cpp): trapped calls, answers at the exit, sockets and devices.
use andlify.Common.{ℕ, ◌+◌, true, false, [], ◌≡◌, ◌≢◌, ◌⊎◌, refl, arith, Option, some}
use andlify.Common.Bytes.{Bytes, codes}
use andlify.Tracee.{
  none_blocked, Regs, Ids, TraceeState, Memory, Ptrace, set_emulated_syscall_return,
}
use andlify.Tracee.Blocked.{
  SigInfo, is_among, is_traced_syscall, is_retried, stops_at_syscall, retry_blocked_syscall,
}
use andlify.Tracee.Blocked.Laws.{retry_blocked_syscall-stops}
use andlify.Tracee.Devices.{
  sys_socket, is_raw_icmp, maybe_rewrite_ping_socket, apply_emulated_syscall_return,
}
use andlify.Tracee.Devices.Laws.{apply_emulated_syscall_return-set}

program : Unit {0}
unfolding is_among is_traced_syscall is_retried stops_at_syscall retry_blocked_syscall is_raw_icmp
    maybe_rewrite_ping_socket
program = tt

abbrev ids : Ids
ids = record { real = 1000; effective = 1000; saved = 1000; fs = 1000 }

abbrev tracee : TraceeState
tracee = record {
  expect_entry = true;
  blocked_syscall_retry = none_blocked;
  retried_syscall_number = 0;
  pending_openat2_retry = false;
  retrying_openat2 = false;
  pending_openat_dirfd = 0;
  pending_openat_path = 0;
  pending_openat_flags = 0;
  pending_openat_mode = 0;
  uid = ids;
  gid = ids;
  supplementary_groups = [];
  no_new_privileges = false;
  file_descriptor_limit = record { rlim_cur = 1024; rlim_max = 4096 };
  emulated_mount_namespace = false;
  emulated_network_namespace = true;
  emulated_user_namespace = false;
  pending_clone_namespace_flags = 0;
  has_emulated_return = false;
  emulated_return = 0;
  recent_syscalls = [];
  recent_syscall_count = 0;
}

abbrev call : ℕ → Regs
call number = record {
  x0 = 2;
  x1 = 0x8_0003;
  x2 = 1;
  x3 = 0;
  x4 = 0;
  x5 = 0;
  x8 = number;
  pc = 4100;
}

abbrev ptrace : Ptrace
ptrace = record { set_regs = λ regs. true; set_syscall_number = λ regs. true }

-- A memory of one range: what is written is what is read, wherever.
abbrev memory : Memory Bytes
memory = record {
  read = λ bytes address size. some bytes;
  write = λ old address bytes. (true, bytes);
}

-- `openat`, trapped at the instruction before 4100.
abbrev trapped : SigInfo
trapped = record { si_code = 1; si_arch = 0xc000_00b7; si_call_addr = 4100; si_syscall = 56 }

abbrev retried : TraceeState
retried = (retry_blocked_syscall ptrace (some trapped) (some (call 56)) tracee false).1

abbrev at_call : Regs
at_call = record (call 56) { pc = 4096 }

retry_trapped :
    retry_blocked_syscall ptrace (some trapped) (some (call 56)) tracee false
    ≡ (true, retried, some at_call)
unfolding program
retry_trapped = refl

retry_blocked_syscall-stops_example :
    (is_traced_syscall 56 ≡ true)
    × ((false ≡ false) ⊎ (trapped.si_syscall ≢ tracee.retried_syscall_number))
    × (at_call ≡ record (call 56) { pc = at_call.pc })
    × (at_call.pc + 4 ≡ trapped.si_call_addr)
    × (retried.expect_entry ≡ true)
    × (stops_at_syscall retried ≡ true)
retry_blocked_syscall-stops_example =
    retry_blocked_syscall-stops ptrace trapped (call 56) at_call tracee retried false (omega arith)
      (omega arith) retry_trapped

apply_emulated_syscall_return-set_example :
    let entered = (set_emulated_syscall_return ptrace tracee (call 174) 1000).0 in
    let out = apply_emulated_syscall_return ptrace entered (some (call 172)) in
    (out.0 ≡ true)
    × (out.2 ≡ some (record (call 172) { x0 = 1000 }))
    × ((again : Option Regs)
        → apply_emulated_syscall_return ptrace out.1 again ≡ (false, out.1, again))
apply_emulated_syscall_return-set_example =
    apply_emulated_syscall_return-set ptrace tracee (call 174) (call 172) 1000 (λ r. refl)
      (λ r. refl)

abbrev ping : Regs
ping = record (call sys_socket) { x1 = 0x8_0002 }

rewrite_ping : maybe_rewrite_ping_socket ptrace (call sys_socket) ≡ (true, ping)
unfolding program
rewrite_ping = refl

-- The request of the index of `wlan`.
abbrev request : Bytes
request = codes "wlan"
