-- ===== src/Examples/Registry.antt =====
-- The process table of library/src/main/cpp/ownership/ownership_store.cpp with one process.
use andlify.Common.{none, some, ◌≡◌, refl, arith, if◌then◌else◌, ◌==◌}
use andlify.Ownership.Processes.{
  ProcessOwner, Processes, write_process, choose_from, note_unused, register_process,
  lookup_process, forget_process,
}
use andlify.Ownership.Processes.Laws.{
  IsRegistry, empty-IsRegistry, lookup_process-register, lookup_process-forget,
}

abbrev no_process : ProcessOwner
no_process = record {
  pid = 0;
  real_uid = 1000;
  effective_uid = 1000;
  real_gid = 1000;
  effective_gid = 1000;
  start_time = 0;
}

abbrev shell : ProcessOwner
shell = record no_process { pid = 4242; effective_uid = 0 }

abbrev registered : Processes
registered = write_process (λ _. no_process) 4242 (record shell { start_time = 77 })

shell-registered : register_process (λ _. no_process) shell 77 ≡ some registered
unfolding register_process choose_from note_unused
shell-registered = refl

lookup_process-register_example :
    IsRegistry registered
    × (lookup_process registered 4242 77 ≡ (
        if 4242 == shell.pid
        then (if 77 == 77 then some (record shell { start_time = 77 }) else none)
        else lookup_process (λ _. no_process) 4242 77))
lookup_process-register_example =
    lookup_process-register (λ _. no_process) registered shell 77 4242 77
      (empty-IsRegistry no_process refl) refl shell-registered (ground arith) (omega arith)

registered-IsRegistry : IsRegistry registered
registered-IsRegistry =
    (lookup_process-register (λ _. no_process) registered shell 77 4242 77
      (empty-IsRegistry no_process refl) refl shell-registered (ground arith) (omega arith)).0

lookup_process-forget_example :
    IsRegistry (forget_process registered 4242)
    × (lookup_process (forget_process registered 4242) 4242 77
        ≡ (if 4242 == 4242 then none else lookup_process registered 4242 77))
lookup_process-forget_example =
    lookup_process-forget registered 4242 4242 77 registered-IsRegistry (ground arith) (omega arith)
      (ground arith) (omega arith)
