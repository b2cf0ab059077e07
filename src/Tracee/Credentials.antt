-- ===== src/Tracee/Credentials.antt =====
-- `MaybeEmulateUidGidSyscall`: the identity of a tracee, and the calls that read and change it.
pub mod Privileges
pub mod Groups
use andlify.Common.{
  ℕ, zero, suc, ◌+◌, ◌*◌, ◌/◌, ◌%◌, ◌^◌, Bool, true, false, not, ◌&&◌, ◌||◌, List, [], ◌∷◌, ◌++◌,
  if◌then◌else◌, ◌==◌, ltb, Option, none, some, length,
}
use andlify.Common.Bytes.{Bytes}
use andlify.Tracee.{
  Regs, Ids, TraceeState, Memory, Ptrace, negated, eperm, efault, einval, root_uid, u32,
  set_emulated_syscall_return,
}

-- `kUnchangedId`
abbrev pub unchanged_id : ℕ
unchanged_id = 0xffff_ffff

abbrev pub max_supplementary_groups : ℕ
max_supplementary_groups = 65536

-- The syscall numbers of AArch64.
abbrev pub sys_getuid : ℕ
sys_getuid = 174

abbrev pub sys_geteuid : ℕ
sys_geteuid = 175

abbrev pub sys_getgid : ℕ
sys_getgid = 176

abbrev pub sys_getegid : ℕ
sys_getegid = 177

abbrev pub sys_setregid : ℕ
sys_setregid = 143

abbrev pub sys_setgid : ℕ
sys_setgid = 144

abbrev pub sys_setreuid : ℕ
sys_setreuid = 145

abbrev pub sys_setuid : ℕ
sys_setuid = 146

abbrev pub sys_setresuid : ℕ
sys_setresuid = 147

abbrev pub sys_getresuid : ℕ
sys_getresuid = 148

abbrev pub sys_setresgid : ℕ
sys_setresgid = 149

abbrev pub sys_getresgid : ℕ
sys_getresgid = 150

abbrev pub sys_setfsuid : ℕ
sys_setfsuid = 151

abbrev pub sys_setfsgid : ℕ
sys_setfsgid = 152

abbrev pub sys_getgroups : ℕ
sys_getgroups = 158

abbrev pub sys_setgroups : ℕ
sys_setgroups = 159

abbrev pub sys_capset : ℕ
sys_capset = 91

-- `kSysSetuid`, `kSysSetgid`; `none` is EPERM.
unfoldable pub set_id : Bool → ℕ → Ids → Option Ids
set_id privileged id ids =
    if privileged
    then some (record { real = id; effective = id; saved = id; fs = id })
    else if not (id == ids.real) && not (id == ids.saved)
    then none
    else some (record ids { effective = id; fs = id })

-- The lambda `allowed`.
unfoldable pub allowed : Bool → Ids → ℕ → Bool
allowed privileged ids id =
    id == unchanged_id || privileged || id == ids.real || id == ids.effective || id == ids.saved

abbrev or_unchanged : ℕ → ℕ → ℕ
or_unchanged new old = if not (new == unchanged_id) then new else old

-- `kSysSetreuid` and `kSysSetresuid`, `kSysSetregid` and `kSysSetresgid`; the `res` calls are those
-- with a third argument.
unfoldable pub set_res_ids : Bool → Bool → ℕ → ℕ → ℕ → Ids → Option Ids
set_res_ids privileged res real effective saved ids =
    if not (allowed privileged ids real)
      || not (allowed privileged ids effective)
      || not (allowed privileged ids saved)
    then none
    else let effective' = or_unchanged effective ids.effective in
      some (record {
        real = or_unchanged real ids.real;
        effective = effective';
        saved =
            if not (saved == unchanged_id)
            then saved
            else if not res && (not (real == unchanged_id) || not (effective == unchanged_id))
            then effective'
            else ids.saved;
        fs = or_unchanged effective ids.fs;
      })

-- `kSysSetfsuid`, `kSysSetfsgid`: a refusal is silent.
unfoldable pub set_fs_id : Bool → ℕ → Ids → Ids
set_fs_id privileged id ids =
    if privileged || id == ids.real || id == ids.effective || id == ids.saved || id == ids.fs
    then record ids { fs = id }
    else ids

-- The bytes of a `uint32_t` and of an array of them in memory.
unfoldable pub bytes_of_id : ℕ → Bytes
bytes_of_id id = id % 256 ∷ id / 256 % 256 ∷ id / 65536 % 256 ∷ id / 16777216 % 256 ∷ []

unfoldable pub bytes_of_ids : List ℕ → Bytes
bytes_of_ids [] = []
bytes_of_ids (id ∷ ids) = bytes_of_id id ++ bytes_of_ids ids

unfoldable pub ids_of_bytes : Bytes → List ℕ
ids_of_bytes (a ∷ b ∷ c ∷ d ∷ rest) = (a + 256 * b + 65536 * c + 16777216 * d) ∷ ids_of_bytes rest
ids_of_bytes _ = []

-- What a call returns, and the state and the memory that it leaves.
abbrev pub Reply : Type 0 → Type 0
Reply M = ℕ × TraceeState × M

module _ {M : Type 0} (memory : Memory M) where
  -- The three writes of `getresuid`, each made only after the one before.
  unfoldable pub write_ids : M → ℕ → ℕ → ℕ → Ids → Bool × M
  write_ids m x0 x1 x2 ids =
      let (ok, m₁) = memory.write m x0 (bytes_of_id ids.real) in
      if not ok
      then (false, m₁)
      else let (ok₂, m₂) = memory.write m₁ x1 (bytes_of_id ids.effective) in
        if not ok₂ then (false, m₂) else memory.write m₂ x2 (bytes_of_id ids.saved)

  unfoldable pub set_groups : TraceeState → M → ℕ → ℕ → Reply M
  set_groups state m size list =
      if not (state.uid.effective == root_uid)
      then (negated eperm, state, m)
      else if ltb max_supplementary_groups size
      then (negated einval, state, m)
      else if size == 0
      then (0, record state { supplementary_groups = [] }, m)
      else if list == 0
      then (negated efault, state, m)
      else elim (memory.read m list (size * 4)) [
        | none ↦ (negated efault, state, m)
        | some bytes ↦ (0, record state { supplementary_groups = ids_of_bytes bytes }, m)
      ]

  unfoldable pub get_groups : TraceeState → M → ℕ → ℕ → Reply M
  get_groups state m size list =
      let groups = state.supplementary_groups in
      if size == 0
      then (length groups, state, m)
      else if ltb size (length groups)
      then (negated einval, state, m)
      else if length groups == 0
      then (0, state, m)
      else if list == 0
      then (negated efault, state, m)
      else let (ok, m') = memory.write m list (bytes_of_ids groups) in
        if ok then (length groups, state, m') else (negated efault, state, m')

-- `state->effective_uid == kRootUid`
unfoldable pub is_privileged : TraceeState → Bool
is_privileged state = state.uid.effective == root_uid

-- A change of ids that may be refused.
unfoldable pub reply_uid : {M : Type 0} → TraceeState → M → Option Ids → Reply M
reply_uid state m none = (negated eperm, state, m)
reply_uid state m (some ids) = (0, record state { uid = ids }, m)

unfoldable pub reply_gid : {M : Type 0} → TraceeState → M → Option Ids → Reply M
reply_gid state m none = (negated eperm, state, m)
reply_gid state m (some ids) = (0, record state { gid = ids }, m)

unfoldable pub reply_written : {M : Type 0} → TraceeState → Bool × M → Reply M
reply_written state (true, m) = (0, state, m)
reply_written state (false, m) = (negated efault, state, m)

-- The cases of the switch.
pub data UidGidCall : Type 0 where
  getuid geteuid getgid getegid setuid setgid setreuid setresuid setregid setresgid setfsuid
        setfsgid setgroups capset getresuid getresgid getgroups :
      UidGidCall

-- The switch's choice by the syscall number; `none` is the default, which leaves the call to others.
unfoldable pub call_of : ℕ → Option UidGidCall
call_of n =
    if n == sys_getuid
    then some getuid
    else if n == sys_geteuid
    then some geteuid
    else if n == sys_getgid
    then some getgid
    else if n == sys_getegid
    then some getegid
    else if n == sys_setuid
    then some setuid
    else if n == sys_setgid
    then some setgid
    else if n == sys_setreuid
    then some setreuid
    else if n == sys_setresuid
    then some setresuid
    else if n == sys_setregid
    then some setregid
    else if n == sys_setresgid
    then some setresgid
    else if n == sys_setfsuid
    then some setfsuid
    else if n == sys_setfsgid
    then some setfsgid
    else if n == sys_setgroups
    then some setgroups
    else if n == sys_capset
    then some capset
    else if n == sys_getresuid
    then some getresuid
    else if n == sys_getresgid
    then some getresgid
    else if n == sys_getgroups
    then some getgroups
    else none

module _ {M : Type 0} (memory : Memory M) where
  -- The body of each case: the state and the memory that it leaves, and the value that it returns.
  unfoldable pub perform : UidGidCall → TraceeState → Regs → M → Reply M
  perform getuid state regs m = (state.uid.real, state, m)
  perform geteuid state regs m = (state.uid.effective, state, m)
  perform getgid state regs m = (state.gid.real, state, m)
  perform getegid state regs m = (state.gid.effective, state, m)
  perform setuid state regs m =
      reply_uid state m (set_id (is_privileged state) (u32 regs.x0) state.uid)
  perform setgid state regs m =
      reply_gid state m (set_id (is_privileged state) (u32 regs.x0) state.gid)
  perform setreuid state regs m =
      reply_uid state m
        (set_res_ids (is_privileged state) false (u32 regs.x0) (u32 regs.x1) unchanged_id state.uid)
  perform setresuid state regs m =
      reply_uid state m
        (set_res_ids (is_privileged state) true (u32 regs.x0) (u32 regs.x1) (u32 regs.x2) state.uid)
  perform setregid state regs m =
      reply_gid state m
        (set_res_ids (is_privileged state) false (u32 regs.x0) (u32 regs.x1) unchanged_id state.gid)
  perform setresgid state regs m =
      reply_gid state m
        (set_res_ids (is_privileged state) true (u32 regs.x0) (u32 regs.x1) (u32 regs.x2) state.gid)
  perform setfsuid state regs m = (
    state.uid.fs,
    record state { uid = set_fs_id (is_privileged state) (u32 regs.x0) state.uid },
    m,
  )
  perform setfsgid state regs m = (
    state.gid.fs,
    record state { gid = set_fs_id (is_privileged state) (u32 regs.x0) state.gid },
    m,
  )
  perform setgroups state regs m = set_groups memory state m regs.x0 regs.x1
  perform capset state regs m = (0, state, m)
  perform getresuid state regs m =
      reply_written state (write_ids memory m regs.x0 regs.x1 regs.x2 state.uid)
  perform getresgid state regs m =
      reply_written state (write_ids memory m regs.x0 regs.x1 regs.x2 state.gid)
  perform getgroups state regs m = get_groups memory state m regs.x0 regs.x1

  -- Whether the call is answered here, with the state, the registers and the memory that are left.
  unfoldable pub maybe_emulate_uid_gid_syscall :
      Ptrace → TraceeState → Regs → M → Bool × TraceeState × Regs × M
  maybe_emulate_uid_gid_syscall ptrace state regs m = elim (call_of regs.x8) [
    | none ↦ (false, state, regs, m)
    | some call ↦
        let (value, state', m') = perform call state regs m in
        let (state'', regs') = set_emulated_syscall_return ptrace state' regs value in
        (true, state'', regs', m')
  ]
