-- ===== src/Tracee/Credentials/Privileges.antt =====
-- What a tracee without privileges can make of its ids by the calls of
-- `MaybeEmulateUidGidSyscall`.
use andlify.Common.{
  ℕ, Bool, true, false, List, [], ◌∷◌, ◌≡◌, ◌≢◌, ◌⊎◌, inl, inr, refl, sym, ◌∙◌, arith, Bool-cases,
  Option, none, some, Option-cases,
}
use mathlib.Core.Path.{subst}
use andlify.Tracee.{
  Regs, Ids, TraceeState, Memory, Ptrace, root_uid, u32, sys_getpid, set_emulated_syscall_return,
}
use andlify.Tracee.Credentials.{
  set_id, allowed, set_res_ids, set_fs_id, set_groups, get_groups, write_ids, reply_uid, reply_gid,
  reply_written, UidGidCall, call_of, perform, is_privileged, unchanged_id, getuid, geteuid, getgid,
  getegid, setuid, setgid, setreuid, setresuid, setregid, setresgid, setfsuid, setfsgid, setgroups,
  capset, getresuid, getresgid, getgroups, maybe_emulate_uid_gid_syscall,
}

abbrev pub Among : Ids → ℕ → Type 0
Among old id = (id ≡ old.real) ⊎ (id ≡ old.effective) ⊎ (id ≡ old.saved)

-- The real, effective and saved ids are among those three of before, and so is the file system
-- id, which may also stay.
pub record Within (old new : Ids) : Type 0 where
  pub real : Among old new.real
  pub effective : Among old new.effective
  pub saved : Among old new.saved
  pub fs : Among old new.fs ⊎ (new.fs ≡ old.fs)

pub Within-refl : (ids : Ids) → Within ids ids
Within-refl ids = record {
  real = inl refl;
  effective = inr (inl refl);
  saved = inr (inr refl);
  fs = inr refl;
}

set_id-Within : (id : ℕ) (ids : Ids) {new : Ids} → set_id false id ids ≡ some new → Within ids new
unfolding set_id
set_id-Within id ids h = ground arith

set_res_ids-Within :
    (res : Bool) (real effective saved : ℕ) (ids : Ids) {new : Ids}
    → set_res_ids false res real effective saved ids ≡ some new
    → Within ids new
unfolding set_res_ids allowed
set_res_ids-Within res real effective saved ids h = ground arith

set_fs_id-Within : (id : ℕ) (ids : Ids) → Within ids (set_fs_id false id ids)
unfolding set_fs_id
set_fs_id-Within id ids = ground arith

-- What a call does to the identity of an unprivileged tracee.
pub record Contained (old new : TraceeState) : Type 0 where
  pub uid : Within old.uid new.uid
  pub gid : Within old.gid new.gid
  pub groups : new.supplementary_groups ≡ old.supplementary_groups
  pub flag : new.no_new_privileges ≡ old.no_new_privileges

Contained-refl : (state : TraceeState) → Contained state state
Contained-refl state = record {
  uid = Within-refl state.uid;
  gid = Within-refl state.gid;
  groups = refl;
  flag = refl;
}

reply_uid-Contained :
    {M : Type 0} (state : TraceeState) (m : M) (new : Option Ids)
    → ((ids : Ids) → new ≡ some ids → Within state.uid ids)
    → Contained state (reply_uid state m new).1
unfolding reply_uid
reply_uid-Contained state m none h = Contained-refl state
reply_uid-Contained state m (some ids) h = record {
  uid = h ids refl;
  gid = Within-refl state.gid;
  groups = refl;
  flag = refl;
}

reply_gid-Contained :
    {M : Type 0} (state : TraceeState) (m : M) (new : Option Ids)
    → ((ids : Ids) → new ≡ some ids → Within state.gid ids)
    → Contained state (reply_gid state m new).1
unfolding reply_gid
reply_gid-Contained state m none h = Contained-refl state
reply_gid-Contained state m (some ids) h = record {
  uid = Within-refl state.uid;
  gid = h ids refl;
  groups = refl;
  flag = refl;
}

reply_written-state :
    {M : Type 0} (state : TraceeState) (w : Bool × M) → (reply_written state w).1 ≡ state
unfolding reply_written
reply_written-state state (true, m) = refl
reply_written-state state (false, m) = refl

module _ {M : Type 0} (memory : Memory M) (state : TraceeState) (m : M) where
  set_groups-state :
      (size list : ℕ)
      → state.uid.effective ≢ root_uid
      → (set_groups memory state m size list).1 ≡ state
  unfolding set_groups
  set_groups-state size list h = ground arith

  get_groups-state : (size list : ℕ) → (get_groups memory state m size list).1 ≡ state
  unfolding get_groups
  get_groups-state size list = ground arith

  same_state : {state' : TraceeState} → state' ≡ state → Contained state state'
  same_state e = subst (Contained state) (sym e) (Contained-refl state)

  -- Each case of the switch.
  perform-Contained :
      (call : UidGidCall) (regs : Regs)
      → is_privileged state ≡ false
      → Contained state (perform memory call state regs m).1
  unfolding perform
  perform-Contained getuid regs h = Contained-refl state
  perform-Contained geteuid regs h = Contained-refl state
  perform-Contained getgid regs h = Contained-refl state
  perform-Contained getegid regs h = Contained-refl state
  perform-Contained setuid regs h =
      rw h (reply_uid-Contained state m _ (λ ids. set_id-Within (u32 regs.x0) state.uid))
  perform-Contained setgid regs h =
      rw h (reply_gid-Contained state m _ (λ ids. set_id-Within (u32 regs.x0) state.gid))
  perform-Contained setreuid regs h = rw h (
      reply_uid-Contained state m _
        (λ ids. set_res_ids-Within _ (u32 regs.x0) (u32 regs.x1) unchanged_id state.uid))
  perform-Contained setresuid regs h = rw h (
      reply_uid-Contained state m _
        (λ ids. set_res_ids-Within _ (u32 regs.x0) (u32 regs.x1) (u32 regs.x2) state.uid))
  perform-Contained setregid regs h = rw h (
      reply_gid-Contained state m _
        (λ ids. set_res_ids-Within _ (u32 regs.x0) (u32 regs.x1) unchanged_id state.gid))
  perform-Contained setresgid regs h = rw h (
      reply_gid-Contained state m _
        (λ ids. set_res_ids-Within _ (u32 regs.x0) (u32 regs.x1) (u32 regs.x2) state.gid))
  perform-Contained setfsuid regs h = rw h (record {
    uid = set_fs_id-Within (u32 regs.x0) state.uid;
    gid = Within-refl state.gid;
    groups = refl;
    flag = refl;
  })
  perform-Contained setfsgid regs h = rw h (record {
    uid = Within-refl state.uid;
    gid = set_fs_id-Within (u32 regs.x0) state.gid;
    groups = refl;
    flag = refl;
  })
  perform-Contained setgroups regs h =
      same_state (set_groups-state regs.x0 regs.x1 (unfold is_privileged in ground arith))
  perform-Contained capset regs h = Contained-refl state
  perform-Contained getresuid regs h =
      same_state (reply_written-state state (write_ids memory m regs.x0 regs.x1 regs.x2 state.uid))
  perform-Contained getresgid regs h =
      same_state (reply_written-state state (write_ids memory m regs.x0 regs.x1 regs.x2 state.gid))
  perform-Contained getgroups regs h = same_state (get_groups-state regs.x0 regs.x1)

emulated_return-Contained :
    (ptrace : Ptrace) (old state : TraceeState) (regs : Regs) (value : ℕ)
    → Contained old state
    → Contained old (set_emulated_syscall_return ptrace state regs value).0
unfolding set_emulated_syscall_return
emulated_return-Contained ptrace old state regs value h =
    elim (Bool-cases (ptrace.set_syscall_number (record regs { x8 = sys_getpid }))) [
      | inl e ↦ rw e (record { uid = h.uid; gid = h.gid; groups = h.groups; flag = h.flag })
      | inr e ↦ rw e h
    ]

-- Whatever call a tracee makes that is not of effective user 0: its ids after the call are among
-- those that it had, the file system ids included, and its supplementary groups and its
-- `no_new_privileges` are unchanged.
pub maybe_emulate_uid_gid_syscall-Contained :
    {M : Type 0} (memory : Memory M) (ptrace : Ptrace) (state : TraceeState) (regs : Regs) (m : M)
    → state.uid.effective ≢ root_uid
    → Contained state (maybe_emulate_uid_gid_syscall memory ptrace state regs m).1
unfolding maybe_emulate_uid_gid_syscall
maybe_emulate_uid_gid_syscall-Contained memory ptrace state regs m h =
    elim (Option-cases (call_of regs.x8)) [
      | inl e ↦ rw (e, maybe_emulate_uid_gid_syscall) (Contained-refl state)
      | inr (call, e) ↦
          let r = perform memory call state regs m in
          rw (e, maybe_emulate_uid_gid_syscall)
            (emulated_return-Contained ptrace state r.1 regs r.0
              (perform-Contained memory state m call regs (unfold is_privileged in ground arith)))
    ]

-- Calls one after another, each in the state and the memory that the one before left.
pub run_uid_gid_calls : {M : Type 0} → Memory M → Ptrace → TraceeState → M → List Regs → TraceeState
run_uid_gid_calls memory ptrace state m [] = state
run_uid_gid_calls memory ptrace state m (regs ∷ calls) =
    let (handled, state', regs', m') = maybe_emulate_uid_gid_syscall memory ptrace state regs m in
    run_uid_gid_calls memory ptrace state' m' calls

-- No user id of the tracee is root's.
pub record IsDropped (state : TraceeState) : Type 0 where
  pub real : state.uid.real ≢ root_uid
  pub effective : state.uid.effective ≢ root_uid
  pub saved : state.uid.saved ≢ root_uid
  pub fs : state.uid.fs ≢ root_uid

Contained-IsDropped : {old new : TraceeState} → Contained old new → IsDropped old → IsDropped new
Contained-IsDropped h d = ground (arith, h.uid, d)

-- Privileges that are dropped are gone: a tracee none of whose user ids is 0 has none that is 0
-- after any sequence of identity calls, and its supplementary groups and its `no_new_privileges` are
-- still those that it had.
pub run_uid_gid_calls-IsDropped :
    {M : Type 0} (memory : Memory M) (ptrace : Ptrace) (state : TraceeState) (m : M)
    (calls : List Regs)
    → IsDropped state
    → let after = run_uid_gid_calls memory ptrace state m calls in
      IsDropped after
      × (after.supplementary_groups ≡ state.supplementary_groups)
      × (after.no_new_privileges ≡ state.no_new_privileges)
unfolding run_uid_gid_calls
run_uid_gid_calls-IsDropped memory ptrace state m [] d = (d, refl, refl)
run_uid_gid_calls-IsDropped memory ptrace state m (regs ∷ calls) d =
    let h = maybe_emulate_uid_gid_syscall-Contained memory ptrace state regs m d.effective in
    let out = maybe_emulate_uid_gid_syscall memory ptrace state regs m in
    let (ih, g, f) =
      run_uid_gid_calls-IsDropped memory ptrace out.1 out.3 calls (Contained-IsDropped h d) in
    (ih, g ∙ h.groups, f ∙ h.flag)
