-- ===== src/Permissions/Calls/Checks.antt =====
-- What the last checks of a call answer, and why.
use andlify.Common.{
  ℕ, Bool, true, false, not, ◌&&◌, ◌≡◌, ◌≢◌, ◌⊎◌, inl, inr, refl, ap, arith, Bool-cases, ◌==◌, some,
}
use andlify.Tracee.{Regs}
use andlify.Ownership.{FileOwner}
use andlify.Permissions.{FileCredentials, access_allowed, x_ok, w_ok, eperm, eacces}
use andlify.Permissions.Change.{Outcome, proceeds, fails}
use andlify.Permissions.Calls.{
  FileCall, needed, is_utimensat, check_needed, check_call, openat, utimensat, setxattr, lsetxattr,
  removexattr, lremovexattr, truncate, ftruncate, chdir, fchdir, execve, execveat,
}

-- A condition on a call's owner: root, or the same user.
abbrev pub IsOwner : FileCredentials → FileOwner → Type 0
IsOwner c owner = (c.uid ≡ 0) ⊎ (c.uid ≡ owner.uid)

-- The calls that search a directory or run a file.
pub runs : FileCall → Bool
runs chdir = true
runs fchdir = true
runs execve = true
runs execveat = true
runs _ = false

-- The calls that write a file or its attributes.
pub writes : FileCall → Bool
writes truncate = true
writes ftruncate = true
writes setxattr = true
writes lsetxattr = true
writes removexattr = true
writes lremovexattr = true
writes _ = false

-- The caller may do with the file what the call does.
abbrev pub IsGranted : FileCall → Regs → FileCredentials → FileOwner → Type 0
IsGranted call a c owner =
    (runs call ≡ true → access_allowed owner c x_ok ≡ true)
    × (writes call ≡ true → access_allowed owner c w_ok ≡ true)
    × (call ≡ utimensat → IsOwner c owner ⊎ (a.x2 ≡ 0) × (access_allowed owner c w_ok ≡ true))

-- What the check answers, and why.
pub data IsChecked {S : Type 0} (s : S) (call : FileCall) (a : Regs) (c : FileCredentials)
    (owner : FileOwner) : Outcome S → Type 0 where
  granted : IsGranted call a c owner → IsChecked s call a c owner (proceeds s)
  no_right :
      ¬ (IsGranted call a c owner)
      → (call ≡ utimensat → IsOwner c owner ⊎ (a.x2 ≡ 0))
      → IsChecked s call a c owner (fails eacces s)
  not_owner :
      call ≡ utimensat → ¬ (IsOwner c owner) → a.x2 ≢ 0 → IsChecked s call a c owner (fails eperm s)

not_both : {b : Bool} → b ≡ true → b ≡ false → ⊥
not_both h k = ground arith

needed-runs : (call : FileCall) → runs call ≡ true → needed call ≡ x_ok
unfolding runs needed
needed-runs chdir h = refl
needed-runs fchdir h = refl
needed-runs execve h = refl
needed-runs execveat h = refl
needed-runs _ h = absurd (ground arith)

needed-writes : (call : FileCall) → writes call ≡ true → needed call ≡ w_ok
unfolding writes needed
needed-writes truncate h = refl
needed-writes ftruncate h = refl
needed-writes setxattr h = refl
needed-writes lsetxattr h = refl
needed-writes removexattr h = refl
needed-writes lremovexattr h = refl
needed-writes _ h = absurd (ground arith)

needed_else : (call : FileCall) → runs call ≡ false → writes call ≡ false → needed call ≡ 0
unfolding runs writes needed
needed_else chdir h k = absurd (ground arith)
needed_else truncate h k = absurd (ground arith)
needed_else openat h k = refl
needed_else _ h k = ground arith

-- The call that sets times neither runs nor writes.
times_only :
    (call : FileCall)
    → is_utimensat call ≡ true
    → (call ≡ utimensat) × (runs call ≡ false) × (writes call ≡ false)
unfolding runs writes
times_only utimensat h = (refl, refl, refl)
times_only _ h = absurd (ground arith)

is_utimensat-of : {call : FileCall} → call ≡ utimensat → is_utimensat call ≡ true
is_utimensat-of e = ap is_utimensat e

runs_only : (call : FileCall) → runs call ≡ true → writes call ≡ false
unfolding runs writes
runs_only chdir h = refl
runs_only truncate h = absurd (ground arith)
runs_only _ h = ground arith

module _ {S : Type 0} (s : S) (a : Regs) (c : FileCredentials) (owner : FileOwner) where
  -- With a mask that is not 0, the answer is by the rights alone.
  check_needed-IsChecked :
      (call : FileCall) (mask : ℕ)
      → mask ≢ 0
      → (access_allowed owner c mask ≡ true → IsGranted call a c owner)
      → (IsGranted call a c owner → access_allowed owner c mask ≡ true)
      → (call ≡ utimensat → IsOwner c owner ⊎ (a.x2 ≡ 0))
      → IsChecked s call a c owner (check_needed s owner c mask)
  unfolding check_needed
  check_needed-IsChecked call mask n to from times =
      let some_mask : (mask == 0) ≡ false = ground arith in
      elim (Bool-cases (access_allowed owner c mask)) [
        | inl e ↦ rw (some_mask, e) (granted (to e))
        | inr e ↦ rw (some_mask, e) (no_right (λ g. absurd (not_both (from g) e)) times)
      ]

  not_times-IsChecked :
      (call : FileCall)
      → (call ≡ utimensat → IsOwner c owner)
      → IsChecked s call a c owner (check_needed s owner c (needed call))
  not_times-IsChecked call times = elim (Bool-cases (runs call)) [
    | inl r ↦
        let quiet : writes call ≡ false = runs_only call r in
        rw (needed-runs call r) (
          check_needed-IsChecked call x_ok (ground arith)
            (λ e. (λ h. e, λ h. absurd (not_both h quiet), λ h. inl (times h))) (λ g. g.0 r)
            (λ h. inl (times h)))
    | inr r ↦ elim (Bool-cases (writes call)) [
      | inl w ↦ rw (needed-writes call w) (
          check_needed-IsChecked call w_ok (ground arith)
            (λ e. (λ h. absurd (not_both h r), λ h. e, λ h. inl (times h))) (λ g. g.1 w)
            (λ h. inl (times h)))
      | inr w ↦ rw (needed_else call r w) (
          unfold check_needed in
          granted (λ h. absurd (not_both h r), λ h. absurd (not_both h w), λ h. inl (times h)))
    ]
  ]

  -- A call on a file of the store that comes to the last checks is left to the kernel where the
  -- caller has the rights for it, to search or run for `chdir`, `fchdir`, `execve` and `execveat`,
  -- to write for `truncate`, `ftruncate` and the changes of attributes, and for `utimensat` where
  -- it is root or the owner, or sets the present time and may write; without them it fails with
  -- EACCES, and with EPERM a `utimensat` of a given time by another user than root and the owner.
  pub check_call-IsChecked :
      (call : FileCall) → IsChecked s call a c owner (check_call s call a c (some owner))
  unfolding check_call
  check_call-IsChecked call =
      elim (Bool-cases (is_utimensat call && not (c.uid == 0) && not (c.uid == owner.uid))) [
        | inr other ↦ rw other (not_times-IsChecked call (λ e. owner_is (is_utimensat-of e) other))
        | inl times ↦
            let (same, quiet, calm) = times_only call (ground arith) in
            let stranger : ¬ (IsOwner c owner) = λ o. absurd (strange o times) in
            rw times (elim (Bool-cases (a.x2 == 0)) [
              | inr given ↦ rw given (not_owner same stranger (ground arith))
              | inl now ↦ rw now (
                  check_needed-IsChecked call w_ok (ground arith)
                    (λ e. (
                      λ h. absurd (not_both h quiet),
                      λ h. absurd (not_both h calm),
                      λ h. inr (ground arith, e),
                    ))
                    (λ g. elim (g.2 same) [ inl o ↦ absurd (stranger o) | inr (z, e) ↦ e ])
                    (λ h. inr (ground arith)))
            ])
      ]
    where
      owner_is :
          is_utimensat call ≡ true
          → (is_utimensat call && not (c.uid == 0) && not (c.uid == owner.uid)) ≡ false
          → IsOwner c owner
      owner_is t h = elim (Bool-cases (c.uid == 0)) [
        | inl z ↦ inl (ground arith)
        | inr z ↦ inr (ground arith)
      ]

      strange :
          IsOwner c owner
          → (is_utimensat call && not (c.uid == 0) && not (c.uid == owner.uid)) ≡ true
          → ⊥
      strange o h = ground arith
