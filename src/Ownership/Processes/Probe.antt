-- ===== src/Ownership/Processes/Probe.antt =====
-- Where the loops over the process table stop, and how a write moves that.
use andlify.Common.{
  ℕ, zero, suc, true, false, ◌≡◌, ◌≢◌, inl, inr, refl, ap, arith, ◌==◌, Option, none, some,
  Bool-cases,
}
use andlify.Ownership.Processes.{
  ProcessOwner, Processes, is_unused, next_process, write_process, choose_from, find_from,
  note_unused,
}

-- A slot that is found holds the process.
pub find_from-pid :
    (n index : ℕ) (processes : Processes) (pid i : ℕ)
    → find_from n index processes pid ≡ some i
    → (processes i).pid ≡ pid
unfolding find_from
find_from-pid zero index processes pid i h = absurd (ground arith)
find_from-pid (suc n) index processes pid i h =
    ground (arith, find_from-pid n (next_process index) processes pid i)

-- A process is still found after a write elsewhere that leaves no slot free.
pub find_from-write_other :
    (n index : ℕ) (processes : Processes) (pid i p : ℕ) (process : ProcessOwner)
    → find_from n index processes pid ≡ some i
    → p ≢ i
    → process.pid ≢ 0
    → process.pid ≢ pid
    → find_from n index (write_process processes p process) pid ≡ some i
unfolding find_from
find_from-write_other zero index processes pid i p process h a b c = absurd (ground arith)
find_from-write_other (suc n) index processes pid i p process h a b c =
    elim (Bool-cases (index == p)) [
      | inl e ↦
          ground (arith, find_from-write_other n (next_process index) processes pid i p process)
      | inr e ↦
          ground (arith, find_from-write_other n (next_process index) processes pid i p process)
    ]

-- And after a write to its own slot.
pub find_from-write_self :
    (n index : ℕ) (processes : Processes) (p : ℕ) (process : ProcessOwner)
    → process.pid ≢ 0
    → find_from n index processes process.pid ≡ some p
    → find_from n index (write_process processes p process) process.pid ≡ some p
unfolding find_from
find_from-write_self zero index processes p process k h = absurd (ground arith)
find_from-write_self (suc n) index processes p process k h = elim (Bool-cases (index == p)) [
  | inl e ↦
      let at : index ≡ p = ground arith in
      let used : (process.pid == 0) ≡ false = ground arith in
      let self : (process.pid == process.pid) ≡ true = ground arith in
      rw (e, used, self) (ap some at)
  | inr e ↦ rw e (ground (arith, find_from-write_self n (next_process index) processes p process k))
]

-- A slot that has been chosen before is taken unless the process is found.
pub choose_from-some :
    (n index : ℕ) (processes : Processes) (pid q : ℕ)
    → pid ≢ 0
    → find_from n index processes pid ≡ none
    → choose_from n index processes pid (some q) ≡ some q
unfolding find_from choose_from note_unused
choose_from-some zero index processes pid q h e = refl
choose_from-some (suc n) index processes pid q h e =
    ground (arith, choose_from-some n (next_process index) processes pid q h)

pub choose_from-found :
    (n index : ℕ) (processes : Processes) (pid i : ℕ) (free : Option ℕ)
    → find_from n index processes pid ≡ some i
    → choose_from n index processes pid free ≡ some i
unfolding find_from choose_from note_unused
choose_from-found zero index processes pid i free e = absurd (ground arith)
choose_from-found (suc n) index processes pid i none e =
    elim (Bool-cases (is_unused (processes index))) [
      | inl u ↦
          ground (arith, choose_from-found n (next_process index) processes pid i (some index))
      | inr u ↦ ground (arith, choose_from-found n (next_process index) processes pid i none)
    ]
choose_from-found (suc n) index processes pid i (some q) e =
    ground (arith, choose_from-found n (next_process index) processes pid i (some q))

-- The slot that is chosen for a process that is not found cannot hold another one.
pub choose_from-is_unused :
    (n index : ℕ) (processes : Processes) (pid p : ℕ)
    → pid ≢ 0
    → find_from n index processes pid ≡ none
    → choose_from n index processes pid none ≡ some p
    → is_unused (processes p) ≡ true
unfolding find_from choose_from note_unused
choose_from-is_unused zero index processes pid p h e c = absurd (ground arith)
choose_from-is_unused (suc n) index processes pid p h e c =
    elim (Bool-cases (is_unused (processes index))) [
      | inl u ↦ ground (arith, choose_from-some n (next_process index) processes pid index h)
      | inr u ↦ ground (arith, choose_from-is_unused n (next_process index) processes pid p h)
    ]

-- A process that was not found is found where it is written.
pub find_from-write_chosen :
    (n index : ℕ) (processes : Processes) (p : ℕ) (process : ProcessOwner)
    → is_unused process ≡ false
    → find_from n index processes process.pid ≡ none
    → choose_from n index processes process.pid none ≡ some p
    → is_unused (processes p) ≡ true
    → find_from n index (write_process processes p process) process.pid ≡ some p
unfolding find_from choose_from note_unused
find_from-write_chosen zero index processes p process h e c f = absurd (ground arith)
find_from-write_chosen (suc n) index processes p process h e c f = elim (Bool-cases (index == p)) [
  | inl s ↦
      let at : index ≡ p = ground arith in
      let used : (process.pid == 0) ≡ false = ground arith in
      let self : (process.pid == process.pid) ≡ true = ground arith in
      rw (s, used, self) (ap some at)
  | inr s ↦ rw s (elim (Bool-cases (is_unused (processes index))) [
    | inl u ↦ ground (arith, choose_from-some n (next_process index) processes process.pid index)
    | inr u ↦ ground (arith, find_from-write_chosen n (next_process index) processes p process)
  ])
]
