-- ===== src/Ownership/Processes/Laws.antt =====
-- The process table as a map from a process id to what is registered of it.
use andlify.Common.{
  ℕ, ◌%◌, ◌^◌, ◌<◌, true, false, ◌≡◌, ◌≢◌, ◌⊎◌, inl, inr, refl, sym, ap, ◌∙◌, arith, if◌then◌else◌,
  ◌==◌, none, some, Bool-cases, Option-cases,
}
use mathlib.Core.Path.{subst}
use andlify.Ownership.Processes.{
  ProcessOwner, Processes, max_processes, forgotten, is_unused, write_process, choose_from,
  find_from, find_process, register_process, lookup_process, forget_process,
}
use andlify.Ownership.Processes.Probe.{
  find_from-pid, find_from-write_other, find_from-write_self, choose_from-found,
  choose_from-is_unused, find_from-write_chosen,
}

-- Every process that a slot holds is found there.
abbrev pub IsRegistry : Processes → Type 0
IsRegistry processes =
    (i : ℕ) → (is_unused (processes i) ≡ true) ⊎ (find_process processes (processes i).pid ≡ some i)

find_process-pid :
    (processes : Processes) (pid i : ℕ)
    → find_process processes pid ≡ some i
    → (processes i).pid ≡ pid
unfolding find_process
find_process-pid processes pid i h =
    find_from-pid max_processes (pid % max_processes) processes pid i h

-- A used slot with the id of a process is the one where that is found.
used_slot :
    (processes : Processes) (i pid : ℕ)
    → IsRegistry processes
    → is_unused (processes i) ≡ false
    → (processes i).pid ≡ pid
    → find_process processes pid ≡ some i
used_slot processes i pid h u e = elim (h i) [
  | inl v ↦ absurd (ground arith)
  | inr f ↦ ap (find_process processes) (sym e) ∙ f
]

some_eq : (i j : ℕ) → some i ≡ some j → i ≡ j
some_eq i j e = ground arith

-- A write of a process, or of the mark of one that is forgotten, where no other slot holds the process.
module _ (processes : Processes) (p : ℕ) (process : ProcessOwner) (h : IsRegistry processes)
    (nonzero : process.pid ≢ 0)
    (alone : (i : ℕ) → i ≢ p → (is_unused (processes i) ≡ true) ⊎ ((processes i).pid ≢ process.pid))
    (found : (is_unused process ≡ true)
      ⊎ (find_process (write_process processes p process) process.pid ≡ some p)) where
  -- Another process that is found is found at the same place.
  find_process-write_other :
      (pid i : ℕ)
      → find_process processes pid ≡ some i
      → p ≢ i
      → process.pid ≢ pid
      → find_process (write_process processes p process) pid ≡ some i
  unfolding find_process
  find_process-write_other pid i e a b =
      find_from-write_other max_processes (pid % max_processes) processes pid i p process e a
        nonzero b

  write_process-IsRegistry : IsRegistry (write_process processes p process)
  write_process-IsRegistry i = elim (Bool-cases (i == p)) [
    | inl e ↦
        let at : i ≡ p = ground arith in
        rw e (elim found [ inl u ↦ inl u | inr f ↦ inr (f ∙ ap some (sym at)) ])
    | inr e ↦ rw e (elim (h i) [
      | inl u ↦ inl u
      | inr f ↦ elim (alone i (ground arith)) [
        | inl u ↦ inl u
        | inr other ↦
            inr (find_process-write_other (processes i).pid i f (ground arith) (λ k. other (sym k)))
      ]
    ])
  ]

  kept_slot : (i : ℕ) → i ≢ p → write_process processes p process i ≡ processes i
  kept_slot i e = let test : (i == p) ≡ false = ground arith in rw test refl

  -- What is known of another process stays.
  lookup_process-write_other :
      (pid start : ℕ)
      → pid ≢ 0
      → pid < 2 ^ 31
      → process.pid ≢ pid
      → (is_unused (processes p) ≡ true) ⊎ ((processes p).pid ≢ pid)
      → lookup_process (write_process processes p process) pid start
        ≡ lookup_process processes pid start
  unfolding lookup_process
  lookup_process-write_other pid start n lt other at =
      elim (Option-cases (find_process processes pid)) [
        | inr (i, e) ↦
            let held = find_process-pid processes pid i e in
            let apart : i ≢ p = λ k. elim at [
              | inl u ↦ absurd (ground (arith, ap (λ (x : ℕ). is_unused (processes x)) k))
              | inr o ↦ o (ap (λ (x : ℕ). (processes x).pid) (sym k) ∙ held)
            ] in
            let e' = find_process-write_other pid i e (λ k. apart (sym k)) other in
            let same = kept_slot i apart in rw (e, e', lookup_process, same) refl
        | inl e ↦ elim (Option-cases (find_process (write_process processes p process) pid)) [
          | inl e' ↦ rw (e, e', lookup_process) refl
          | inr (k, e') ↦
              let held = find_process-pid (write_process processes p process) pid k e' in
              absurd (elim (Bool-cases (k == p)) [
                | inl same ↦ other (mine k same held)
                | inr apart ↦
                    let held' : (processes k).pid ≡ pid =
                      ap (λ (x : ProcessOwner). x.pid) (sym (kept_slot k (ground arith))) ∙ held in
                    let used : is_unused (processes k) ≡ false = ground arith in
                    clash k (used_slot processes k pid h used held') e
              ])
        ]
      ]
    where
      mine :
          (k : ℕ)
          → (k == p) ≡ true
          → (write_process processes p process k).pid ≡ pid
          → process.pid ≡ pid
      mine k same = rw same (λ e. e)

      clash : (k : ℕ) → find_process processes pid ≡ some k → find_process processes pid ≡ none → ⊥
      clash k a b = ground arith

module _ (processes : Processes) (process : ProcessOwner) (h : IsRegistry processes)
    (used : is_unused process ≡ false) where
  -- The slot that `RegisterProcess` takes.
  chosen_lem :
      (p : ℕ)
      → choose_from max_processes (process.pid % max_processes) processes process.pid none ≡ some p
      → ((i : ℕ) → i ≢ p → (is_unused (processes i) ≡ true) ⊎ ((processes i).pid ≢ process.pid))
        × (find_process (write_process processes p process) process.pid ≡ some p)
        × ((is_unused (processes p) ≡ true) ⊎ ((processes p).pid ≡ process.pid))
  unfolding find_process
  chosen_lem p c =
      let start = process.pid % max_processes in
      elim (Option-cases (find_from max_processes start processes process.pid)) [
        | inr (i, e) ↦
            let same =
              some_eq i p
                (sym (choose_from-found max_processes start processes process.pid i none e) ∙ c) in
            let e' : find_process processes process.pid ≡ some p = e ∙ ap some same in
            (
              only p e',
              find_from-write_self max_processes start processes p process (ground arith)
                  (e ∙ ap some same),
              inr (find_process-pid processes process.pid p e'),
            )
        | inl e ↦
            let free =
              choose_from-is_unused max_processes start processes process.pid p (ground arith) e
                c in
            (
              λ i k. elim (Bool-cases (is_unused (processes i))) [
                | inl u ↦ inl u
                | inr u ↦ inr (λ same. gone i (used_slot processes i process.pid h u same) e)
              ],
              find_from-write_chosen max_processes start processes p process used e c free,
              inl free,
            )
      ]
    where
      only :
          (p : ℕ)
          → find_process processes process.pid ≡ some p
          → (i : ℕ) → i ≢ p
          → (is_unused (processes i) ≡ true) ⊎ ((processes i).pid ≢ process.pid)
      only p e i k = elim (Bool-cases (is_unused (processes i))) [
        | inl u ↦ inl u
        | inr u ↦
            inr (λ same. k (some_eq i p (sym (used_slot processes i process.pid h u same) ∙ e)))
      ]

      gone :
          (i : ℕ)
          → find_process processes process.pid ≡ some i
          → find_process processes process.pid ≡ none
          → ⊥
      gone i a b = ground arith

pub empty-IsRegistry :
    (process : ProcessOwner) → is_unused process ≡ true → IsRegistry (λ _. process)
empty-IsRegistry process e i = inl e

-- After a process is registered in a table where each is found, each is found again; it is known
-- with its start time, and what is known of every other process is as before.
pub lookup_process-register :
    (processes processes' : Processes) (process : ProcessOwner) (start pid s : ℕ)
    → IsRegistry processes
    → is_unused process ≡ false
    → register_process processes process start ≡ some processes'
    → pid ≢ 0
    → pid < 2 ^ 31
    → IsRegistry processes'
      × (lookup_process processes' pid s ≡ (
          if pid == process.pid
          then (if start == s then some (record process { start_time = start }) else none)
          else lookup_process processes pid s))
unfolding register_process lookup_process
lookup_process-register processes processes' process start pid s h used e n lt =
    let new = record process { start_time = start } in
    elim (Option-cases
      (choose_from max_processes (process.pid % max_processes) processes process.pid none)) [
        | inl c ↦ absurd (ground arith)
        | inr (p, c) ↦
            let same : write_process processes p new ≡ processes' = ground arith in
            let (alone, found, before) = chosen_lem processes new h used p c in
            subst
              (λ (t : Processes).
                IsRegistry t
                × (lookup_process t pid s ≡ (
                    if pid == process.pid
                    then (if start == s then some new else none)
                    else lookup_process processes pid s)))
              same
              (
                write_process-IsRegistry processes p new h (ground arith) alone (inr found),
                elim (Bool-cases (pid == process.pid)) [
                  | inl f ↦
                      let it : process.pid ≡ pid = ground arith in
                      rw f (
                        subst
                          (λ (k : ℕ).
                            lookup_process (write_process processes p new) k s
                            ≡ (if start == s then some new else none))
                          it (read_chosen p new found))
                  | inr f ↦ rw f (
                      lookup_process-write_other processes p new h (ground arith) alone (inr found)
                        pid s n lt (ground arith)
                        (elim before [ inl u ↦ inl u | inr b ↦ inr (ground arith) ]))
                ],
              )
      ]
  where
    read_chosen :
        (p : ℕ) (new : ProcessOwner)
        → find_process (write_process processes p new) new.pid ≡ some p
        → lookup_process (write_process processes p new) new.pid s
          ≡ (if new.start_time == s then some new else none)
    read_chosen p new found =
        let self : (p == p) ≡ true = ground arith in rw (found, lookup_process, self) refl

-- The mark of a process that is forgotten.
abbrev marked : Processes → ℕ → ProcessOwner
marked processes p = record (processes p) { pid = forgotten }

-- A process that is forgotten is not found.
find_process-marked :
    (processes : Processes) (p gone : ℕ)
    → IsRegistry processes
    → gone ≢ 0
    → gone < 2 ^ 31
    → find_process processes gone ≡ some p
    → find_process (write_process processes p (marked processes p)) gone ≡ none
find_process-marked processes p gone h n lt e =
    elim (Option-cases (find_process (write_process processes p (marked processes p)) gone)) [
      | inl f ↦ f
      | inr (k, f) ↦
          let held = find_process-pid (write_process processes p (marked processes p)) gone k f in
          absurd (elim (Bool-cases (k == p)) [
            | inl same ↦ mark k same held
            | inr apart ↦
                let test : write_process processes p (marked processes p) k ≡ processes k =
                  rw apart refl in
                let held' : (processes k).pid ≡ gone =
                  ap (λ (x : ProcessOwner). x.pid) (sym test) ∙ held in
                let there = used_slot processes k gone h (ground arith) held' in
                let same = some_eq k p (sym there ∙ e) in ground arith
          ])
    ]
  where
    mark :
        (k : ℕ)
        → (k == p) ≡ true
        → (write_process processes p (marked processes p) k).pid ≡ gone
        → ⊥
    mark k same = rw same (λ held. ground arith)

-- After a process is forgotten in a table where each is found, each is found again but for it, of
-- which nothing is known, and what is known of every other process is as before.
pub lookup_process-forget :
    (processes : Processes) (gone pid s : ℕ)
    → IsRegistry processes
    → gone ≢ 0
    → gone < 2 ^ 31
    → pid ≢ 0
    → pid < 2 ^ 31
    → IsRegistry (forget_process processes gone)
      × (lookup_process (forget_process processes gone) pid s
          ≡ (if pid == gone then none else lookup_process processes pid s))
unfolding forget_process lookup_process
lookup_process-forget processes gone pid s h m less n lt =
    elim (Option-cases (find_process processes gone)) [
      | inl e ↦
          rw (e, forget_process)
            (
              h,
              elim (Bool-cases (pid == gone)) [
                | inl f ↦
                    let same : gone ≡ pid = ground arith in
                    let e' : find_process processes pid ≡ none =
                      ap (find_process processes) (sym same) ∙ e in
                    rw (f, e', lookup_process) refl
                | inr f ↦ rw f refl
              ],
            )
      | inr (p, e) ↦
          let alone : (i : ℕ)
              → i ≢ p
              → (is_unused (processes i) ≡ true) ⊎ ((processes i).pid ≢ forgotten) =
            λ i k. elim (Bool-cases (is_unused (processes i))) [
              | inl u ↦ inl u
              | inr u ↦ inr (ground arith)
            ] in
          rw (e, forget_process)
            (
              write_process-IsRegistry processes p (marked processes p) h (ground arith) alone
                  (inl (ground arith)),
              elim (Bool-cases (pid == gone)) [
                | inl f ↦
                    let same : gone ≡ pid = ground arith in
                    let e' =
                      ap (find_process (write_process processes p (marked processes p))) (sym same)
                      ∙ find_process-marked processes p gone h m less e in
                    rw (f, e', lookup_process) refl
                | inr f ↦
                    let held = find_process-pid processes gone p e in
                    rw f (
                      lookup_process-write_other processes p (marked processes p) h (ground arith)
                        alone (inl (ground arith)) pid s n lt (ground arith) (inr (ground arith)))
              ],
            )
    ]
