-- ===== src/Tracee/History/Laws.antt =====
-- The ring of calls against the whole list of them, the newest first.
use andlify.Common.{
  ℕ, zero, suc, ◌-◌, ◌%◌, ◌≤◌, ◌<◌, true, false, List, [], ◌∷◌, ◌≡◌, ◌≢◌, refl, sym, ap, ◌∙◌, arith,
  ◌==◌, Option, some, length, set, get_elem?, length-set, get_elem?-set_self, get_elem?-set_ne,
}
use mathlib.Core.List.{◌++◌, reverse, reverse-append}
use Prim.Native.Nat.{min}
use andlify.Common.{take}
use andlify.Tracee.{Regs, SyscallRecord, TraceeState}
use andlify.Tracee.History.{
  entry_record, record_syscall_entry, finish_record, finish_at, record_syscall_result,
  syscall_history_size, logged_from, logged_calls,
}

-- What the two functions are called with.
pub data Event : Type 0 where
  entry : Regs → Event
  result : ℕ → Event

pub record_event : TraceeState → Event → TraceeState
record_event state (entry regs) = record_syscall_entry state regs
record_event state (result value) = record_syscall_result state value

pub record_events : TraceeState → List Event → TraceeState
record_events state [] = state
record_events state (e ∷ es) = record_events (record_event state e) es

-- The same with no bound: every call, the newest first; a result goes to the newest.
unfoldable pub log_event : List SyscallRecord → Event → List SyscallRecord
log_event log (entry regs) = entry_record regs ∷ log
log_event [] (result value) = []
log_event (r ∷ log) (result value) = finish_record value r ∷ log

unfoldable pub log_events : List SyscallRecord → List Event → List SyscallRecord
log_events log [] = log
log_events log (e ∷ es) = log_events (log_event log e) es

-- The slot of the call that is `i` calls old.
abbrev pub slot_of : TraceeState → ℕ → Option SyscallRecord
slot_of state i =
    get_elem? state.recent_syscalls ((state.recent_syscall_count - suc i) % syscall_history_size)

record Holds (state : TraceeState) (log : List SyscallRecord) : Type 0 where
  size : length state.recent_syscalls ≡ syscall_history_size
  count : state.recent_syscall_count ≡ length log
  shows : (i : ℕ) → i < syscall_history_size → i < length log → slot_of state i ≡ get_elem? log i

entry-Holds :
    (state : TraceeState) (log : List SyscallRecord) (regs : Regs)
    → Holds state log
    → Holds (record_syscall_entry state regs) (entry_record regs ∷ log)
unfolding record_syscall_entry
entry-Holds state log regs h = record {
  size = length-set state.recent_syscalls _ (entry_record regs) ∙ h.size;
  count = ap suc h.count;
  shows = shows;
}
  where
    c : ℕ
    c = state.recent_syscall_count

    shows :
        (i : ℕ)
        → i < 32
        → i < suc (length log)
        → get_elem? (set state.recent_syscalls (c % 32) (entry_record regs)) ((suc c - suc i) % 32)
          ≡ get_elem? (entry_record regs ∷ log) i
    shows zero a b =
        let e : (suc c - 1) % 32 ≡ c % 32 = omega arith in
        rw e (
          get_elem?-set_self state.recent_syscalls (c % 32) (entry_record regs)
            (omega (arith, h.size)))
    shows (suc i) a b =
        let n : c % 32 ≢ (suc c - suc (suc i)) % 32 = omega (arith, h.count) in
        let e : (suc c - suc (suc i)) % 32 ≡ (c - suc i) % 32 = omega arith in
        get_elem?-set_ne state.recent_syscalls (entry_record regs) n
        ∙ (ap (get_elem? state.recent_syscalls) e ∙ h.shows i (omega arith) (omega arith))

result-Holds :
    (state : TraceeState) (log : List SyscallRecord) (value : ℕ)
    → Holds state log
    → Holds (record_syscall_result state value) (log_event log (result value))
unfolding record_syscall_result log_event finish_at
result-Holds state [] value h =
    let e : (state.recent_syscall_count == 0) ≡ true = ground (arith, h.count) in rw e h
result-Holds state (r ∷ log) value h =
    let e : (state.recent_syscall_count == 0) ≡ false = ground (arith, h.count) in
    rw e (record { size = size; count = h.count; shows = shows })
  where
    last : ℕ
    last = (state.recent_syscall_count - 1) % 32

    newest :
        finish_at state.recent_syscalls last value
        ≡ set state.recent_syscalls last (finish_record value r)
    newest = let e = h.shows 0 (omega arith) (omega arith) in rw (e, finish_at)

    size : length (finish_at state.recent_syscalls last value) ≡ 32
    size = rw newest (length-set state.recent_syscalls last (finish_record value r) ∙ h.size)

    shows :
        (i : ℕ)
        → i < 32
        → i < suc (length log)
        → get_elem?
            (finish_at state.recent_syscalls last value)
            ((state.recent_syscall_count - suc i) % 32)
          ≡ get_elem? (finish_record value r ∷ log) i
    shows zero a b = rw newest (
        get_elem?-set_self state.recent_syscalls last (finish_record value r)
          (omega (arith, h.size)))
    shows (suc i) a b =
        let n : last ≢ (state.recent_syscall_count - suc (suc i)) % 32 = omega (arith, h.count) in
        rw newest
          (get_elem?-set_ne state.recent_syscalls (finish_record value r) n ∙ h.shows (suc i) a b)

record_events-Holds :
    (state : TraceeState) (log : List SyscallRecord) (events : List Event)
    → Holds state log
    → Holds (record_events state events) (log_events log events)
unfolding record_events log_events record_event log_event
record_events-Holds state log [] h = h
record_events-Holds state log (entry regs ∷ es) h =
    record_events-Holds (record_syscall_entry state regs) (entry_record regs ∷ log) es
      (entry-Holds state log regs h)
record_events-Holds state [] (result value ∷ es) h =
    record_events-Holds (record_syscall_result state value) [] es (result-Holds state [] value h)
record_events-Holds state (r ∷ log) (result value ∷ es) h =
    record_events-Holds (record_syscall_result state value) (finish_record value r ∷ log) es
      (result-Holds state (r ∷ log) value h)

-- A ring with no call in it.
abbrev pub IsFresh : TraceeState → Type 0
IsFresh state =
    (length state.recent_syscalls ≡ syscall_history_size) × (state.recent_syscall_count ≡ 0)

take_snoc :
    (k : ℕ) (log : List SyscallRecord) {r : SyscallRecord}
    → get_elem? log k ≡ some r
    → take (suc k) log ≡ take k log ++ (r ∷ [])
take_snoc k [] h = absurd (ground arith)
take_snoc zero (x ∷ log) h = ground arith
take_snoc (suc k) (x ∷ log) h = ap (λ l. x ∷ l) (take_snoc k log h)

get_elem?_below :
    (k : ℕ) (log : List SyscallRecord)
    → k < length log
    → (r : SyscallRecord) × (get_elem? log k ≡ some r)
get_elem?_below k [] h = absurd (omega arith)
get_elem?_below zero (x ∷ log) h = (x, refl)
get_elem?_below (suc k) (x ∷ log) h = get_elem?_below k log (omega arith)

logged_from_lem :
    (state : TraceeState) (log : List SyscallRecord) (k : ℕ)
    → Holds state log
    → k ≤ 32
    → k ≤ length log
    → logged_from state.recent_syscalls (state.recent_syscall_count - k) k ≡ reverse (take k log)
unfolding logged_from
logged_from_lem state log zero h a b = refl
logged_from_lem state log (suc k) h a b =
    let (r, e) = get_elem?_below k log (omega arith) in
    let slot = h.shows k (omega arith) (omega arith) ∙ e in
    let next : suc (state.recent_syscall_count - suc k) ≡ state.recent_syscall_count - k =
      omega (arith, h.count) in
    rw
      (
        slot,
        logged_from,
        next,
        logged_from_lem state log k h (omega arith) (omega arith),
        take_snoc k log e,
      )
      (sym (reverse-append (take k log) (r ∷ [])))

take_all : (n : ℕ) (log : List SyscallRecord) → take (min (length log) n) log ≡ take n log
take_all zero log = rw (zero-min (length log))
  where
    zero-min : (k : ℕ) → min k 0 ≡ 0
    zero-min k = omega arith
take_all (suc n) [] = let e : min 0 (suc n) ≡ 0 = omega arith in rw e
take_all (suc n) (x ∷ log) =
    let e : min (suc (length log)) (suc n) ≡ suc (min (length log) n) = omega arith in
    rw e (ap (λ l. x ∷ l) (take_all n log))

pub logged_calls-log_events :
    (state : TraceeState) (events : List Event)
    → IsFresh state
    → logged_calls (record_events state events)
      ≡ reverse (take syscall_history_size (log_events [] events))
unfolding logged_calls
logged_calls-log_events state events fresh =
    let start : Holds state [] = record {
      size = fresh.0;
      count = fresh.1;
      shows = λ i a b. absurd (omega arith);
    } in
    let h = record_events-Holds state [] events start in
    let log = log_events [] events in
    logged_from_lem (record_events state events) log
      (min (record_events state events).recent_syscall_count syscall_history_size) h (omega arith)
      (omega (arith, h.count))
    ∙ (ap (λ n. reverse (take (min n syscall_history_size) log)) h.count
        ∙ ap reverse (take_all syscall_history_size log))
