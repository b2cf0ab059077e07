-- ===== src/Tracee/History/Reports.antt =====
-- What a crash report says of the calls, from the calls and results themselves.
use andlify.Common.{
  ℕ, true, false, List, [], ◌∷◌, ◌≡◌, inl, inr, refl, sym, ap, ◌∙◌, arith, Option, none, some, take,
  Bool-cases,
}
use mathlib.Core.List.{◌++◌, reverse, reverse-append, append_assoc}
use andlify.Tracee.{Regs, SyscallRecord, TraceeState}
use andlify.Tracee.History.{entry_record, finish_record, syscall_history_size, logged_calls}
use andlify.Tracee.History.Laws.{
  Event, entry, result, record_events, log_event, log_events, IsFresh, logged_calls-log_events,
}

-- The result that follows before the next call.
pub first_result : List Event → Option ℕ
first_result [] = none
first_result (entry regs ∷ es) = none
first_result (result value ∷ es) = some value

-- What a report says of a call with these registers: its number, its six arguments, and its result,
-- where one is known.
pub reported : Regs → Option ℕ → SyscallRecord
reported regs none = record {
  number = regs.x8;
  args = regs.x0 ∷ regs.x1 ∷ regs.x2 ∷ regs.x3 ∷ regs.x4 ∷ regs.x5 ∷ [];
  result = 0;
  finished = false;
}
reported regs (some value) = record {
  number = regs.x8;
  args = regs.x0 ∷ regs.x1 ∷ regs.x2 ∷ regs.x3 ∷ regs.x4 ∷ regs.x5 ∷ [];
  result = value;
  finished = true;
}

-- The calls of a run in their order, each with its result.
pub calls : List Event → List SyscallRecord
calls [] = []
calls (entry regs ∷ es) = reported regs (first_result es) ∷ calls es
calls (result value ∷ es) = calls es

settle : SyscallRecord → Option ℕ → SyscallRecord
settle r none = r
settle r (some value) = finish_record value r

settle-entry : (regs : Regs) (o : Option ℕ) → settle (entry_record regs) o ≡ reported regs o
unfolding settle entry_record finish_record reported
settle-entry regs none = refl
settle-entry regs (some value) = refl

-- The first result stays.
settle_again :
    (r : SyscallRecord) (value : ℕ) (o : Option ℕ)
    → settle (finish_record value r) o ≡ finish_record value r
unfolding settle finish_record
settle_again r value none = refl
settle_again r value (some other) = elim (Bool-cases r.finished) [
  | inl e ↦ ground arith
  | inr e ↦ rw e refl
]

log_events-calls :
    (r : SyscallRecord) (log : List SyscallRecord) (events : List Event)
    → log_events (r ∷ log) events ≡ reverse (calls events) ++ (settle r (first_result events) ∷ log)
unfolding log_events log_event calls first_result settle
log_events-calls r log [] = refl
log_events-calls r log (result value ∷ es) =
    log_events-calls (finish_record value r) log es
    ∙ ap (λ x. reverse (calls es) ++ (x ∷ log)) (settle_again r value (first_result es) ∙ refl)
log_events-calls r log (entry regs ∷ es) =
    let here = reported regs (first_result es) in
    log_events-calls (entry_record regs) (r ∷ log) es
    ∙ (ap (λ x. reverse (calls es) ++ (x ∷ r ∷ log)) (settle-entry regs (first_result es))
        ∙ (sym (append_assoc (reverse (calls es)) (here ∷ []) (r ∷ log))
            ∙ ap (λ l. l ++ (settle r none ∷ log)) (sym (reverse-append (here ∷ []) (calls es)))))

log_events-all : (events : List Event) → log_events [] events ≡ reverse (calls events)
unfolding log_events log_event calls
log_events-all [] = refl
log_events-all (result value ∷ es) = log_events-all es
log_events-all (entry regs ∷ es) =
    log_events-calls (entry_record regs) [] es
    ∙ (ap (λ x. reverse (calls es) ++ (x ∷ [])) (settle-entry regs (first_result es))
        ∙ sym (reverse-append (reported regs (first_result es) ∷ []) (calls es)))

-- After any calls and results from an empty ring, the crash report lists the last 32 calls in
-- their order, or all if there are fewer, each with its number, its arguments and the first result
-- that followed it before the next call, or as not finished where none did.
pub logged_calls-record_events :
    (state : TraceeState) (events : List Event)
    → IsFresh state
    → logged_calls (record_events state events)
      ≡ reverse (take syscall_history_size (reverse (calls events)))
logged_calls-record_events state events fresh =
    logged_calls-log_events state events fresh
    ∙ ap (λ l. reverse (take syscall_history_size l)) (log_events-all events)
