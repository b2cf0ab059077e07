-- ===== src/Ownership/Journal/Laws.antt =====
-- What `Replay` makes of a journal that has grown by a record, or by the start of one.
use andlify.Common.{
  ◌*◌, ◌%◌, ◌<◌, ◌++◌, ◌≡◌, inl, inr, sym, ap, ◌∙◌, arith, take, length, length-append, Option,
  some, Option-cases,
}
use andlify.Common.Bytes.{Bytes}
use andlify.Ownership.Table.{Shared}
use andlify.Ownership.Journal.{
  records, whole_records, replay_journal_records, replay_snapshot, replay_journal,
  truncated_journal, begin_replay, replay,
}
use andlify.Ownership.Journal.Records.{records-append, take_of_le, take_whole}

-- The file holds whole records only.
abbrev pub IsWhole : Bytes → Type 0
IsWhole bytes = length bytes % 64 ≡ 0

whole_count : (bytes : Bytes) → IsWhole bytes → length bytes ≡ whole_records bytes * 64
whole_count bytes h = omega arith

torn_records :
    (bytes rest : Bytes)
    → IsWhole bytes
    → length rest < 64
    → (whole_records (bytes ++ rest) ≡ whole_records bytes)
      × (records (whole_records (bytes ++ rest)) (bytes ++ rest)
          ≡ records (whole_records bytes) bytes)
torn_records bytes rest h k =
    let e : whole_records (bytes ++ rest) ≡ whole_records bytes =
      omega (arith, length-append bytes rest) in
    (
      e,
      ap (λ n. records n (bytes ++ rest)) e
          ∙ records-append (whole_records bytes) bytes rest (omega arith),
    )

torn_truncated :
    (bytes rest : Bytes)
    → IsWhole bytes
    → length rest < 64
    → take (whole_records (bytes ++ rest) * 64) (bytes ++ rest) ≡ bytes
torn_truncated bytes rest h k =
    let e : whole_records (bytes ++ rest) * 64 ≡ length bytes =
      omega (arith, length-append bytes rest) in
    rw e (take_of_le (length bytes) bytes rest (omega arith) ∙ take_whole bytes)

whole_truncated : (bytes : Bytes) → IsWhole bytes → take (whole_records bytes * 64) bytes ≡ bytes
whole_truncated bytes h =
    let e : whole_records bytes * 64 ≡ length bytes = omega arith in rw e (take_whole bytes)

torn_journal :
    (shared : Shared) (bytes rest : Bytes)
    → IsWhole bytes
    → length rest < 64
    → replay_journal shared (some (bytes ++ rest)) ≡ replay_journal shared (some bytes)
unfolding replay_journal
torn_journal shared bytes rest h k =
    ap (replay_journal_records shared) (torn_records bytes rest h k).1

cut_journal :
    (bytes rest : Bytes)
    → IsWhole bytes
    → length rest < 64
    → truncated_journal (some (bytes ++ rest)) ≡ truncated_journal (some bytes)
unfolding truncated_journal
cut_journal bytes rest h k = ap some (torn_truncated bytes rest h k ∙ sym (whole_truncated bytes h))

-- A crash in the middle of an append loses that record alone: with the start of a record at its end
-- the journal is replayed as without it, to the same result or the same failure, and is cut back.
pub replay_torn :
    (shared : Shared) (snapshot : Option Bytes) (bytes rest : Bytes)
    → IsWhole bytes
    → length rest < 64
    → replay shared (record { snapshot = snapshot; journal = some (bytes ++ rest) })
      ≡ replay shared (record { snapshot = snapshot; journal = some bytes })
unfolding replay
replay_torn shared snapshot bytes rest h k =
    let cut = cut_journal bytes rest h k in
    elim (Option-cases (replay_snapshot (begin_replay shared) snapshot)) [
      | inl e ↦ rw (e, replay)
      | inr (s, e) ↦
          let torn = torn_journal s bytes rest h k in
          elim (Option-cases (replay_journal s (some bytes))) [
            | inl f ↦ let f' = torn ∙ f in rw (e, replay, f, f')
            | inr (t, f) ↦ let f' = torn ∙ f in rw (e, replay, f, f', cut)
          ]
    ]
