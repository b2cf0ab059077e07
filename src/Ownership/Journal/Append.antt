-- ===== src/Ownership/Journal/Append.antt =====
-- What `Replay` makes of a journal to which a whole record has been appended.
use andlify.Common.{
  ℕ, suc, ◌+◌, ◌%◌, ◌^◌, ◌≤◌, ◌<◌, true, List, [], ◌∷◌, ◌++◌, ◌≡◌, inl, inr, ap, ◌∙◌, arith,
  if◌then◌else◌, ◌==◌, ltb, length-append, some, Option-cases,
}
use andlify.Common.Bytes.{Bytes}
use andlify.Ownership.{FileOwner}
use andlify.Ownership.Record.{pack}
use andlify.Ownership.Record.Laws.{Fits, unpack-pack}
use andlify.Ownership.Table.{Shared, put, stored, lookup, is_for}
use andlify.Ownership.Table.Laws.{IsIndexed}
use andlify.Ownership.Table.Map.{lookup-put}
use andlify.Ownership.Journal.{
  records, whole_records, put_or_fail, replay_journal_record, replay_journal_records,
  replay_journal,
}
use andlify.Ownership.Journal.Records.{records_snoc}
use andlify.Ownership.Journal.Laws.{IsWhole}

-- The loop over records that are followed by one more.
replay_journal_records-snoc :
    (shared base : Shared) (rs : List Bytes) (r : Bytes)
    → replay_journal_records shared rs ≡ some base
    → replay_journal_records shared (rs ++ (r ∷ [])) ≡ replay_journal_record base r
unfolding replay_journal_records
replay_journal_records-snoc shared base [] r h =
    let same : shared ≡ base = ground arith in
    rw same (elim (Option-cases (replay_journal_record base r)) [
      | inl e ↦ rw (e, replay_journal_records)
      | inr (s, e) ↦ rw (e, replay_journal_records)
    ])
replay_journal_records-snoc shared base (x ∷ rs) r h =
    elim (Option-cases (replay_journal_record shared x)) [
      | inl e ↦ absurd (ground arith)
      | inr (s, e) ↦
          rw (e, replay_journal_records) (replay_journal_records-snoc s base rs r (ground arith))
    ]

-- The next record of a journal is that of `Put`.
next_record :
    (base base' : Shared) (owner : FileOwner)
    → Fits owner
    → base.sequence + 1 < 2 ^ 64
    → base.checkpoint ≤ base.sequence
    → put base owner ≡ stored base'
    → replay_journal_record base (pack owner (base.sequence + 1))
      ≡ some (record base' { sequence = base.sequence + 1 })
unfolding replay_journal_record put_or_fail
next_record base base' owner f lt le e =
    let (size, sound, number, same) = unpack-pack owner (base.sequence + 1) f lt in
    let later : ltb base.checkpoint (base.sequence + 1) ≡ true = ground arith in
    let next : ((base.sequence + 1) == ((base.sequence + 1) % 2 ^ 64)) ≡ true = ground arith in
    rw (sound, number, later, next, same, e)
      (ap (λ (n : ℕ). some (record base' { sequence = n })) number)

-- The record of an owner whose fields fit, appended to a journal of whole records with the next sequence
-- number, is replayed: where the journal gave the sound table `base`, it now gives the table after a `Put`
-- that succeeds on `base`, with that number; and its lookups are those of `base` but for the owner's key.
pub replay_journal-append :
    (shared base base' : Shared) (bytes : Bytes) (owner : FileOwner)
    → IsWhole bytes
    → replay_journal shared (some bytes) ≡ some base
    → Fits owner
    → base.sequence + 1 < 2 ^ 64
    → base.checkpoint ≤ base.sequence
    → IsIndexed base.files
    → put base owner ≡ stored base'
    → (replay_journal shared (some (bytes ++ pack owner (base.sequence + 1)))
        ≡ some (record base' { sequence = base.sequence + 1 }))
      × ((device inode : ℕ)
          → lookup base'.files device inode
            ≡ (if is_for device inode owner then some owner else lookup base.files device inode))
unfolding replay_journal
replay_journal-append shared base base' bytes owner whole h f lt le indexed e =
    let r = pack owner (base.sequence + 1) in
    let size = (unpack-pack owner (base.sequence + 1) f lt).0 in
    let count : whole_records (bytes ++ r) ≡ suc (whole_records bytes) =
      omega (arith, length-append bytes r) in
    let all =
      ap (λ n. records n (bytes ++ r)) count
      ∙ records_snoc (whole_records bytes) bytes r (omega arith) size in
    (
      ap (replay_journal_records shared) all
          ∙ (replay_journal_records-snoc shared base (records (whole_records bytes) bytes) r h
              ∙ next_record base base' owner f lt le e),
      λ device inode. (lookup-put base owner base' device inode indexed e).1,
    )
