-- ===== src/Ownership/Journal.antt =====
-- `OwnershipStore::Replay` in ownership_persistence.cpp, where the files can be read and the torn end
-- of the journal can be cut off: what the snapshot and the journal hold after a session or a crash.
pub mod Records
pub mod Laws
pub mod Append
use andlify.Common.{
  ℕ, zero, suc, ◌+◌, ◌-◌, ◌*◌, ◌/◌, ◌%◌, ◌^◌, Bool, true, false, not, ◌&&◌, ◌||◌, List, [], ◌∷◌,
  ◌++◌, if◌then◌else◌, ◌==◌, ltb, take, drop, length, Option, none, some,
}
use andlify.Common.Bytes.{Bytes, is_empty}
use andlify.Ownership.{FileOwner, no_owner}
use andlify.Ownership.Record.{record_size, field_at, unpack, is_sound}
use andlify.Ownership.Table.{Shared, put, PutResult, stored, einval, enospc}

-- The two files; `none` is a file that is not there.
pub record Disk : Type 0 where
  pub snapshot : Option Bytes
  pub journal : Option Bytes

-- The records that `pread` gives at the offsets 0, 64, …, and the bytes that are left over.
unfoldable pub records : ℕ → Bytes → List Bytes
records zero bytes = []
records (suc n) bytes = take record_size bytes ∷ records n (drop record_size bytes)

abbrev pub whole_records : Bytes → ℕ
whole_records bytes = length bytes / record_size

abbrev pub record_sequence : Bytes → ℕ
record_sequence r = field_at r 8 8

-- `none` is EIO.
unfoldable pub put_or_fail : Shared → FileOwner → Option Shared
put_or_fail shared owner = elim (put shared owner) [
  | stored shared' ↦ some shared'
  | einval ↦ none
  | enospc ↦ none
]

-- One turn of the loop over the snapshot; the first record holds the sequence number alone.
unfoldable pub replay_snapshot_record : Bool → Shared → Bytes → Option Shared
replay_snapshot_record first shared r =
    if not (is_sound r)
    then none
    else if first
    then (if not ((unpack r).inode == 0)
        then none
        else some (record shared { sequence = record_sequence r; checkpoint = record_sequence r }))
    else if record_sequence r == shared.checkpoint
    then put_or_fail shared (unpack r)
    else none

-- One turn of the loop over the journal.
unfoldable pub replay_journal_record : Shared → Bytes → Option Shared
replay_journal_record shared r =
    if not (is_sound r)
    then none
    else if ltb shared.checkpoint (record_sequence r)
    then (if record_sequence r == (shared.sequence + 1) % 2 ^ 64
        then elim (put_or_fail shared (unpack r)) [
          | none ↦ none
          | some shared' ↦ some (record shared' { sequence = record_sequence r })
        ]
        else none)
    else some shared

unfoldable pub replay_snapshot_records : Bool → Shared → List Bytes → Option Shared
replay_snapshot_records first shared [] = some shared
replay_snapshot_records first shared (r ∷ rs) = elim (replay_snapshot_record first shared r) [
  | none ↦ none
  | some shared' ↦ replay_snapshot_records false shared' rs
]

unfoldable pub replay_journal_records : Shared → List Bytes → Option Shared
replay_journal_records shared [] = some shared
replay_journal_records shared (r ∷ rs) = elim (replay_journal_record shared r) [
  | none ↦ none
  | some shared' ↦ replay_journal_records shared' rs
]

-- A snapshot that is there is not empty and has no torn end.
unfoldable pub replay_snapshot : Shared → Option Bytes → Option Shared
replay_snapshot shared none = some shared
replay_snapshot shared (some bytes) =
    if is_empty bytes || not (length bytes % record_size == 0)
    then none
    else replay_snapshot_records true shared (records (whole_records bytes) bytes)

unfoldable pub replay_journal : Shared → Option Bytes → Option Shared
replay_journal shared none = some shared
replay_journal shared (some bytes) =
    replay_journal_records shared (records (whole_records bytes) bytes)

-- `ftruncate(fd, offset)` where the last `pread` was short.
unfoldable pub truncated_journal : Option Bytes → Option Bytes
truncated_journal none = none
truncated_journal (some bytes) = some (take (whole_records bytes * record_size) bytes)

-- The table is emptied while its generation counter is odd.
unfoldable pub begin_replay : Shared → Shared
begin_replay shared = record shared {
  version = if shared.version % 2 == 1 then shared.version else shared.version + 1;
  files = λ _. no_owner;
  sequence = 0;
  checkpoint = 0;
}

-- `Replay`: the table and the files that it leaves, or EIO.
unfoldable pub replay : Shared → Disk → Option (Shared × Disk)
replay shared disk = elim (replay_snapshot (begin_replay shared) disk.snapshot) [
  | none ↦ none
  | some after_snapshot ↦ elim (replay_journal after_snapshot disk.journal) [
    | none ↦ none
    | some after_journal ↦ some (
      record after_journal {
        dirty = false;
        version = ((begin_replay shared).version + 1) % 2 ^ 64;
      },
      record disk { journal = truncated_journal disk.journal },
    )
  ]
]
