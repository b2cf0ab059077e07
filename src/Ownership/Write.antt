-- ===== src/Ownership/Write.antt =====
-- `OwnershipStore::SetLocked` and `CheckpointLocked` in ownership_persistence.cpp: a new owner goes to the
-- journal and then to the table, and from time to time the table goes to a new snapshot. What the kernel
-- answers is given as `Events`; a list of answers that ends is a process that dies there.
pub mod Slots
pub mod Past
pub mod Atomic
pub mod Append
pub mod Snapshot
pub mod Durable
pub mod Recovery
pub mod Set
use andlify.Common.{
  ℕ, zero, suc, ◌+◌, ◌-◌, ◌*◌, ◌%◌, ◌^◌, Bool, true, false, not, ◌&&◌, ◌||◌, List, [], ◌∷◌, ◌++◌,
  if◌then◌else◌, ◌==◌, leb, take, drop, Option, none, some,
}
use andlify.Common.Bytes.{Bytes}
use andlify.Ownership.{FileOwner, no_owner, same_birth}
use andlify.Ownership.Record.{pack}
use andlify.Ownership.Table.{slots, Files, is_free, Shared, put, stored, einval, enospc}
use andlify.Ownership.Table.Laws.{find_slot}
use andlify.Ownership.Journal.{Disk}

-- EINTR, another error, or the number of bytes, which is at most what was asked for.
pub data WriteAnswer : Type 0 where
  interrupted refused : WriteAnswer
  wrote : ℕ → WriteAnswer

pub data WriteStatus : Type 0 where
  complete incomplete cut : WriteStatus

pub record Written : Type 0 where
  pub status : WriteStatus
  pub file : Bytes

-- `WriteAll` at the end of a file.
unfoldable pub write_all : List WriteAnswer → Bytes → Bytes → Written
write_all answers file [] = record { status = complete; file = file }
write_all [] file (b ∷ data') = record { status = cut; file = file }
write_all (interrupted ∷ answers) file (b ∷ data') = write_all answers file (b ∷ data')
write_all (refused ∷ answers) file (b ∷ data') = record { status = incomplete; file = file }
write_all (wrote zero ∷ answers) file (b ∷ data') = record { status = incomplete; file = file }
write_all (wrote (suc n) ∷ answers) file (b ∷ data') =
    write_all answers (file ++ (b ∷ take n data')) (drop n data')

pub record Store : Type 0 where
  pub shared : Shared
  pub disk : Disk

-- How far a checkpoint comes: it fails before the new snapshot has its name, or at the `fsync` after
-- that, at the `openat` that truncates the journal, or at the `fsync` after that.
pub data CheckpointEnd : Type 0 where
  not_renamed renamed not_truncated truncated checkpointed : CheckpointEnd

pub record Events : Type 0 where
  pub journal_opens : Bool
  pub answers : List WriteAnswer
  pub synced : Bool
  pub checkpoint_end : CheckpointEnd

-- `true`, EAGAIN, ENOSPC, another error, and a process that died.
pub data SetStatus : Type 0 where
  set_done set_again set_full set_failed set_died : SetStatus

pub record SetResult : Type 0 where
  pub status : SetStatus
  pub store : Store

-- The records of the first `n` slots that are taken.
unfoldable pub slot_records : ℕ → Files → ℕ → List Bytes
slot_records zero files sequence = []
slot_records (suc n) files sequence =
    slot_records n files sequence
    ++ (if is_free (files n) then [] else pack (files n) sequence ∷ [])

unfoldable pub snapshot_records : Shared → List Bytes
snapshot_records shared =
    pack no_owner shared.sequence ∷ slot_records slots shared.files shared.sequence

unfoldable pub concat_bytes : List Bytes → Bytes
concat_bytes [] = []
concat_bytes (r ∷ rs) = r ++ concat_bytes rs

abbrev pub set_result : SetStatus → Shared → Disk → SetResult
set_result status shared disk = record {
  status = status;
  store = record { shared = shared; disk = disk };
}

-- `CheckpointLocked`
unfoldable pub checkpoint_locked : CheckpointEnd → Shared → Disk → SetResult
checkpoint_locked end shared disk =
    let named = record disk { snapshot = some (concat_bytes (snapshot_records shared)) } in
    let marked = record shared { checkpoint = shared.sequence } in
    elim end [
      | not_renamed ↦ set_result set_failed shared disk
      | renamed ↦ set_result set_failed shared named
      | not_truncated ↦ set_result set_failed marked named
      | truncated ↦ set_result set_failed marked (record named { journal = some [] })
      | checkpointed ↦ set_result set_done marked (record named { journal = some [] })
    ]

-- `kCheckpointInterval`
abbrev pub checkpoint_interval : ℕ
checkpoint_interval = 16384

-- The end of `SetLocked`, after the record is in the journal.
unfoldable pub put_written : FileOwner → CheckpointEnd → Shared → Disk → SetResult
put_written owner end shared disk = elim (put shared owner) [
  | stored shared' ↦
      let clean = record shared' { dirty = false } in
      if leb checkpoint_interval ((clean.sequence + (2 ^ 64 - clean.checkpoint)) % 2 ^ 64)
      then checkpoint_locked end clean disk
      else set_result set_done clean disk
  | einval ↦ set_result set_failed shared disk
  | enospc ↦ set_result set_failed shared disk
]

unfoldable pub journal_bytes : Option Bytes → Bytes
journal_bytes none = []
journal_bytes (some bytes) = bytes

abbrev pub next_sequence : Shared → ℕ
next_sequence shared = (shared.sequence + 1) % 2 ^ 64

-- `SetLocked` from `shared_->dirty = true` on.
unfoldable pub append_owner : FileOwner → Bool → Events → Store → SetResult
append_owner owner durable events store =
    let shared = record store.shared { dirty = true } in
    let written =
      write_all events.answers (journal_bytes store.disk.journal)
        (pack owner (next_sequence shared)) in
    let disk = record store.disk { journal = some written.file } in
    if not events.journal_opens
    then set_result set_failed shared store.disk
    else elim written.status [
      | cut ↦ set_result set_died shared disk
      | incomplete ↦ set_result set_failed shared disk
      | complete ↦
          if durable && not events.synced
          then set_result set_failed shared disk
          else put_written owner events.checkpoint_end
              (record shared { sequence = next_sequence shared }) disk
    ]

-- The fields of `slot` that `previous` must have.
unfoldable pub is_previous : Option FileOwner → FileOwner → Bool
is_previous none slot = true
is_previous (some previous) slot =
    same_birth slot previous
    && slot.uid == previous.uid
    && slot.gid == previous.gid
    && slot.mode == previous.mode

-- `same`
unfoldable pub is_same : FileOwner → FileOwner → Bool
is_same slot owner =
    not (is_free slot)
    && same_birth slot owner
    && slot.uid == owner.uid
    && slot.gid == owner.gid
    && slot.mode == owner.mode

unfoldable pub set_locked : FileOwner → Bool → Option FileOwner → Events → Store → SetResult
set_locked owner durable previous events store =
    elim (find_slot store.shared.files owner.device owner.inode) [
      | none ↦ record { status = set_full; store = store }
      | some index ↦
          if not (is_previous previous (store.shared.files index))
          then record { status = set_again; store = store }
          else if is_same (store.shared.files index) owner
          then record { status = set_done; store = store }
          else append_owner owner durable events store
    ]
