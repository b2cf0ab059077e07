-- ===== src/Ownership/Write/Recovery.antt =====
-- What `SetLocked` leaves in memory and in the files, and what `Replay` makes of it after a failure or
-- the death of the process.
use andlify.Common.{
  ℕ, ◌+◌, ◌-◌, ◌%◌, ◌^◌, ◌<◌, Bool, true, false, ◌++◌, ◌≡◌, ◌≢◌, refl, sym, ap, ◌∙◌, if◌then◌else◌,
  ◌==◌, leb, Option, none, some, length,
}
use mathlib.Core.Path.{subst}
use andlify.Common.Bytes.{Bytes}
use andlify.Ownership.{FileOwner}
use andlify.Ownership.Record.{pack}
use andlify.Ownership.Record.Laws.{Fits}
use andlify.Ownership.Table.{Files, is_for, write_owner, lookup, Shared, put, stored}
use andlify.Ownership.Table.Laws.{find_slot, IsIndexed}
use andlify.Ownership.Table.Map.{put_found, lookup-put}
use andlify.Ownership.Journal.{
  Disk, records, replay_journal_records, replay_snapshot, replay_journal, truncated_journal,
  begin_replay, replay,
}
use andlify.Ownership.Journal.Laws.{replay_torn}
use andlify.Ownership.Write.{
  Store, CheckpointEnd, not_renamed, renamed, not_truncated, truncated, checkpointed, set_done,
  set_result, checkpoint_locked, checkpoint_interval, put_written, journal_bytes,
}
use andlify.Ownership.Write.Durable.{Durable, snapshot-Durable, truncated-Durable, append-Durable}

-- `Replay` of the files succeeds and gives a table with the contents `look`.
pub record Recovers (prior : Shared) (disk : Disk) (look : ℕ → ℕ → Option FileOwner) : Type 0 where
  pub table : Shared
  pub left : Disk
  pub replayed : replay prior disk ≡ some (table, left)
  pub indexed : IsIndexed table.files
  pub same : (device inode : ℕ) → lookup table.files device inode ≡ look device inode

-- The contents with one more owner.
abbrev pub look_with : FileOwner → Files → ℕ → ℕ → Option FileOwner
look_with owner files device inode =
    if is_for device inode owner then some owner else lookup files device inode

same_journal :
    (mid : Shared) (journal : Option Bytes)
    → replay_journal mid journal ≡ replay_journal mid (some (journal_bytes journal))
unfolding journal_bytes
same_journal mid none =
    unfold replay_journal in unfold replay_journal_records in unfold records in refl
same_journal mid (some bytes) = refl

replay_both :
    (prior mid base : Shared) (disk : Disk)
    → replay_snapshot (begin_replay prior) disk.snapshot ≡ some mid
    → replay_journal mid disk.journal ≡ some base
    → replay prior disk
      ≡ some (
        record base { dirty = false; version = ((begin_replay prior).version + 1) % 2 ^ 64 },
        record disk { journal = truncated_journal disk.journal },
      )
unfolding replay
replay_both prior mid base disk e f = rw (e, replay, f) refl

pub Durable-Recovers :
    (prior : Shared) (files : Files) (sequence : ℕ) (disk : Disk)
    → Durable prior files sequence disk
    → Recovers prior disk (lookup files)
Durable-Recovers prior files sequence disk h = record {
  table = record h.base { dirty = false; version = ((begin_replay prior).version + 1) % 2 ^ 64 };
  left = record disk { journal = truncated_journal disk.journal };
  replayed =
      replay_both prior h.mid h.base disk h.snapshot (same_journal h.mid disk.journal ∙ h.journal);
  indexed = h.mirrors.indexed;
  same = h.mirrors.same;
}

-- The start of a record at the end of the journal is not read.
pub torn-Recovers :
    (prior : Shared) (files : Files) (sequence : ℕ) (disk : Disk) (rest : Bytes)
    → length rest < 64
    → Durable prior files sequence disk
    → Recovers prior
        (record disk { journal = some (journal_bytes disk.journal ++ rest) })
        (lookup files)
torn-Recovers prior files sequence disk rest lt h =
    let torn = replay_torn prior disk.snapshot (journal_bytes disk.journal) rest h.whole lt in
    let whole = record disk { journal = some (journal_bytes disk.journal) } in
    record {
      table = record h.base {
        dirty = false;
        version = ((begin_replay prior).version + 1) % 2 ^ 64;
      };
      left = record whole { journal = truncated_journal whole.journal };
      replayed = torn ∙ replay_both prior h.mid h.base whole h.snapshot h.journal;
      indexed = h.mirrors.indexed;
      same = h.mirrors.same;
    }

-- Where the files of the store hold its table, they hold it after `CheckpointLocked`, wherever
-- that ends, and the table is as it was.
pub checkpoint_locked-Durable :
    (prior shared : Shared) (disk : Disk) (end : CheckpointEnd)
    → Durable prior shared.files shared.sequence disk
    → Durable prior
        (checkpoint_locked end shared disk).store.shared.files
        (checkpoint_locked end shared disk).store.shared.sequence
        (checkpoint_locked end shared disk).store.disk
      × ((checkpoint_locked end shared disk).store.shared.files ≡ shared.files)
unfolding checkpoint_locked
checkpoint_locked-Durable prior shared disk not_renamed h = (h, refl)
checkpoint_locked-Durable prior shared disk renamed h = (snapshot-Durable prior shared disk h, refl)
checkpoint_locked-Durable prior shared disk not_truncated h =
    (snapshot-Durable prior shared disk h, refl)
checkpoint_locked-Durable prior shared disk truncated h =
    (truncated-Durable prior shared disk h, refl)
checkpoint_locked-Durable prior shared disk checkpointed h =
    (truncated-Durable prior shared disk h, refl)

-- What the invariant says of a result, and the contents it has.
abbrev pub Settles : Shared → FileOwner → Files → Store → Type 0
Settles prior owner files store =
    Durable prior store.shared.files store.shared.sequence store.disk
    × ((device inode : ℕ)
        → lookup store.shared.files device inode ≡ look_with owner files device inode)

module _ (prior shared : Shared) (owner : FileOwner) (disk : Disk) (p : ℕ) (used : owner.inode ≢ 0)
    (f : Fits owner) (lt : shared.sequence + 1 < 2 ^ 64)
    (at : find_slot shared.files owner.device owner.inode ≡ some p)
    (old : Durable prior shared.files shared.sequence disk) where
  -- The record is in the journal, and the sequence number is the next one.
  abbrev pub counted : Shared
  counted = record shared { dirty = true; sequence = shared.sequence + 1 }

  abbrev pub appended : Disk
  appended = record disk {
    journal = some (journal_bytes disk.journal ++ pack owner (shared.sequence + 1));
  }

  pub placed :
      (s : Shared)
      → s.files ≡ shared.files
      → (next : Shared) × (put s owner ≡ stored next)
        × (next.sequence ≡ s.sequence)
        × (next.files ≡ write_owner shared.files p owner)
  placed s same = (
    record s {
      files = write_owner s.files p owner;
      version = if s.version % 2 == 1 then s.version else (s.version + 2) % 2 ^ 64;
    },
    put_found s owner p used (ap (λ (t : Files). find_slot t owner.device owner.inode) same ∙ at),
    refl,
    ap (λ (t : Files). write_owner t p owner) same,
  )

  pub appended-Settles :
      (next : Shared)
      → next.files ≡ write_owner shared.files p owner
      → next.sequence ≡ shared.sequence + 1
      → Settles prior owner shared.files (record { shared = next; disk = appended })
  appended-Settles next files number =
      let (plain, stores, kept, same) = placed shared refl in
      let durable = append-Durable prior shared disk old plain owner f lt stores in
      let both : plain.files ≡ next.files = same ∙ sym files in
      (
        subst (λ (t : Files). Durable prior t next.sequence appended) both
            (subst (λ (n : ℕ). Durable prior plain.files n appended) (sym number) durable),
        λ device inode.
            ap (λ (t : Files). lookup t device inode) (sym both)
            ∙ (lookup-put shared owner plain device inode old.indexed stores).1,
      )

  pub put_written-Settles :
      (end : CheckpointEnd)
      → Settles prior owner shared.files (put_written owner end counted appended).store
  unfolding put_written
  put_written-Settles end =
      let (next, stores, number, files) = placed counted refl in
      let clean = record next { dirty = false } in
      let settled = appended-Settles clean files number in
      rw (stores, put_written)
        (go clean settled
          (leb checkpoint_interval ((clean.sequence + (2 ^ 64 - clean.checkpoint)) % 2 ^ 64)))
    where
      go :
          (clean : Shared)
          → Settles prior owner shared.files (record { shared = clean; disk = appended })
          → (due : Bool)
          → Settles prior owner shared.files
              (if due
                then checkpoint_locked end clean appended
                else set_result set_done clean appended).store
      go clean settled false = settled
      go clean settled true =
          let (durable, files) = checkpoint_locked-Durable prior clean appended end settled.0 in
          (
            durable,
            λ device inode.
                ap (λ (t : Files). lookup t device inode) files ∙ settled.1 device inode,
          )
