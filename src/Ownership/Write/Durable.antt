-- ===== src/Ownership/Write/Durable.antt =====
-- The files of the store hold what is in memory: the invariant, and how a record or a checkpoint keeps it.
use andlify.Common.{
  ℕ, ◌+◌, ◌^◌, ◌≤◌, ◌<◌, [], ◌++◌, ◌≡◌, inl, inr, refl, sym, arith, ◌==◌, none, some, Bool-cases,
  length-append,
}
use mathlib.Core.Path.{subst}
use andlify.Common.Components.{All}
use andlify.Ownership.{FileOwner, no_owner}
use andlify.Ownership.Record.{pack}
use andlify.Ownership.Record.Laws.{Fits, length-pack}
use andlify.Ownership.Table.{Files, write_owner, Shared, put, stored}
use andlify.Ownership.Table.Laws.{IsIndexed, empty-IsIndexed}
use andlify.Ownership.Table.Map.{lookup-put, stored_lem}
use andlify.Ownership.Table.Mirror.{Mirrors, put-Mirrors}
use andlify.Ownership.Journal.{
  Disk, records, whole_records, replay_journal_records, replay_snapshot, replay_journal,
  begin_replay,
}
use andlify.Ownership.Journal.Laws.{IsWhole}
use andlify.Ownership.Journal.Append.{replay_journal-append}
use andlify.Ownership.Write.{journal_bytes, snapshot_records, concat_bytes}
use andlify.Ownership.Write.Snapshot.{replay_snapshot-records, no_owner-Fits}
use andlify.Ownership.Write.Past.{IsPast, IsPast-le, IsLater, replayed-IsPast, skip_past}

-- `Replay` of the files gives a table with the contents of `files`, and the sequence number.
pub record Durable (prior : Shared) (files : Files) (sequence : ℕ) (disk : Disk) : Type 0 where
  pub mid : Shared
  pub base : Shared
  pub snapshot : replay_snapshot (begin_replay prior) disk.snapshot ≡ some mid
  pub journal : replay_journal mid (some (journal_bytes disk.journal)) ≡ some base
  pub whole : IsWhole (journal_bytes disk.journal)
  pub mirrors : Mirrors files base.files
  pub number : base.sequence ≡ sequence
  pub order : mid.checkpoint ≤ mid.sequence
  pub indexed : IsIndexed files
  pub fits : (i : ℕ) → Fits (files i)
  pub small : mid.sequence < 2 ^ 64
  pub bound : sequence < 2 ^ 64

module _ (prior shared : Shared) (disk : Disk)
    (old : Durable prior shared.files shared.sequence disk) where
  journal-IsPast :
      All
        (IsPast shared.sequence)
        (records (whole_records (journal_bytes disk.journal)) (journal_bytes disk.journal))
      × IsLater old.mid old.base
  unfolding replay_journal
  journal-IsPast =
      let (past, later) = replayed-IsPast old.mid old.base _ old.small old.order old.journal in
      (IsPast-le old.base.sequence shared.sequence _ (omega (arith, old.number)) past, later)

  -- A new snapshot beside the old journal: its records are skipped.
  pub snapshot-Durable :
      Durable prior shared.files shared.sequence
        (record disk { snapshot = some (concat_bytes (snapshot_records shared)) })
  unfolding replay_journal
  snapshot-Durable =
      let (base, replayed, mirrors, number, checkpoint) =
        replay_snapshot-records prior shared old.indexed old.fits old.bound in
      record {
        mid = base;
        base = base;
        snapshot = replayed;
        journal = skip_past base _ (
            IsPast-le shared.sequence base.checkpoint _ (omega (arith, checkpoint))
              journal-IsPast.0);
        whole = old.whole;
        mirrors = mirrors;
        number = number;
        order = omega (arith, number, checkpoint);
        indexed = old.indexed;
        fits = old.fits;
        small = omega (arith, number, old.bound);
        bound = old.bound;
      }

  -- A new snapshot and an empty journal.
  pub truncated-Durable :
      Durable prior shared.files shared.sequence (record disk {
        snapshot = some (concat_bytes (snapshot_records shared));
        journal = some [];
      })
  unfolding replay_journal replay_journal_records journal_bytes records
  truncated-Durable =
      let (base, replayed, mirrors, number, checkpoint) =
        replay_snapshot-records prior shared old.indexed old.fits old.bound in
      record {
        mid = base;
        base = base;
        snapshot = replayed;
        journal = refl;
        whole = refl;
        mirrors = mirrors;
        number = number;
        order = omega (arith, number, checkpoint);
        indexed = old.indexed;
        fits = old.fits;
        small = omega (arith, number, old.bound);
        bound = old.bound;
      }

  -- A whole record more in the journal, and its owner in the table.
  pub append-Durable :
      (next : Shared) (owner : FileOwner)
      → Fits owner
      → shared.sequence + 1 < 2 ^ 64
      → put shared owner ≡ stored next
      → Durable prior next.files (shared.sequence + 1) (record disk {
        journal = some (journal_bytes disk.journal ++ pack owner (shared.sequence + 1));
      })
  unfolding journal_bytes
  append-Durable next owner f lt e =
      let later = journal-IsPast.1 in
      let (base', stores, mirrors) =
        put-Mirrors shared next old.base owner old.mirrors old.indexed e in
      let size = length-pack owner (shared.sequence + 1) in
      let number : old.base.sequence + 1 ≡ shared.sequence + 1 = omega (arith, old.number) in
      let replayed =
        (replay_journal-append old.mid old.base base' (journal_bytes disk.journal) owner old.whole
          old.journal f (omega (arith, number, lt))
          (omega (arith, later.sequence, later.checkpoint, old.order)) old.mirrors.indexed
          stores).0 in
      let whole = length-append (journal_bytes disk.journal) (pack owner (shared.sequence + 1)) in
      let (taken, p, at, files) = stored_lem shared owner next e in
      record {
        mid = old.mid;
        base = record base' { sequence = shared.sequence + 1 };
        snapshot = old.snapshot;
        journal =
            subst
              (λ (n : ℕ).
                replay_journal old.mid (some (journal_bytes disk.journal ++ pack owner n))
                ≡ some (record base' { sequence = n }))
              number replayed;
        whole = omega (arith, whole, size, old.whole);
        mirrors = record { indexed = mirrors.indexed; same = mirrors.same; count = mirrors.count };
        number = refl;
        order = old.order;
        indexed = (lookup-put shared owner next 0 0 old.indexed e).0;
        fits = λ i. subst (λ (t : Files). Fits (t i)) (sym files) (written-Fits p i);
        small = old.small;
        bound = lt;
      }
    where
      written-Fits : (p i : ℕ) → Fits (write_owner shared.files p owner i)
      written-Fits p i = elim (Bool-cases (i == p)) [ inl e ↦ rw e f | inr e ↦ rw e (old.fits i) ]

-- A store that has no files yet holds nothing.
pub empty-Durable :
    (prior : Shared) → Durable prior (λ _. no_owner) 0 (record { snapshot = none; journal = none })
unfolding replay_snapshot replay_journal replay_journal_records journal_bytes records begin_replay
empty-Durable prior = record {
  mid = begin_replay prior;
  base = begin_replay prior;
  snapshot = refl;
  journal = refl;
  whole = refl;
  mirrors = record { indexed = empty-IsIndexed; same = λ device inode. refl; count = refl };
  number = refl;
  order = omega arith;
  indexed = empty-IsIndexed;
  fits = λ i. no_owner-Fits;
  small = omega arith;
  bound = omega arith;
}
