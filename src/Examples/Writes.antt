-- ===== src/Examples/Writes.antt =====
-- `SetLocked`, `CheckpointLocked` and `WriteAll` (library/src/main/cpp/ownership) on a new store.
use andlify.Common.{ℕ, true, false, [], ◌∷◌, ◌≡◌, ◌⊎◌, refl, arith, none, some}
use andlify.Ownership.{FileOwner, no_owner, same_birth}
use andlify.Ownership.Record.{pack}
use andlify.Ownership.Record.Laws.{Fits, length-pack}
use andlify.Ownership.Table.{Shared, lookup}
use andlify.Ownership.Journal.{Disk, replay_snapshot, begin_replay}
use andlify.Ownership.Table.Laws.{empty-IsIndexed, find_slot}
use andlify.Ownership.Table.Mirror.{Mirrors}
use andlify.Ownership.Table.Map.{find_slot_total, put_found}
use andlify.Ownership.Write.{
  interrupted, wrote, complete, write_all, Store, checkpointed, truncated, Events, set_done,
  set_locked, checkpoint_locked, concat_bytes, snapshot_records, is_previous, is_same, append_owner,
  put_written, journal_bytes,
}
use andlify.Ownership.Write.Append.{write_all-completes}
use andlify.Ownership.Write.Snapshot.{replay_snapshot-records, no_owner-Fits}
use andlify.Ownership.Write.Durable.{Durable, empty-Durable}
use andlify.Ownership.Write.Recovery.{Recovers, look_with, checkpoint_locked-Durable, Settles}
use andlify.Ownership.Write.Set.{set_locked-Recovers, set_locked-Settles}

abbrev new_owner : FileOwner
new_owner = record {
  device = 64;
  inode = 43;
  birth_seconds = 1700000000;
  birth_nanoseconds = 5;
  uid = 1000;
  gid = 1000;
  mode = 33188;
}

abbrev new_shared : Shared
new_shared = record {
  version = 0;
  sequence = 0;
  checkpoint = 0;
  dirty = false;
  failed = false;
  files = λ _. no_owner;
}

abbrev new_store : Store
new_store = record { shared = new_shared; disk = record { snapshot = none; journal = none } }

abbrev calm_events : Events
calm_events = record {
  journal_opens = true;
  answers = wrote 40 ∷ interrupted ∷ wrote 24 ∷ [];
  synced = true;
  checkpoint_end = checkpointed;
}

-- The process dies after 40 bytes.
abbrev torn_events : Events
torn_events = record calm_events { answers = wrote 40 ∷ [] }

new_owner-Fits : Fits new_owner
new_owner-Fits = record {
  device = omega arith;
  inode = omega arith;
  birth_seconds = omega arith;
  birth_nanoseconds = omega arith;
  uid = omega arith;
  gid = omega arith;
  mode = omega arith;
}

write_all-completes_example :
    write_all (wrote 1 ∷ interrupted ∷ wrote 2 ∷ []) (7 ∷ []) (1 ∷ 2 ∷ 3 ∷ [])
    ≡ record { status = complete; file = 7 ∷ 1 ∷ 2 ∷ 3 ∷ [] }
write_all-completes_example =
    write_all-completes (wrote 1 ∷ interrupted ∷ wrote 2 ∷ []) (7 ∷ []) (1 ∷ 2 ∷ 3 ∷ [])
      (omega arith)

replay_snapshot-records_example :
    (base : Shared) × (replay_snapshot
        (begin_replay new_shared)
        (some (concat_bytes (snapshot_records new_shared)))
      ≡ some base)
    × Mirrors new_shared.files base.files
    × (base.sequence ≡ 0)
    × (base.checkpoint ≡ 0)
replay_snapshot-records_example =
    replay_snapshot-records new_shared new_shared empty-IsIndexed (λ i. no_owner-Fits) (omega arith)

checkpoint_locked-Durable_example :
    Durable new_shared new_shared.files 0
      (checkpoint_locked truncated new_shared new_store.disk).store.disk
    × (new_shared.files ≡ new_shared.files)
unfolding checkpoint_locked
checkpoint_locked-Durable_example =
    checkpoint_locked-Durable new_shared new_shared new_store.disk truncated
      (empty-Durable new_shared)

set_locked-Recovers_example :
    Recovers new_shared
      (set_locked new_owner true none torn_events new_store).store.disk
      (lookup new_shared.files)
    ⊎ Recovers new_shared
        (set_locked new_owner true none torn_events new_store).store.disk
        (look_with new_owner new_shared.files)
set_locked-Recovers_example =
    set_locked-Recovers new_shared new_owner true none torn_events new_store (ground arith)
      new_owner-Fits (omega arith) (empty-Durable new_shared)

new_slot : (p : ℕ) × (find_slot (λ _. no_owner) 64 43 ≡ some p)
new_slot = find_slot_total (λ _. no_owner) 64 43 0 (omega arith) refl

after_journal :
    (p : ℕ) (disk : Disk)
    → find_slot (λ _. no_owner) 64 43 ≡ some p
    → (put_written new_owner checkpointed
        (record new_shared { dirty = true; sequence = 1 })
        disk).status
      ≡ set_done
unfolding put_written
after_journal p disk at =
    let stores =
      put_found (record new_shared { dirty = true; sequence = 1 }) new_owner p (ground arith) at in
    rw (stores, put_written) refl

done : (set_locked new_owner true none calm_events new_store).status ≡ set_done
unfolding set_locked is_previous is_same same_birth append_owner journal_bytes
done =
    let (p, at) = new_slot in
    let size = length-pack new_owner 1 in
    let written =
      write_all-completes calm_events.answers [] (pack new_owner 1) (omega (arith, size)) in
    rw (at, set_locked, written, append_owner) (after_journal p _ at)

set_locked-Settles_example :
    Settles new_shared new_owner new_shared.files
      (set_locked new_owner true none calm_events new_store).store
set_locked-Settles_example =
    set_locked-Settles new_shared new_owner true none calm_events new_store (ground arith)
      new_owner-Fits (omega arith) (empty-Durable new_shared) done
