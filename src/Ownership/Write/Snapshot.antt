-- ===== src/Ownership/Write/Snapshot.antt =====
-- What `Replay` reads back from a snapshot that `CheckpointLocked` wrote.
use andlify.Common.{
  ℕ, zero, suc, ◌%◌, ◌^◌, ◌<◌, true, false, List, [], ◌∷◌, ◌≡◌, inl, inr, refl, ap, ◌∙◌, arith,
  ◌==◌, some, Bool-cases, length,
}
use native.Mathlib.Nat.{le_refl}
use andlify.Common.Bytes.{Bytes, is_empty}
use andlify.Common.Components.{All, All-append}
use andlify.Ownership.{no_owner}
use andlify.Ownership.Record.{pack, unpack}
use andlify.Ownership.Record.Laws.{Fits, length-pack, unpack-pack}
use andlify.Ownership.Table.{slots, Files, is_free, Shared}
use andlify.Ownership.Table.Laws.{IsIndexed}
use andlify.Ownership.Table.Mirror.{Mirrors}
use andlify.Ownership.Table.Scan.{scan-lookup}
use andlify.Ownership.Journal.{
  whole_records, replay_snapshot_record, replay_snapshot_records, replay_snapshot, begin_replay,
}
use andlify.Ownership.Write.{slot_records, snapshot_records, concat_bytes}
use andlify.Ownership.Write.Slots.{IsRecord, length-concat_bytes, records-concat_bytes, all_slots}

slot_records-IsRecord :
    (n : ℕ) (files : Files) (sequence : ℕ) → All IsRecord (slot_records n files sequence)
unfolding slot_records
slot_records-IsRecord zero files sequence = tt
slot_records-IsRecord (suc n) files sequence =
    All-append IsRecord (slot_records n files sequence) _ (slot_records-IsRecord n files sequence)
      (elim (Bool-cases (is_free (files n))) [
        | inl e ↦ rw e tt
        | inr e ↦ rw e (length-pack (files n) sequence, tt)
      ])

-- A file of whole records is read as these records.
replay_concat :
    (shared : Shared) (r : Bytes) (rs : List Bytes)
    → IsRecord r
    → All IsRecord rs
    → replay_snapshot shared (some (concat_bytes (r ∷ rs)))
      ≡ replay_snapshot_records true shared (r ∷ rs)
unfolding replay_snapshot
replay_concat shared r rs h t =
    let size = length-concat_bytes (r ∷ rs) (h, t) in
    let count : whole_records (concat_bytes (r ∷ rs)) ≡ length (r ∷ rs) = omega (arith, size) in
    let full : is_empty (concat_bytes (r ∷ rs)) ≡ false =
      not_empty (concat_bytes (r ∷ rs)) (omega (arith, size)) in
    let whole : (length (concat_bytes (r ∷ rs)) % 64 == 0) ≡ true = ground (arith, size) in
    rw (full, whole, count)
      (ap (replay_snapshot_records true shared) (records-concat_bytes (r ∷ rs) (h, t)))
  where
    not_empty : (xs : Bytes) → 0 < length xs → is_empty xs ≡ false
    not_empty [] h = absurd (omega arith)
    not_empty (x ∷ xs) h = unfold is_empty in refl

pub no_owner-Fits : Fits no_owner
no_owner-Fits = record {
  device = omega arith;
  inode = omega arith;
  birth_seconds = omega arith;
  birth_nanoseconds = omega arith;
  uid = omega arith;
  gid = omega arith;
  mode = omega arith;
}

first_record :
    (shared : Shared) (sequence : ℕ)
    → sequence < 2 ^ 64
    → replay_snapshot_record true shared (pack no_owner sequence)
      ≡ some (record shared { sequence = sequence; checkpoint = sequence })
unfolding replay_snapshot_record
first_record shared sequence lt =
    let (size, sound, sequenced, same) = unpack-pack no_owner sequence no_owner-Fits lt in
    let free : ((unpack (pack no_owner sequence)).inode == 0) ≡ true = ground (arith, same) in
    rw (sound, free)
      (ap (λ (n : ℕ). some (record shared { sequence = n; checkpoint = n })) sequenced)

after_first :
    (shared next : Shared) (r : Bytes) (rs : List Bytes)
    → replay_snapshot_record true shared r ≡ some next
    → replay_snapshot_records true shared (r ∷ rs) ≡ replay_snapshot_records false next rs
unfolding replay_snapshot_records
after_first shared next r rs h = rw (h, replay_snapshot_records) refl

-- The snapshot of a sound table whose owners fit is read by `Replay`, whatever was in memory
-- before, as a table with the same lookups, as many owners and the sequence number.
pub replay_snapshot-records :
    (prior shared : Shared)
    → IsIndexed shared.files
    → ((i : ℕ) → Fits (shared.files i))
    → shared.sequence < 2 ^ 64
    → (base : Shared) × (replay_snapshot
          (begin_replay prior)
          (some (concat_bytes (snapshot_records shared)))
        ≡ some base)
      × Mirrors shared.files base.files
      × (base.sequence ≡ shared.sequence)
      × (base.checkpoint ≡ shared.sequence)
unfolding snapshot_records
replay_snapshot-records prior shared h fits lt =
    let empty = record (begin_replay prior) {
      sequence = shared.sequence;
      checkpoint = shared.sequence;
    } in
    let all =
      all_slots shared.files shared.sequence empty h lt fits (λ i. unfold begin_replay in refl) refl
        refl slots (le_refl slots) in
    (
      all.base,
      replay_concat (begin_replay prior) (pack no_owner shared.sequence)
            (slot_records slots shared.files shared.sequence) (length-pack no_owner shared.sequence)
            (slot_records-IsRecord slots shared.files shared.sequence)
          ∙ (after_first (begin_replay prior) empty _
                (slot_records slots shared.files shared.sequence)
                (first_record (begin_replay prior) shared.sequence lt)
              ∙ all.replayed),
      record {
        indexed = all.indexed;
        same = λ device inode. all.scanned device inode ∙ scan-lookup shared.files device inode h;
        count = all.count;
      },
      all.number,
      all.checkpoint,
    )
