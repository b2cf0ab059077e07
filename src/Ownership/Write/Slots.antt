-- ===== src/Ownership/Write/Slots.antt =====
-- The loop of `Replay` over the records of a snapshot, slot by slot.
use andlify.Common.{
  ℕ, zero, suc, ◌+◌, ◌*◌, ◌%◌, ◌^◌, ◌≤◌, ◌<◌, true, false, List, [], ◌∷◌, ◌++◌, ◌≡◌, inl, inr, refl,
  sym, ap, ◌∙◌, arith, if◌then◌else◌, ◌==◌, ltb, none, some, Bool-cases, Option-cases, take, drop,
  length, length-append,
}
use andlify.Common.Bytes.{Bytes}
use andlify.Common.Components.{All}
use andlify.Ownership.{FileOwner, no_owner}
use andlify.Ownership.Record.{pack}
use andlify.Ownership.Record.Laws.{Fits, unpack-pack}
use andlify.Ownership.Table.{
  slots, Files, is_free, is_for, lookup, write_owner, Shared, put, stored, einval, enospc,
}
use andlify.Ownership.Table.Laws.{IsIndexed}
use andlify.Ownership.Table.Map.{find_slot_total, put_found, lookup-put}
use andlify.Ownership.Table.Count.{
  used, used_none, used_free, used_taken, used_zero, used-write, used-le, free_slot,
}
use andlify.Ownership.Table.Mirror.{lookup_at, find_slot-lt-slots}
use andlify.Ownership.Table.Scan.{scan, scan-lookup, scan-none, scan-vacant}
use andlify.Ownership.Journal.{
  records, record_sequence, put_or_fail, replay_snapshot_record, replay_snapshot_records,
}
use andlify.Ownership.Write.{slot_records, concat_bytes}

abbrev pub IsRecord : Bytes → Type 0
IsRecord r = length r ≡ 64

drop_whole : (xs ys : Bytes) → drop (length xs) (xs ++ ys) ≡ ys
drop_whole [] ys = refl
drop_whole (x ∷ xs) ys = drop_whole xs ys

take_first : (xs ys : Bytes) → take (length xs) (xs ++ ys) ≡ xs
take_first [] ys = refl
take_first (x ∷ xs) ys = ap (λ l. x ∷ l) (take_first xs ys)

pub length-concat_bytes :
    (rs : List Bytes) → All IsRecord rs → length (concat_bytes rs) ≡ length rs * 64
unfolding concat_bytes
length-concat_bytes [] h = omega arith
length-concat_bytes (r ∷ rs) (h, t) =
    omega (arith, length-append r (concat_bytes rs), h, length-concat_bytes rs t)

pub records-concat_bytes :
    (rs : List Bytes) → All IsRecord rs → records (length rs) (concat_bytes rs) ≡ rs
unfolding records concat_bytes
records-concat_bytes [] h = refl
records-concat_bytes (r ∷ rs) (h, t) =
    let first = ap (λ n. take n (r ++ concat_bytes rs)) (sym h) ∙ take_first r (concat_bytes rs) in
    let rest = ap (λ n. drop n (r ++ concat_bytes rs)) (sym h) ∙ drop_whole r (concat_bytes rs) in
    rw (first, rest) (ap (λ l. r ∷ l) (records-concat_bytes rs t))

-- The loop over the snapshot, with one record more.
snoc :
    (shared base : Shared) (rs : List Bytes) (r : Bytes)
    → replay_snapshot_records false shared rs ≡ some base
    → replay_snapshot_records false shared (rs ++ (r ∷ [])) ≡ replay_snapshot_record false base r
unfolding replay_snapshot_records
snoc shared base [] r h =
    let same : shared ≡ base = ground arith in
    rw same (elim (Option-cases (replay_snapshot_record false base r)) [
      | inl e ↦ rw (e, replay_snapshot_records)
      | inr (s, e) ↦ rw (e, replay_snapshot_records)
    ])
snoc shared base (x ∷ rs) r h = elim (Option-cases (replay_snapshot_record false shared x)) [
  | inl e ↦ absurd (ground arith)
  | inr (s, e) ↦ rw (e, replay_snapshot_records) (snoc s base rs r (ground arith))
]

-- The table after the records of the first `n` slots.
pub record HasSlots (n : ℕ) (files : Files) (sequence : ℕ) (start : Shared) : Type 0 where
  pub base : Shared
  pub replayed : replay_snapshot_records false start (slot_records n files sequence) ≡ some base
  pub indexed : IsIndexed base.files
  pub scanned : (device inode : ℕ) → lookup base.files device inode ≡ scan n files device inode
  pub count : used slots base.files ≡ used n files
  pub number : base.sequence ≡ sequence
  pub checkpoint : base.checkpoint ≡ sequence

snapshot_record :
    (base base' : Shared) (owner : FileOwner) (sequence : ℕ)
    → Fits owner
    → sequence < 2 ^ 64
    → base.checkpoint ≡ sequence
    → put base owner ≡ stored base'
    → replay_snapshot_record false base (pack owner sequence) ≡ some base'
unfolding replay_snapshot_record put_or_fail
snapshot_record base base' owner sequence f lt e stores =
    let (size, sound, sequenced, same) = unpack-pack owner sequence f lt in
    let next : (record_sequence (pack owner sequence) == base.checkpoint) ≡ true =
      ground (arith, sequenced, e) in
    rw (sound, next, same)
      (ap (λ r. elim r [ stored shared' ↦ some shared' | einval ↦ none | enospc ↦ none ]) stores)

added : (a b : ℕ) {c d e : ℕ} → c ≡ a + b → b ≡ 1 → a ≡ d → e ≡ suc d → c ≡ e
added a b p q r s = omega arith

module _ (files : Files) (sequence : ℕ) (start : Shared) (h : IsIndexed files)
    (lt : sequence < 2 ^ 64) (fits : (i : ℕ) → Fits (files i))
    (empty : (i : ℕ) → start.files i ≡ no_owner) (number : start.sequence ≡ sequence)
    (checkpoint : start.checkpoint ≡ sequence) where
  -- A slot that is taken adds its owner.
  add_slot :
      (n : ℕ)
      → n < slots
      → is_free (files n) ≡ false
      → HasSlots n files sequence start
      → HasSlots (suc n) files sequence start
  unfolding slot_records scan
  add_slot n small taken old =
      let (i, below, vacant) =
        free_slot slots old.base.files (omega (arith, old.count, used-le n files)) in
      let owner = files n in
      let (q, at) = find_slot_total old.base.files owner.device owner.inode i below vacant in
      let stores = put_found old.base owner q (ground arith) at in
      let base' = record old.base {
        files = write_owner old.base.files q owner;
        version =
            if old.base.version % 2 == 1 then old.base.version else (old.base.version + 2) % 2 ^ 64;
      } in
      let fresh =
        sym (lookup_at old.base.files owner.device owner.inode q at)
        ∙ (old.scanned owner.device owner.inode ∙ scan-none n files n h taken (omega arith)) in
      let free : is_free (old.base.files q) ≡ true = ground (arith, fresh) in
      let room : ltb q slots ≡ true =
        ground (arith, find_slot-lt-slots old.base.files owner.device owner.inode q at) in
      let grows = used-write slots old.base.files q owner taken in
      record {
        base = base';
        replayed = rw taken (
            snoc start old.base (slot_records n files sequence) (pack owner sequence) old.replayed
            ∙ snapshot_record old.base base' owner sequence (fits n) lt old.checkpoint stores);
        indexed = (lookup-put old.base owner base' 0 0 old.indexed stores).0;
        scanned = λ device inode.
            (lookup-put old.base owner base' device inode old.indexed stores).1
            ∙ (ap (λ l. if is_for device inode owner then some owner else l)
                  (old.scanned device inode)
                ∙ rw taken refl);
        count =
            added (used slots old.base.files) _ grows (rw (room, free) refl) old.count
              (used_taken n files taken);
        number = old.number;
        checkpoint = old.checkpoint;
      }

  unfold_append : (rs : List Bytes) → rs ++ [] ≡ rs
  unfold_append [] = refl
  unfold_append (r ∷ rs) = ap (λ l. r ∷ l) (unfold_append rs)

  pub all_slots : (n : ℕ) → n ≤ slots → HasSlots n files sequence start
  unfolding slot_records replay_snapshot_records scan
  all_slots zero small = record {
    base = start;
    replayed = refl;
    indexed = λ i. inl (rw (empty i) refl);
    scanned = λ device inode.
        sym (scan-lookup start.files device inode (λ i. inl (ap is_free (empty i))))
        ∙ scan-vacant slots start.files device inode (λ i. ap is_free (empty i));
    count = used_none slots start.files (λ i. ap is_free (empty i)) ∙ sym (used_zero files);
    number = number;
    checkpoint = checkpoint;
  }
  all_slots (suc n) small =
      let old = all_slots n (omega arith) in
      elim (Bool-cases (is_free (files n))) [
        | inr taken ↦ add_slot n (omega arith) taken old
        | inl free ↦ record {
          base = old.base;
          replayed = rw free (
              ap (replay_snapshot_records false start)
                (unfold_append (slot_records n files sequence))
              ∙ old.replayed);
          indexed = old.indexed;
          scanned = λ device inode. rw free (old.scanned device inode);
          count = old.count ∙ sym (used_free n files free);
          number = old.number;
          checkpoint = old.checkpoint;
        }
      ]
