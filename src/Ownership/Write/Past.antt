-- ===== src/Ownership/Write/Past.antt =====
-- The records of a journal that has been replayed: a replay from its end on skips them.
use andlify.Common.{
  ℕ, ◌+◌, ◌%◌, ◌^◌, ◌≤◌, ◌<◌, true, false, List, [], ◌∷◌, ◌≡◌, inl, inr, refl, sym, ap, ◌∙◌, arith,
  ltb, none, some, Bool-cases, Option-cases,
}
use andlify.Common.Bytes.{Bytes}
use andlify.Common.Components.{All}
use andlify.Ownership.{FileOwner}
use andlify.Ownership.Record.{unpack, is_sound}
use andlify.Ownership.Table.{
  hash, slots, put_from, Shared, put, stored, einval, enospc, stored_or_full,
}
use andlify.Ownership.Journal.{
  record_sequence, put_or_fail, replay_journal_record, replay_journal_records,
}

put-kept :
    (shared shared' : Shared) (owner : FileOwner)
    → put shared owner ≡ stored shared'
    → (shared'.sequence ≡ shared.sequence) × (shared'.checkpoint ≡ shared.checkpoint)
unfolding put stored_or_full
put-kept shared shared' owner h =
    elim (Option-cases (put_from slots (hash owner.device owner.inode) shared.files owner)) [
      | inl e ↦ absurd (ground arith)
      | inr (f, e) ↦ (ground arith, ground arith)
    ]

put_or_fail-kept :
    (shared shared' : Shared) (owner : FileOwner)
    → put_or_fail shared owner ≡ some shared'
    → (shared'.sequence ≡ shared.sequence) × (shared'.checkpoint ≡ shared.checkpoint)
unfolding put_or_fail
put_or_fail-kept shared shared' owner = go (put shared owner) refl
  where
    go :
        (r : _)
        → put shared owner ≡ r
        → (elim r [ stored s ↦ some s | einval ↦ none | enospc ↦ none ]) ≡ some shared'
        → (shared'.sequence ≡ shared.sequence) × (shared'.checkpoint ≡ shared.checkpoint)
    go (stored s) e h =
        let same : s ≡ shared' = ground arith in put-kept shared shared' owner (e ∙ ap stored same)
    go einval e h = absurd (ground arith)
    go enospc e h = absurd (ground arith)

-- A record that is skipped by a replay from the sequence number `n` on.
abbrev pub IsPast : ℕ → Bytes → Type 0
IsPast n r = (is_sound r ≡ true) × (record_sequence r ≤ n)

pub IsPast-le : (n m : ℕ) (rs : List Bytes) → n ≤ m → All (IsPast n) rs → All (IsPast m) rs
IsPast-le n m [] h p = tt
IsPast-le n m (r ∷ rs) h ((sound, le), p) = ((sound, omega (arith, h, le)), IsPast-le n m rs h p)

pub record IsLater (shared next : Shared) : Type 0 where
  pub sequence : shared.sequence ≤ next.sequence
  pub checkpoint : next.checkpoint ≡ shared.checkpoint
  pub small : next.sequence < 2 ^ 64

step-IsPast :
    (shared next : Shared) (r : Bytes)
    → shared.sequence < 2 ^ 64
    → shared.checkpoint ≤ shared.sequence
    → replay_journal_record shared r ≡ some next
    → IsPast next.sequence r × IsLater shared next
unfolding replay_journal_record
step-IsPast shared next r lt le h = elim (Bool-cases (ltb shared.checkpoint (record_sequence r))) [
  | inr e ↦
      let same : shared ≡ next = ground arith in
      let number = ap (λ (s : Shared). s.sequence) same in
      let check = ap (λ (s : Shared). s.checkpoint) same in
      (
        (ground arith, ground (arith, number)),
        record {
          sequence = omega (arith, number);
          checkpoint = sym check;
          small = omega (arith, number);
        },
      )
  | inl e ↦ elim (Option-cases (put_or_fail shared (unpack r))) [
    | inl f ↦ absurd (ground arith)
    | inr (s, f) ↦
        let kept = put_or_fail-kept shared s (unpack r) f in
        let same : record s { sequence = record_sequence r } ≡ next = ground arith in
        let number : record_sequence r ≡ next.sequence = ap (λ (s : Shared). s.sequence) same in
        let check : s.checkpoint ≡ next.checkpoint = ap (λ (s : Shared). s.checkpoint) same in
        let follows : record_sequence r ≡ (shared.sequence + 1) % 2 ^ 64 = ground arith in
        let past : shared.checkpoint < record_sequence r = ground arith in
        (
          (ground arith, omega (arith, number)),
          record {
            sequence = omega (arith, number, follows, past, lt);
            checkpoint = sym check ∙ kept.1;
            small = omega (arith, number, follows);
          },
        )
  ]
]

pub replayed-IsPast :
    (shared base : Shared) (rs : List Bytes)
    → shared.sequence < 2 ^ 64
    → shared.checkpoint ≤ shared.sequence
    → replay_journal_records shared rs ≡ some base
    → All (IsPast base.sequence) rs × IsLater shared base
unfolding replay_journal_records
replayed-IsPast shared base [] lt le h =
    let same : shared ≡ base = ground arith in
    let number = ap (λ (s : Shared). s.sequence) same in
    let check = ap (λ (s : Shared). s.checkpoint) same in
    (
      tt,
      record {
        sequence = omega (arith, number);
        checkpoint = sym check;
        small = omega (arith, number);
      },
    )
replayed-IsPast shared base (r ∷ rs) lt le h =
    elim (Option-cases (replay_journal_record shared r)) [
      | inl e ↦ absurd (ground arith)
      | inr (next, e) ↦
          let (past, later) = step-IsPast shared next r lt le e in
          let (rest, more) =
            replayed-IsPast next base rs later.small
              (omega (arith, le, later.sequence, later.checkpoint)) (ground arith) in
          (
            ((past.0, omega (arith, past.1, more.sequence)), rest),
            record {
              sequence = omega (arith, later.sequence, more.sequence);
              checkpoint = more.checkpoint ∙ later.checkpoint;
              small = more.small;
            },
          )
    ]

skip_one :
    (shared : Shared) (r : Bytes)
    → IsPast shared.checkpoint r
    → replay_journal_record shared r ≡ some shared
unfolding replay_journal_record
skip_one shared r (sound, le) =
    let old : ltb shared.checkpoint (record_sequence r) ≡ false = ground arith in
    rw (sound, old) refl

pub skip_past :
    (shared : Shared) (rs : List Bytes)
    → All (IsPast shared.checkpoint) rs
    → replay_journal_records shared rs ≡ some shared
unfolding replay_journal_records
skip_past shared [] h = refl
skip_past shared (r ∷ rs) (past, h) =
    let one = skip_one shared r past in rw (one, replay_journal_records) (skip_past shared rs h)
