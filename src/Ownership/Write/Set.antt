-- ===== src/Ownership/Write/Set.antt =====
-- `SetLocked` as a whole: it takes effect or it does not, in memory and in the files.
use andlify.Common.{
  ℕ, ◌+◌, ◌^◌, ◌<◌, Bool, true, not, ◌&&◌, [], ◌∷◌, ◌++◌, ◌≡◌, ◌≢◌, ◌⊎◌, inl, inr, refl, sym, ap,
  ◌∙◌, arith, if◌then◌else◌, Option, some, Bool-cases, Option-cases, length, length-append,
}
use mathlib.Core.Path.{subst}
use andlify.Common.Bytes.{Bytes}
use andlify.Ownership.{FileOwner}
use andlify.Ownership.Record.{pack}
use andlify.Ownership.Record.Laws.{Fits, length-pack}
use andlify.Ownership.Table.{lookup, Shared}
use andlify.Ownership.Table.Laws.{find_slot}
use andlify.Ownership.Write.{
  WriteStatus, complete, incomplete, cut, write_all, Store, Events, SetStatus, set_done, set_failed,
  set_died, set_result, put_written, journal_bytes, next_sequence, append_owner, is_previous,
  is_same, set_locked,
}
use andlify.Ownership.Write.Append.{IsPartly, write_all-IsPartly, append_nil}
use andlify.Ownership.Write.Durable.{Durable}
use andlify.Ownership.Write.Recovery.{
  Recovers, look_with, Durable-Recovers, torn-Recovers, Settles, counted, appended, placed,
  appended-Settles, put_written-Settles,
}
use andlify.Ownership.Write.Atomic.{IsAtomic, Settles-Recovers, Settles-IsAtomic, same-Settles}

module _ (prior : Shared) (owner : FileOwner) (durable : Bool) (events : Events) (store : Store)
    (p : ℕ) (used : owner.inode ≢ 0) (f : Fits owner) (lt : store.shared.sequence + 1 < 2 ^ 64)
    (at : find_slot store.shared.files owner.device owner.inode ≡ some p)
    (old : Durable prior store.shared.files store.shared.sequence store.disk) where
  data_lem : pack owner (next_sequence store.shared) ≡ pack owner (store.shared.sequence + 1)
  data_lem = ap (pack owner) (omega arith)

  -- The write broke off: a part of the record is at the end of the journal.
  partly-IsAtomic :
      (file done rest : Bytes) (status : SetStatus)
      → pack owner (store.shared.sequence + 1) ≡ done ++ rest
      → file ≡ journal_bytes store.disk.journal ++ done
      → rest ≢ []
      → status ≢ set_done
      → IsAtomic prior owner store.shared.files (
          set_result status
            (record store.shared { dirty = true })
            (record store.disk { journal = some file }))
  partly-IsAtomic file done rest status split left more other =
      let size = length-pack owner (store.shared.sequence + 1) in
      let parts = ap length split in
      let some_left = not_empty rest more in
      let torn =
        torn-Recovers prior store.shared.files store.shared.sequence store.disk done
          (omega (arith, size, parts, some_left, length-append done rest)) old in
      record {
        recovers = inl (
            subst
              (λ (b : Bytes).
                Recovers prior (record store.disk { journal = some b }) (lookup store.shared.files))
              (sym left) torn);
        settles = λ e. absurd (other e);
      }
    where
      not_empty : (xs : Bytes) → xs ≢ [] → 0 < length xs
      not_empty [] h = absurd (h refl)
      not_empty (x ∷ xs) h = omega arith

  -- The whole record is in the journal.
  whole-IsAtomic :
      (file : Bytes)
      → file ≡ journal_bytes store.disk.journal ++ pack owner (store.shared.sequence + 1)
      → IsAtomic prior owner store.shared.files (
          if durable && not events.synced
          then set_result set_failed
              (record store.shared { dirty = true })
              (record store.disk { journal = some file })
          else put_written owner events.checkpoint_end
              (record store.shared { dirty = true; sequence = next_sequence store.shared })
              (record store.disk { journal = some file }))
  whole-IsAtomic file left = elim (Bool-cases (durable && not events.synced)) [
    | inl e ↦
        let (next, stores, number, files) =
          placed prior store.shared owner store.disk p used f lt at old
            (counted prior store.shared owner store.disk p used f lt at old) refl in
        let settled =
          appended-Settles prior store.shared owner store.disk p used f lt at old next files
            number in
        let fine =
          Settles-Recovers prior owner store.shared.files
            (record {
              shared = next;
              disk = appended prior store.shared owner store.disk p used f lt at old;
            })
            settled in
        rw e (record {
          recovers = inr (
              subst
                (λ (b : Bytes).
                  Recovers prior (record store.disk { journal = some b })
                    (look_with owner store.shared.files))
                (sym left) fine);
          settles = λ h. absurd (ground arith);
        })
    | inr e ↦
        let settled =
          put_written-Settles prior store.shared owner store.disk p used f lt at old
            events.checkpoint_end in
        let number : store.shared.sequence + 1 ≡ next_sequence store.shared = omega arith in
        rw e (
          Settles-IsAtomic prior owner store.shared.files _ (
            subst
              (λ (n : ℕ).
                Settles prior owner store.shared.files
                  (put_written owner events.checkpoint_end
                    (record store.shared { dirty = true; sequence = n })
                    (record store.disk { journal = some file })).store)
              number
              (subst
                (λ (b : Bytes).
                  Settles prior owner store.shared.files
                    (put_written owner events.checkpoint_end
                      (record store.shared { dirty = true; sequence = store.shared.sequence + 1 })
                      (record store.disk { journal = some b })).store)
                (sym left) settled)))
  ]

  append_owner-IsAtomic :
      IsAtomic prior owner store.shared.files (append_owner owner durable events store)
  unfolding append_owner
  append_owner-IsAtomic = elim (Bool-cases (not events.journal_opens)) [
    | inl e ↦ rw e (record {
      recovers =
          inl (Durable-Recovers prior store.shared.files store.shared.sequence store.disk old);
      settles = λ h. absurd (ground arith);
    })
    | inr e ↦ rw e (
        let written =
          write_all events.answers (journal_bytes store.disk.journal)
            (pack owner (next_sequence store.shared)) in
        let partly =
          write_all-IsPartly events.answers (journal_bytes store.disk.journal)
            (pack owner (next_sequence store.shared)) in
        go written.file written.status partly)
  ]
    where
      go :
          (file : Bytes) (status : WriteStatus)
          → IsPartly
              (journal_bytes store.disk.journal)
              (pack owner (next_sequence store.shared))
              (record { status = status; file = file })
          → IsAtomic prior owner store.shared.files (elim status [
            | cut ↦
                set_result set_died
                  (record store.shared { dirty = true })
                  (record store.disk { journal = some file })
            | incomplete ↦
                set_result set_failed
                  (record store.shared { dirty = true })
                  (record store.disk { journal = some file })
            | complete ↦
                if durable && not events.synced
                then set_result set_failed
                    (record store.shared { dirty = true })
                    (record store.disk { journal = some file })
                else put_written owner events.checkpoint_end
                    (record store.shared { dirty = true; sequence = next_sequence store.shared })
                    (record store.disk { journal = some file })
          ])
      go file complete h = elim h.all [
        | inl (e, none_left) ↦
            let whole : h.done ≡ pack owner (store.shared.sequence + 1) =
              append_nil h.done
              ∙ (ap (λ l. h.done ++ l) (sym none_left) ∙ (sym h.split ∙ data_lem)) in
            whole-IsAtomic file (h.left ∙ ap (λ l. journal_bytes store.disk.journal ++ l) whole)
        | inr (e, more) ↦ absurd (e refl)
      ]
      go file incomplete h = elim h.all [
        | inl (e, none_left) ↦ absurd (ground arith)
        | inr (e, more) ↦
            partly-IsAtomic file h.done h.rest set_failed (sym data_lem ∙ h.split) h.left more
              (ground arith)
      ]
      go file cut h = elim h.all [
        | inl (e, none_left) ↦ absurd (ground arith)
        | inr (e, more) ↦
            partly-IsAtomic file h.done h.rest set_died (sym data_lem ∙ h.split) h.left more
              (ground arith)
      ]

module _ (prior : Shared) (owner : FileOwner) (durable : Bool) (previous : Option FileOwner)
    (events : Events) (store : Store) (used : owner.inode ≢ 0) (f : Fits owner)
    (lt : store.shared.sequence + 1 < 2 ^ 64)
    (old : Durable prior store.shared.files store.shared.sequence store.disk) where
  set_locked-IsAtomic :
      IsAtomic prior owner store.shared.files (set_locked owner durable previous events store)
  unfolding set_locked
  set_locked-IsAtomic =
      let before = Durable-Recovers prior store.shared.files store.shared.sequence store.disk old in
      elim (Option-cases (find_slot store.shared.files owner.device owner.inode)) [
        | inl e ↦
            rw (e, set_locked)
              (record { recovers = inl before; settles = λ h. absurd (ground arith) })
        | inr (p, e) ↦
            rw (e, set_locked)
              (elim (Bool-cases (not (is_previous previous (store.shared.files p)))) [
                | inl g ↦
                    rw g (record { recovers = inl before; settles = λ h. absurd (ground arith) })
                | inr g ↦ rw g (elim (Bool-cases (is_same (store.shared.files p) owner)) [
                  | inl s ↦ rw s (record {
                    recovers = inl before;
                    settles = λ h. same-Settles prior owner store p e s old;
                  })
                  | inr s ↦
                      rw s
                        (append_owner-IsAtomic prior owner durable events store p used f lt e old)
                ])
              ])
      ]

  -- Where the files of the store hold its table, the owner's fields fit, its inode is not 0 and
  -- the sequence number is not the last, the files that `SetLocked` leaves, whatever the kernel
  -- answers and wherever the process dies, are replayed to a sound table with the contents from
  -- before or those with the owner and nothing else changed.
  pub set_locked-Recovers :
      Recovers prior
        (set_locked owner durable previous events store).store.disk
        (lookup store.shared.files)
      ⊎ Recovers prior
          (set_locked owner durable previous events store).store.disk
          (look_with owner store.shared.files)
  set_locked-Recovers = set_locked-IsAtomic.recovers

  -- Where the files of the store hold its table, the owner's fields fit, its inode is not 0, the
  -- sequence number is not the last and `SetLocked` succeeds, the table has the owner for its key
  -- and what it had for every other, and the files hold it again.
  pub set_locked-Settles :
      (set_locked owner durable previous events store).status ≡ set_done
      → Settles prior owner store.shared.files
          (set_locked owner durable previous events store).store
  set_locked-Settles = set_locked-IsAtomic.settles
