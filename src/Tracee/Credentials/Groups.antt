-- ===== src/Tracee/Credentials/Groups.antt =====
-- `setgroups` and `getgroups`.
use andlify.Common.{
  ℕ, zero, suc, ◌+◌, ◌*◌, ◌≤◌, ◌<◌, [], ◌∷◌, ◌≡◌, ◌≢◌, refl, arith, if◌then◌else◌, some, length,
}
use andlify.Common.Bytes.{Bytes}
use andlify.Common.Components.{All}
use andlify.Tracee.{TraceeState, Memory, root_uid, negated, efault}
use andlify.Tracee.Credentials.{
  bytes_of_id, bytes_of_ids, ids_of_bytes, set_groups, get_groups, max_supplementary_groups,
}

abbrev pub IsByte : ℕ → Type 0
IsByte b = b < 256

-- Four bytes for each id, read and written back.
pub bytes_of_ids-ids_of_bytes :
    (n : ℕ) (bytes : Bytes)
    → length bytes ≡ n * 4
    → All IsByte bytes
    → (bytes_of_ids (ids_of_bytes bytes) ≡ bytes) × (length (ids_of_bytes bytes) ≡ n)
unfolding bytes_of_ids ids_of_bytes bytes_of_id
bytes_of_ids-ids_of_bytes zero [] h b = (refl, refl)
bytes_of_ids-ids_of_bytes zero (x ∷ bytes) h b = absurd (omega arith)
bytes_of_ids-ids_of_bytes (suc n) [] h b = absurd (omega arith)
bytes_of_ids-ids_of_bytes (suc n) (w ∷ []) h b = absurd (omega arith)
bytes_of_ids-ids_of_bytes (suc n) (w ∷ x ∷ []) h b = absurd (omega arith)
bytes_of_ids-ids_of_bytes (suc n) (w ∷ x ∷ y ∷ []) h b = absurd (omega arith)
bytes_of_ids-ids_of_bytes (suc n) (w ∷ x ∷ y ∷ z ∷ bytes) h (bw, (bx, (by', (bz, b)))) =
    let (e, l) = bytes_of_ids-ids_of_bytes n bytes (omega arith) b in
    let id = w + 256 * x + 65536 * y + 16777216 * z in (ground arith, ground arith)

module _ {M : Type 0} (memory : Memory M) where
  -- What root sets by `setgroups` is what `getgroups` writes, byte for byte, into any buffer that is
  -- large enough, wherever and whenever it is called; its result is the number of groups.
  pub get_groups-set_groups :
      (state : TraceeState) (m m' : M) (size list size' list' : ℕ) (bytes : Bytes)
      → state.uid.effective ≡ root_uid
      → 0 < size
      → size ≤ max_supplementary_groups
      → list ≢ 0
      → memory.read m list (size * 4) ≡ some bytes
      → length bytes ≡ size * 4
      → All IsByte bytes
      → size ≤ size'
      → list' ≢ 0
      → ((set_groups memory state m size list).0 ≡ 0)
        × (get_groups memory (set_groups memory state m size list).1 m' size' list' ≡ (
          if (memory.write m' list' bytes).0 then size else negated efault,
          (set_groups memory state m size list).1,
          (memory.write m' list' bytes).1,
        ))
  unfolding set_groups get_groups
  get_groups-set_groups state m m' size list size' list' bytes p a b c r l by' d e =
      let (q, n) = bytes_of_ids-ids_of_bytes size bytes l by' in ground arith
