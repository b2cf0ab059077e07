-- ===== src/Permissions/Create/Laws.antt =====
-- The owner and the mode of what a tracee creates.
use andlify.Common.{ℕ, ◌%◌, ◌^◌, true, ◌||◌, ◌≡◌, ◌⊎◌, refl, sym, ap, ◌∙◌, arith, some}
use Prim.Native.Nat.{bit_and, bit_or}
use andlify.Common.Bits.{
  bit_and_assoc, bit_and_comm, bit_and-zero, zero-bit_and, zero-bit_or, bit_or-zero, bit_and-bit_or,
}
use andlify.Ownership.{FileOwner}
use andlify.Permissions.{
  FileCredentials, group, has, is_reg, is_fifo, is_dir, is_lnk, s_ifmt, s_isgid,
}
use andlify.Permissions.Change.{not_set_gid}
use andlify.Permissions.Create.{
  unmasked, new_gid, opened_owner, NewEntry, directory, node, link, new_mode, created_owner,
}

-- The bits of two parts, one of which has none of them.
part : (x y k : ℕ) → bit_and y k ≡ 0 → bit_and (bit_or x y) k ≡ bit_and x k
part x y k e = bit_and-bit_or x y k ∙ (ap (bit_or (bit_and x k)) e ∙ bit_or-zero (bit_and x k))

-- Permissions have none of the bits `k` above them, masked or not.
masked : (x y k : ℕ) → bit_and 0xfff k ≡ 0 → bit_and (bit_and (bit_and x 0xfff) y) k ≡ 0
masked x y k e =
    let above = bit_and_assoc x 0xfff k ∙ (ap (bit_and x) e ∙ bit_and-zero x) in
    bit_and_assoc (bit_and x 0xfff) y k
    ∙ (ap (bit_and (bit_and x 0xfff)) (bit_and_comm y k)
        ∙ (sym (bit_and_assoc (bit_and x 0xfff) k y)
            ∙ (ap (λ n. bit_and n y) above ∙ zero-bit_and y)))

-- A file of the caller's, in its group or in that of a set-group-id directory.
pub record Belongs (parent : FileOwner) (c : FileCredentials) (made : FileOwner) : Type 0 where
  pub uid : made.uid ≡ c.uid
  pub gid : (made.gid ≡ c.gid) ⊎ (has s_isgid parent.mode ≡ true) × (made.gid ≡ parent.gid)

new_gid-cases :
    (parent : FileOwner) (c : FileCredentials)
    → (new_gid parent c ≡ c.gid)
      ⊎ (has s_isgid parent.mode ≡ true) × (new_gid parent c ≡ parent.gid)
unfolding new_gid
new_gid-cases parent c = ground arith

opened_mode :
    (parent : FileOwner) (c : FileCredentials) (mode : ℕ)
    → bit_and (opened_owner parent c mode).mode s_ifmt ≡ 0x8000
unfolding opened_owner
opened_mode parent c mode =
    let plain =
      part 0x8000 (bit_and (bit_and mode 0xfff) (unmasked c)) s_ifmt
        (masked mode (unmasked c) s_ifmt refl) in
    let less =
      bit_and_assoc (bit_or 0x8000 (bit_and (bit_and mode 0xfff) (unmasked c))) not_set_gid s_ifmt
      ∙ plain in
    ground (arith, plain, less)

opened_set_gid :
    (parent : FileOwner) (c : FileCredentials) (mode : ℕ)
    → let made = opened_owner parent c mode in
      (c.uid ≡ 0) ⊎ (group c made.gid ≡ true) ⊎ (bit_and made.mode s_isgid ≡ 0)
unfolding opened_owner
opened_set_gid parent c mode =
    let less =
      bit_and_assoc (bit_or 0x8000 (bit_and (bit_and mode 0xfff) (unmasked c))) not_set_gid s_isgid
      ∙ bit_and-zero (bit_or 0x8000 (bit_and (bit_and mode 0xfff) (unmasked c))) in
    ground (arith, less)

-- A file that `openat` makes is a regular one, whatever mode was asked for; it belongs to the caller,
-- or in its group to a set-group-id directory; and it is set-group-id only where the caller is root
-- or of the group.
pub opened_owner-Belongs :
    (parent : FileOwner) (c : FileCredentials) (mode : ℕ)
    → let made = opened_owner parent c mode in
      Belongs parent c made
      × (is_reg made.mode ≡ true)
      × ((c.uid ≡ 0) ⊎ (group c made.gid ≡ true) ⊎ (bit_and made.mode s_isgid ≡ 0))
opened_owner-Belongs parent c mode = (
  record { uid = unfold opened_owner in refl; gid = unfold opened_owner in new_gid-cases parent c },
  (let e = opened_mode parent c mode in ground arith),
  opened_set_gid parent c mode,
)

directory_mode :
    (parent : FileOwner) (c : FileCredentials) (mode : ℕ)
    → bit_and (new_mode directory parent c mode) s_ifmt ≡ 0x4000
unfolding new_mode
directory_mode parent c mode =
    let asked = bit_and (mode % 2 ^ 32) (unmasked c) in
    let low = bit_and_assoc asked 0xfff s_ifmt ∙ bit_and-zero asked in
    let inherited = bit_and_assoc parent.mode s_isgid s_ifmt ∙ bit_and-zero parent.mode in
    part (bit_or (bit_and asked 0xfff) 0x4000) (bit_and parent.mode s_isgid) s_ifmt inherited
    ∙ (bit_and-bit_or (bit_and asked 0xfff) 0x4000 s_ifmt
        ∙ (ap (λ (n : ℕ). bit_or n 0x4000) low ∙ zero-bit_or 0x4000))

-- What `mkdirat`, `mknodat` or `symlinkat` makes belongs to the caller, or in its group to a
-- set-group-id directory, and is a directory, a regular file or a queue, or a link: never a device.
pub created_owner-Belongs :
    (entry : NewEntry) (parent : FileOwner) (c : FileCredentials) (mode : ℕ) (made : FileOwner)
    → created_owner entry parent c mode ≡ some made
    → Belongs parent c made
      × ((entry ≡ directory) × (is_dir made.mode ≡ true)
          ⊎ (entry ≡ node) × ((is_reg made.mode || is_fifo made.mode) ≡ true)
          ⊎ (entry ≡ link) × (is_lnk made.mode ≡ true))
unfolding created_owner
created_owner-Belongs directory parent c mode made h =
    let gid = new_gid-cases parent c in
    let dir = directory_mode parent c mode in
    (record { uid = ground arith; gid = ground arith }, ground arith)
created_owner-Belongs node parent c mode made h =
    let gid = new_gid-cases parent c in
    (record { uid = ground arith; gid = ground arith }, ground arith)
created_owner-Belongs link parent c mode made h =
    let gid = new_gid-cases parent c in
    (record { uid = ground arith; gid = ground arith }, unfold new_mode in ground arith)
