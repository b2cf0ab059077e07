-- ===== src/Permissions/Change/Laws.antt =====
-- What a change of owner or mode that succeeds has done, and for whom.
use andlify.Common.{
  ℕ, ◌+◌, Bool, true, ◌≡◌, ◌≢◌, ◌⊎◌, inl, inr, refl, ap, ◌∙◌, arith, Bool-cases, ◌==◌, Option, none,
  some,
}
use Prim.Native.Nat.{bit_and, bit_or}
use andlify.Common.Bytes.{Bytes}
use andlify.Common.Bits.{bit_and_assoc, bit_and-zero, bit_or-zero, bit_and-bit_or}
use andlify.Ownership.{FileOwner}
use andlify.Permissions.{
  FileCredentials, Files, Result, ok, error, group, access_allowed, sticky, parent_path, owner_of,
  parent_of, is_dir, s_ifmt, s_isuid, s_isgid, s_isvtx, w_ok, x_ok,
}
use andlify.Permissions.Change.{
  returns, proceeds, not_set_ids, not_set_gid, may_chown, chowned, chmod_mode, chmodded, outcome_of,
  chown_file, chmod_file, remove_entry,
}

-- What an unprivileged caller may make of a file by `chown`.
pub record MayChown (c : FileCredentials) (old new : FileOwner) : Type 0 where
  pub caller : c.uid ≡ old.uid
  pub uid : new.uid ≡ old.uid
  pub gid : (new.gid ≡ old.gid) ⊎ (group c new.gid ≡ true)
  pub set_ids : (is_dir old.mode ≡ true) ⊎ (new ≡ old) ⊎ (bit_and new.mode (s_isuid + s_isgid) ≡ 0)

cleared : (mode : ℕ) → bit_and (bit_and mode not_set_ids) (s_isuid + s_isgid) ≡ 0
cleared mode = bit_and_assoc mode not_set_ids (s_isuid + s_isgid) ∙ bit_and-zero mode

chowned-MayChown :
    (c : FileCredentials) (owner : FileOwner) (uid gid : ℕ)
    → c.uid ≢ 0
    → may_chown c owner uid gid ≡ true
    → MayChown c owner (chowned owner uid gid)
unfolding may_chown chowned
chowned-MayChown c owner uid gid u h = record {
  caller = ground arith;
  uid = ground arith;
  gid = ground arith;
  set_ids = ground (arith, cleared owner.mode);
}

outcome_lem : {S : Type 0} (r : Result Unit × S) (s : S) → outcome_of r ≡ returns s → r ≡ (ok tt, s)
unfolding outcome_of
outcome_lem (error e, s') s h = absurd (ground arith)
outcome_lem (ok u, s') s h = ground arith

Result-cases :
    {S : Type 0} (r : Result Unit × S)
    → ((s : S) × (r ≡ (ok tt, s))) ⊎ ((e : ℕ) × (s : S) × (r ≡ (error e, s)))
Result-cases (ok u, s) = inl (s, refl)
Result-cases (error e, s) = inr (e, s, refl)

-- What `chmod` may make of a file, for a caller that is not root: its own file stays of its type and
-- owner, and becomes set-group-id only where the caller is of the group.
pub record MayChmod (c : FileCredentials) (old new : FileOwner) : Type 0 where
  pub caller : (c.uid ≡ 0) ⊎ (c.uid ≡ old.uid)
  pub owners : (new.uid ≡ old.uid) × (new.gid ≡ old.gid)
  pub type : bit_and new.mode s_ifmt ≡ bit_and old.mode s_ifmt
  pub set_gid : (c.uid ≡ 0) ⊎ (group c old.gid ≡ true) ⊎ (bit_and new.mode s_isgid ≡ 0)

-- The permission bits have no part in the type.
chmod_mode-type :
    (c : FileCredentials) (owner : FileOwner) (requested : ℕ)
    → bit_and (chmod_mode c owner requested) s_ifmt ≡ 0
unfolding chmod_mode
chmod_mode-type c owner requested =
    let plain = bit_and_assoc requested 0xfff s_ifmt ∙ bit_and-zero requested in
    let less = bit_and_assoc (bit_and requested 0xfff) not_set_gid s_ifmt ∙ plain in
    ground (arith, plain, less)

chmod_mode-set_gid :
    (c : FileCredentials) (owner : FileOwner) (requested : ℕ)
    → (c.uid ≡ 0)
      ⊎ (group c owner.gid ≡ true)
      ⊎ (bit_and (chmod_mode c owner requested) s_isgid ≡ 0)
unfolding chmod_mode
chmod_mode-set_gid c owner requested =
    let less =
      bit_and_assoc (bit_and requested 0xfff) not_set_gid s_isgid
      ∙ bit_and-zero (bit_and requested 0xfff) in
    ground (arith, less)

bit_or-zero_of : (x y : ℕ) → y ≡ 0 → bit_or x y ≡ x
bit_or-zero_of x y e = ap (bit_or x) e ∙ bit_or-zero x

chmodded-type :
    (c : FileCredentials) (owner : FileOwner) (requested : ℕ)
    → bit_and (chmodded c owner requested).mode s_ifmt ≡ bit_and owner.mode s_ifmt
unfolding chmodded
chmodded-type c owner requested =
    bit_and-bit_or (bit_and owner.mode s_ifmt) (chmod_mode c owner requested) s_ifmt
    ∙ (bit_or-zero_of (bit_and (bit_and owner.mode s_ifmt) s_ifmt) _
          (chmod_mode-type c owner requested)
        ∙ bit_and_assoc owner.mode s_ifmt s_ifmt)

chmodded-set_gid :
    (c : FileCredentials) (owner : FileOwner) (requested : ℕ)
    → (c.uid ≡ 0)
      ⊎ (group c owner.gid ≡ true)
      ⊎ (bit_and (chmodded c owner requested).mode s_isgid ≡ 0)
unfolding chmodded
chmodded-set_gid c owner requested =
    let type = bit_and_assoc owner.mode s_ifmt s_isgid ∙ bit_and-zero owner.mode in
    elim (chmod_mode-set_gid c owner requested) [
      | inl root ↦ inl root
      | inr (inl member) ↦ inr (inl member)
      | inr (inr clear) ↦ inr (
          inr (
            bit_and-bit_or (bit_and owner.mode s_ifmt) (chmod_mode c owner requested) s_isgid
            ∙ (bit_or-zero_of (bit_and (bit_and owner.mode s_ifmt) s_isgid) _ clear ∙ type)))
    ]

module _ {S : Type 0} (files : Files S) (c : FileCredentials) (owner : FileOwner) where
  -- A `chown` by a caller that is not root succeeds only where the caller owns the file, and what it
  -- enters into the store has the same user and a group that is the old one or one of the caller's;
  -- unless the file is a directory or nothing is changed, it is no more set-user-id or set-group-id.
  pub chown_file-MayChown :
      (s s' : S) (at : Bool) (flags uid gid : ℕ)
      → c.uid ≢ 0
      → chown_file files c s at flags uid gid (some owner) ≡ returns s'
      → (new : FileOwner) × (files.set s new (some owner) ≡ (ok tt, s')) × MayChown c owner new
  unfolding chown_file
  chown_file-MayChown s s' at flags uid gid u h =
      let stored = outcome_lem (files.set s (chowned owner uid gid) (some owner)) s' in
      (
        chowned owner uid gid,
        stored (ground arith),
        chowned-MayChown c owner uid gid u (ground arith),
      )

  -- A `chmod` succeeds only for root or the file's owner, and what it enters into the store keeps its
  -- user, its group and its type, and is set-group-id only where the caller is root or of the group.
  pub chmod_file-MayChmod :
      (s s' : S) (path : Bytes) (at2 : Bool) (flags requested : ℕ)
      → chmod_file files c s path at2 flags requested (some owner) ≡ returns s'
      → (new : FileOwner) × (stored : S) × (files.set s new (some owner) ≡ (ok tt, stored))
        × MayChmod c owner new
  unfolding chmod_file
  chmod_file-MayChmod s s' path at2 flags requested h =
      let set_to = files.set s (chmodded c owner requested) (some owner) in
      elim (Result-cases set_to) [
        | inl (stored, e) ↦ (
          chmodded c owner requested,
          stored,
          e,
          record {
            caller = ground arith;
            owners = unfold chmodded in (refl, refl);
            type = chmodded-type c owner requested;
            set_gid = chmodded-set_gid c owner requested;
          },
        )
        | inr (errno, stored, e) ↦ absurd (ground arith)
      ]

-- The checks that the caller has passed for an entry that it takes out of the directory `parent`.
pub record MayRemove (c : FileCredentials) (parent owner : FileOwner) : Type 0 where
  pub writes : access_allowed parent c (w_ok + x_ok) ≡ true
  pub owns :
      (bit_and parent.mode s_isvtx ≡ 0) ⊎ (c.uid ≡ 0) ⊎ (c.uid ≡ parent.uid) ⊎ (c.uid ≡ owner.uid)

owner-cases :
    {S : Type 0} (r : Result FileOwner × S)
    → ((o : FileOwner) × (s : S) × (r ≡ (ok o, s))) ⊎ ((e : ℕ) × (s : S) × (r ≡ (error e, s)))
owner-cases (ok o, s) = inl (o, s, refl)
owner-cases (error e, s) = inr (e, s, refl)

module _ {S : Type 0} (files : Files S) (c : FileCredentials) where
  parent_of-writes :
      (s s' : S) (path : Bytes) (parent : FileOwner)
      → parent_of files s path c ≡ (ok parent, s')
      → access_allowed parent c (w_ok + x_ok) ≡ true
  unfolding parent_of
  parent_of-writes s s' path parent h = elim (owner-cases (owner_of files s (parent_path path))) [
    | inl (o, t, e) ↦ elim (Bool-cases (access_allowed o c (w_ok + x_ok))) [
      | inl passed ↦ ground arith
      | inr refused ↦ absurd (ground arith)
    ]
    | inr (errno, t, e) ↦ absurd (ground arith)
  ]

  sticky-owns :
      (parent owner : FileOwner)
      → (sticky parent owner c == 0) ≡ true
      → (bit_and parent.mode s_isvtx ≡ 0) ⊎ (c.uid ≡ 0) ⊎ (c.uid ≡ parent.uid) ⊎ (c.uid ≡ owner.uid)
  unfolding sticky
  sticky-owns parent owner h = ground arith

  -- An entry that `unlinkat` or `renameat` may take out of its directory exists; the caller may write
  -- and search the directory, and where that is sticky, it is root or owns the directory or the entry.
  pub remove_entry-MayRemove :
      (s s' : S) (path : Bytes) (entry : Option FileOwner)
      → remove_entry files c s path entry ≡ proceeds s'
      → (owner parent : FileOwner) × (entry ≡ some owner)
        × (parent_of files s path c ≡ (ok parent, s'))
        × MayRemove c parent owner
  unfolding remove_entry
  remove_entry-MayRemove s s' path none h = absurd (ground arith)
  remove_entry-MayRemove s s' path (some owner) h = elim (owner-cases (parent_of files s path c)) [
    | inr (errno, t, e) ↦ absurd (ground arith)
    | inl (parent, t, e) ↦ elim (Bool-cases (sticky parent owner c == 0)) [
      | inr refused ↦ absurd (ground arith)
      | inl passed ↦
          let same : t ≡ s' = ground arith in
          (
            owner,
            parent,
            refl,
            e ∙ ap (λ x. (ok parent, x)) same,
            record {
              writes = parent_of-writes s t path parent e;
              owns = sticky-owns parent owner passed;
            },
          )
    ]
  ]
