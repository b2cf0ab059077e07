-- ===== src/Ownership/Write/Atomic.antt =====
-- What it means that `SetLocked` takes effect or does not, and the owner that is there already.
use andlify.Common.{ℕ, true, false, ◌≡◌, ◌⊎◌, inl, inr, refl, sym, ap, ◌∙◌, arith, some, Bool-cases}
use andlify.Ownership.{FileOwner, same_birth}
use andlify.Ownership.Table.{Files, is_free, is_for, lookup, Shared}
use andlify.Ownership.Table.Laws.{find_slot, find_slot_stops}
use andlify.Ownership.Table.Mirror.{lookup_at}
use andlify.Ownership.Write.{Store, set_done, SetResult, is_same}
use andlify.Ownership.Write.Durable.{Durable}
use andlify.Ownership.Write.Recovery.{Recovers, look_with, Durable-Recovers, Settles}

-- The files give the contents from before or those with the owner, and where the call succeeds the
-- table has the latter, and the files with it.
pub record IsAtomic (prior : Shared) (owner : FileOwner) (files : Files) (result : SetResult)
    : Type 0 where
  pub recovers :
      Recovers prior result.store.disk (lookup files)
      ⊎ Recovers prior result.store.disk (look_with owner files)
  pub settles : result.status ≡ set_done → Settles prior owner files result.store

pub Settles-Recovers :
    (prior : Shared) (owner : FileOwner) (files : Files) (store : Store)
    → Settles prior owner files store
    → Recovers prior store.disk (look_with owner files)
Settles-Recovers prior owner files store (durable, same) =
    let found =
      Durable-Recovers prior store.shared.files store.shared.sequence store.disk durable in
    record {
      table = found.table;
      left = found.left;
      replayed = found.replayed;
      indexed = found.indexed;
      same = λ device inode. found.same device inode ∙ same device inode;
    }

pub Settles-IsAtomic :
    (prior : Shared) (owner : FileOwner) (files : Files) (result : SetResult)
    → Settles prior owner files result.store
    → IsAtomic prior owner files result
Settles-IsAtomic prior owner files result settled = record {
  recovers = inr (Settles-Recovers prior owner files result.store settled);
  settles = λ e. settled;
}

abbrev rebuilt : FileOwner → FileOwner
rebuilt a = record {
  device = a.device;
  inode = a.inode;
  birth_seconds = a.birth_seconds;
  birth_nanoseconds = a.birth_nanoseconds;
  uid = a.uid;
  gid = a.gid;
  mode = a.mode;
}

owner_ext : (a b : FileOwner) → is_for b.device b.inode a ≡ true → is_same a b ≡ true → a ≡ b
unfolding is_same same_birth
owner_ext a b h e =
    let d : a.device ≡ b.device = ground arith in
    let i : a.inode ≡ b.inode = ground arith in
    let s : a.birth_seconds ≡ b.birth_seconds = ground arith in
    let n : a.birth_nanoseconds ≡ b.birth_nanoseconds = ground arith in
    let u : a.uid ≡ b.uid = ground arith in
    let g : a.gid ≡ b.gid = ground arith in
    let m : a.mode ≡ b.mode = ground arith in same_rebuilt d i s n u g m
  where
    same_rebuilt :
        a.device ≡ b.device
        → a.inode ≡ b.inode
        → a.birth_seconds ≡ b.birth_seconds
        → a.birth_nanoseconds ≡ b.birth_nanoseconds
        → a.uid ≡ b.uid
        → a.gid ≡ b.gid
        → a.mode ≡ b.mode
        → rebuilt a ≡ rebuilt b
    same_rebuilt d i s n u g m = rw (d, i, s, n, u, g, m) refl

-- The owner is there already.
pub same-Settles :
    (prior : Shared) (owner : FileOwner) (store : Store) (p : ℕ)
    → find_slot store.shared.files owner.device owner.inode ≡ some p
    → is_same (store.shared.files p) owner ≡ true
    → Durable prior store.shared.files store.shared.sequence store.disk
    → Settles prior owner store.shared.files store
same-Settles prior owner store p at e h =
    let stops = find_slot_stops store.shared.files owner.device owner.inode p at in
    let full : is_free (store.shared.files p) ≡ false = unfold is_same in ground arith in
    let it = owner_ext (store.shared.files p) owner (ground arith) e in
    let found : lookup store.shared.files owner.device owner.inode ≡ some owner =
      lookup_at store.shared.files owner.device owner.inode p at ∙ rw full (ap some it) in
    (
      h,
      λ device inode. elim (Bool-cases (is_for device inode owner)) [
        | inr f ↦ rw f refl
        | inl f ↦
            let d : owner.device ≡ device = ground arith in
            let i : owner.inode ≡ inode = ground arith in
            rw f (
              ap (λ (n : ℕ). lookup store.shared.files n inode) (sym d)
              ∙ (ap (lookup store.shared.files owner.device) (sym i) ∙ found))
      ],
    )
