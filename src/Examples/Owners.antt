-- ===== src/Examples/Owners.antt =====
-- The ownership store (library/src/main/cpp/ownership) on small tables and files.
use andlify.Common.{
  ℕ, false, [], ◌∷◌, ◌++◌, ◌≡◌, ◌≢◌, ◌%◌, refl, ap, arith, none, some, if◌then◌else◌, length,
}
use andlify.Common.Bytes.{Bytes}
use andlify.Ownership.{FileOwner, no_owner}
use andlify.Ownership.Table.{is_for, lookup, Shared, stored, put}
use andlify.Ownership.Table.Laws.{IsIndexed, empty-IsIndexed}
use andlify.Ownership.Table.Map.{lookup-put, put_total}
use andlify.Ownership.Record.{pack}
use andlify.Ownership.Record.Laws.{Fits, length-pack}
use andlify.Ownership.Journal.{replay, replay_journal, records, replay_journal_records}
use andlify.Ownership.Journal.Laws.{replay_torn}

abbrev owner : FileOwner
owner = record {
  device = 64;
  inode = 42;
  birth_seconds = 1700000000;
  birth_nanoseconds = 5;
  uid = 1000;
  gid = 1000;
  mode = 33188;
}

abbrev no_files : Shared
no_files = record {
  version = 0;
  sequence = 0;
  checkpoint = 0;
  dirty = false;
  failed = false;
  files = λ i. no_owner;
}

inode_used : owner.inode ≢ 0
inode_used = ground arith

put-owner : (shared' : Shared) × (put no_files owner ≡ stored shared') × (shared'.version % 2 ≡ 0)
put-owner = put_total no_files owner 4 inode_used (omega arith) refl refl

abbrev one_file : Shared
one_file = put-owner.0

lookup-put_example :
    IsIndexed one_file.files
    × (lookup one_file.files 64 42
        ≡ (if is_for 64 42 owner then some owner else lookup no_files.files 64 42))
lookup-put_example = lookup-put no_files owner one_file 64 42 empty-IsIndexed put-owner.1

owner-Fits : Fits owner
owner-Fits = record {
  device = omega arith;
  inode = omega arith;
  birth_seconds = omega arith;
  birth_nanoseconds = omega arith;
  uid = omega arith;
  gid = omega arith;
  mode = omega arith;
}

abbrev journal : Bytes
journal = pack owner 1

journal_IsWhole : length journal % 64 ≡ 0
journal_IsWhole = ap (λ (n : ℕ). n % 64) (length-pack owner 1)

abbrev torn : Bytes
torn = 65 ∷ 78 ∷ []

replay_torn_example :
    replay no_files (record { snapshot = none; journal = some (journal ++ torn) })
    ≡ replay no_files (record { snapshot = none; journal = some journal })
replay_torn_example = replay_torn no_files none journal torn journal_IsWhole (omega arith)

-- The first record of an empty journal.
empty_journal : replay_journal no_files (some []) ≡ some no_files
unfolding replay_journal records replay_journal_records
empty_journal = refl
