-- ===== src/Ownership/Terminals.antt =====
-- terminal_ownership.cpp: the owners of terminals, each kept by the process that holds the terminal open.
-- The calls are under the store's lock, and the tests of the file before it are given as passed. The
-- parameter `alive` is the part of `Live` that reads /proc.
pub mod Laws
use andlify.Common.{
  ℕ, zero, suc, ◌+◌, Bool, true, false, not, ◌&&◌, ◌||◌, List, [], ◌∷◌, if◌then◌else◌, ◌==◌, Option,
  none, some,
}
use andlify.Ownership.{FileOwner, same_birth}

pub record Terminal : Type 0 where
  pub owner : FileOwner
  pub keeper : ℕ
  pub fd : ℕ
  pub start_time : ℕ

abbrev pub Terminals : Type 0
Terminals = ℕ → Terminal

-- `kTerminals`
abbrev pub max_terminals : ℕ
max_terminals = 4096

-- The file that is asked for, of which `as_owner` is the owner for a terminal that is not known, and the
-- calling process.
pub record Claim : Type 0 where
  pub as_owner : FileOwner
  pub pid : ℕ
  pub start_time : ℕ
  pub fd : ℕ

abbrev pub is_terminal : FileOwner → Terminal → Bool
is_terminal info entry = entry.owner.device == info.device && entry.owner.inode == info.inode

abbrev pub write_terminal : Terminals → ℕ → Terminal → Terminals
write_terminal terminals index entry i = if i == index then entry else terminals i

-- The first of `n` indices from `index` on that passes the test.
unfoldable pub first_from : ℕ → ℕ → (ℕ → Bool) → Option ℕ
first_from zero index test = none
first_from (suc n) index test =
    let rest = first_from n (index + 1) test in if test index then some index else rest

abbrev pub first_terminal : (ℕ → Bool) → Option ℕ
first_terminal test = first_from max_terminals 0 test

unfoldable pub or_else : Option ℕ → Option ℕ → Option ℕ
or_else none other = other
or_else (some i) other = some i

pub data TerminalStatus : Type 0 where
  terminal_done terminal_full terminal_again : TerminalStatus

pub record TerminalResult : Type 0 where
  pub status : TerminalStatus
  pub terminals : Terminals
  pub owner : FileOwner

module _ (alive : Terminal → Bool) where
  -- `Live`
  unfoldable pub live : Terminal → Bool
  live entry = not (entry.owner.inode == 0) && alive entry

  -- The entry of the terminal, or one that is free, or one that is dead.
  unfoldable pub choose_terminal : Terminals → FileOwner → Option ℕ
  choose_terminal terminals info = or_else (first_terminal (λ i. is_terminal info (terminals i))) (
      or_else (first_terminal (λ i. (terminals i).owner.inode == 0))
        (first_terminal (λ i. not (live (terminals i)))))

  unfoldable pub is_current : FileOwner → FileOwner → Bool
  is_current owner current =
      owner.uid == current.uid
      && owner.gid == current.gid
      && owner.mode == current.mode
      && same_birth owner current

  -- The part of `TerminalOwner` that has found an entry; `owner` is what the caller saw.
  unfoldable pub claim_entry : Terminals → Claim → FileOwner → Option FileOwner → ℕ → TerminalResult
  claim_entry terminals claim owner replacement index =
      let entry = terminals index in
      let known = is_terminal claim.as_owner entry && live entry in
      let current : FileOwner = if known then entry.owner else claim.as_owner in
      let started : Terminal = record {
        owner = current;
        keeper = claim.pid;
        fd = claim.fd;
        start_time = claim.start_time;
      } in
      elim replacement [
        | none ↦
            if known
            then record { status = terminal_done; terminals = terminals; owner = entry.owner }
            else record {
              status = terminal_done;
              terminals = write_terminal terminals index started;
              owner = current;
            }
        | some updated ↦
            if not known || not (is_current owner current)
            then record { status = terminal_again; terminals = terminals; owner = owner }
            else record {
              status = terminal_done;
              terminals = write_terminal terminals index (record entry { owner = updated });
              owner = updated;
            }
      ]

  unfoldable pub claim_terminal : Terminals → Claim → FileOwner → Option FileOwner → TerminalResult
  claim_terminal terminals claim owner replacement =
      elim (choose_terminal terminals claim.as_owner) [
        | none ↦ record { status = terminal_full; terminals = terminals; owner = owner }
        | some index ↦ claim_entry terminals claim owner replacement index
      ]

  -- `LookupTerminal`
  unfoldable pub lookup_terminal : Terminals → FileOwner → Option FileOwner
  lookup_terminal terminals info =
      elim (first_terminal (λ i. is_terminal info (terminals i) && live (terminals i))) [
        | none ↦ none
        | some index ↦ some (terminals index).owner
      ]
