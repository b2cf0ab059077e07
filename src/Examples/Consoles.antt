-- ===== src/Examples/Consoles.antt =====
-- Claims of terminals (library/src/main/cpp/ownership/terminal_ownership.cpp) in a table of two.
use andlify.Common.{ℕ, zero, suc, Bool, true, none, some, ◌≡◌, refl, arith, ◌==◌}
use andlify.Ownership.{FileOwner, no_owner}
use andlify.Ownership.Terminals.{
  Terminal, Terminals, Claim, first_from, or_else, choose_terminal, live, claim_entry,
  claim_terminal, terminal_done, lookup_terminal,
}
use andlify.Ownership.Terminals.Laws.{claim_terminal-other, lookup_terminal-claim}

abbrev console_owner : ℕ → FileOwner
console_owner inode = record no_owner {
  device = 22;
  inode = inode;
  uid = 1000;
  gid = 1000;
  mode = 0x2180;
}

-- The process 900 is the only one that runs.
abbrev runs : Terminal → Bool
runs entry = entry.keeper == 900

abbrev consoles : Terminals
consoles zero = record { owner = console_owner 5; keeper = 800; fd = 7; start_time = 10 }
consoles (suc zero) = record { owner = console_owner 6; keeper = 900; fd = 8; start_time = 11 }
consoles (suc (suc i)) = record { owner = no_owner; keeper = 0; fd = 0; start_time = 0 }

abbrev claim : Claim
claim = record { as_owner = console_owner 5; pid = 900; start_time = 11; fd = 9 }

claimed : (claim_terminal runs consoles claim no_owner none).status ≡ terminal_done
unfolding claim_terminal choose_terminal first_from or_else claim_entry live
claimed = refl

live_one : live runs (consoles 1) ≡ true
unfolding live
live_one = refl

claim_terminal-other_example :
    (claim_terminal runs consoles claim no_owner none).terminals 1 ≡ consoles 1
claim_terminal-other_example =
    claim_terminal-other runs consoles claim no_owner none 1 live_one refl

lookup_terminal-claim_example :
    lookup_terminal runs
      (claim_terminal runs consoles claim no_owner none).terminals
      (console_owner 5)
    ≡ some (claim_terminal runs consoles claim no_owner none).owner
lookup_terminal-claim_example =
    lookup_terminal-claim runs consoles claim no_owner (ground arith) refl claimed
