-- ===== src/Ownership/Terminals/Laws.antt =====
-- What a claim of a terminal does to the table.
use andlify.Common.{
  ℕ, zero, suc, ◌+◌, ◌≤◌, ◌<◌, Bool, true, false, not, ◌&&◌, ◌≡◌, ◌≢◌, ◌⊎◌, inl, inr, refl, sym, ap,
  ◌∙◌, arith, ◌==◌, Option, none, some, Bool-cases, Option-cases,
}
use mathlib.Core.Path.{subst}
use native.Mathlib.Nat.{le_refl}
use andlify.Ownership.{FileOwner}
use andlify.Ownership.Terminals.{
  Terminal, Terminals, max_terminals, Claim, is_terminal, write_terminal, first_from,
  first_terminal, or_else, terminal_done, live, choose_terminal, is_current, claim_entry,
  claim_terminal, lookup_terminal,
}

-- The index is the first that passes.
record IsFirst (n index : ℕ) (test : ℕ → Bool) (i : ℕ) : Type 0 where
  passes : test i ≡ true
  low : index ≤ i
  high : i < index + n
  before : (k : ℕ) → index ≤ k → k < i → test k ≡ false

first_from-IsFirst :
    (n index : ℕ) (test : ℕ → Bool) (i : ℕ)
    → first_from n index test ≡ some i
    → IsFirst n index test i
unfolding first_from
first_from-IsFirst zero index test i h = absurd (ground arith)
first_from-IsFirst (suc n) index test i h = elim (Bool-cases (test index)) [
  | inl e ↦
      let same : index ≡ i = ground arith in
      record {
        passes = ap test (sym same) ∙ e;
        low = omega arith;
        high = omega arith;
        before = λ k a b. absurd (omega arith);
      }
  | inr e ↦
      let rest = first_from-IsFirst n (index + 1) test i (ground arith) in
      record {
        passes = rest.passes;
        low = omega (arith, rest.low);
        high = omega (arith, rest.high);
        before = λ k a b. elim (Bool-cases (k == index)) [
          | inl f ↦ let same : k ≡ index = ground arith in ap test same ∙ e
          | inr f ↦ rest.before k (ground arith) b
        ];
      }
]

first_from-none :
    (n index : ℕ) (test : ℕ → Bool) (k : ℕ)
    → first_from n index test ≡ none
    → index ≤ k
    → k < index + n
    → test k ≡ false
unfolding first_from
first_from-none zero index test k h a b = absurd (omega arith)
first_from-none (suc n) index test k h a b = elim (Bool-cases (test index)) [
  | inl e ↦ absurd (ground arith)
  | inr e ↦ elim (Bool-cases (k == index)) [
    | inl f ↦ let same : k ≡ index = ground arith in ap test same ∙ e
    | inr f ↦ first_from-none n (index + 1) test k (ground arith) (ground arith) (omega arith)
  ]
]

-- The first index that passes, from what holds of it.
first_from-of :
    (n index : ℕ) (test : ℕ → Bool) (i : ℕ)
    → test i ≡ true
    → index ≤ i
    → i < index + n
    → ((k : ℕ) → index ≤ k → k < i → test k ≡ false)
    → first_from n index test ≡ some i
unfolding first_from
first_from-of zero index test i p a b before = absurd (omega arith)
first_from-of (suc n) index test i p a b before = elim (Bool-cases (i == index)) [
  | inl f ↦
      let same : i ≡ index = ground arith in
      let here : test index ≡ true = ap test (sym same) ∙ p in rw here (ap some (sym same))
  | inr f ↦
      let not_here : test index ≡ false = before index (le_refl index) (ground arith) in
      rw not_here (
        first_from-of n (index + 1) test i p (ground arith) (omega arith)
          (λ k c d. before k (omega arith) d))
]

module _ (alive : Terminal → Bool) where
  -- The entry that is chosen: no earlier one is of the terminal, and it is itself, or is not live.
  record IsChosen (terminals : Terminals) (info : FileOwner) (p : ℕ) : Type 0 where
    bound : p < max_terminals
    before : (k : ℕ) → k < p → is_terminal info (terminals k) ≡ false
    own : (is_terminal info (terminals p) ≡ true) ⊎ (live alive (terminals p) ≡ false)

  choose_terminal-IsChosen :
      (terminals : Terminals) (info : FileOwner) (p : ℕ)
      → choose_terminal alive terminals info ≡ some p
      → IsChosen terminals info p
  unfolding choose_terminal or_else live
  choose_terminal-IsChosen terminals info p h =
      let mine = λ (i : ℕ). is_terminal info (terminals i) in
      let vacant = λ (i : ℕ). (terminals i).owner.inode == 0 in
      let dead = λ (i : ℕ). not (live alive (terminals i)) in
      elim (Option-cases (first_terminal mine)) [
        | inr (i, e) ↦
            let same : i ≡ p = ground arith in
            let at =
              subst (IsFirst max_terminals 0 mine) same
                (first_from-IsFirst max_terminals 0 mine i e) in
            record {
              bound = omega (arith, at.high);
              before = λ k a. at.before k (omega arith) a;
              own = inl at.passes;
            }
        | inl e ↦
            let none_mine = λ (k : ℕ) (a : k < max_terminals).
              first_from-none max_terminals 0 mine k e (omega arith) (omega arith) in
            elim (Option-cases (first_terminal vacant)) [
              | inr (i, f) ↦
                  let same : i ≡ p = ground arith in
                  let at =
                    subst (IsFirst max_terminals 0 vacant) same
                      (first_from-IsFirst max_terminals 0 vacant i f) in
                  let free : ((terminals p).owner.inode == 0) ≡ true = at.passes in
                  record {
                    bound = omega (arith, at.high);
                    before = λ k a. none_mine k (omega (arith, at.high));
                    own = inr (rw free refl);
                  }
              | inl f ↦
                  let c : first_terminal dead ≡ some p = ground arith in
                  let at = first_from-IsFirst max_terminals 0 dead p c in
                  let gone : not (live alive (terminals p)) ≡ true = at.passes in
                  record {
                    bound = omega (arith, at.high);
                    before = λ k a. none_mine k (omega (arith, at.high));
                    own = inr (not_true (live alive (terminals p)) gone);
                  }
            ]
      ]
    where
      not_true : (b : Bool) → not b ≡ true → b ≡ false
      not_true true e = absurd (ground arith)
      not_true false e = refl

  -- A claim writes its own entry at most.
  claim_entry-other :
      (terminals : Terminals) (claim : Claim) (owner : FileOwner) (replacement : Option FileOwner)
      (p i : ℕ)
      → i ≢ p
      → (claim_entry alive terminals claim owner replacement p).terminals i ≡ terminals i
  unfolding claim_entry
  claim_entry-other terminals claim owner none p i h =
      let other : (i == p) ≡ false = ground arith in
      elim (Bool-cases (is_terminal claim.as_owner (terminals p) && live alive (terminals p))) [
        | inl e ↦ rw e refl
        | inr e ↦ rw (e, other) refl
      ]
  claim_entry-other terminals claim owner (some updated) p i h =
      let other : (i == p) ≡ false = ground arith in
      elim (Bool-cases (is_terminal claim.as_owner (terminals p) && live alive (terminals p))) [
        | inr e ↦ rw e refl
        | inl e ↦ rw e (elim (Bool-cases (not (is_current alive owner (terminals p).owner))) [
          | inl f ↦ rw f refl
          | inr f ↦ rw (f, other) refl
        ])
      ]

  -- A claim of a terminal, whatever comes of it, leaves the entry of every other live terminal.
  pub claim_terminal-other :
      (terminals : Terminals) (claim : Claim) (owner : FileOwner) (replacement : Option FileOwner)
      (i : ℕ)
      → live alive (terminals i) ≡ true
      → is_terminal claim.as_owner (terminals i) ≡ false
      → (claim_terminal alive terminals claim owner replacement).terminals i ≡ terminals i
  unfolding claim_terminal
  claim_terminal-other terminals claim owner replacement i h other =
      elim (Option-cases (choose_terminal alive terminals claim.as_owner)) [
        | inl e ↦ rw (e, claim_terminal) refl
        | inr (p, e) ↦
            let chosen = choose_terminal-IsChosen terminals claim.as_owner p e in
            rw (e, claim_terminal)
              (claim_entry-other terminals claim owner replacement p i (apart p chosen.own))
      ]
    where
      apart :
          (p : ℕ)
          → (is_terminal claim.as_owner (terminals p) ≡ true) ⊎ (live alive (terminals p) ≡ false)
          → i ≢ p
      apart p (inl e) same =
          absurd (ground (arith, ap (λ (k : ℕ). is_terminal claim.as_owner (terminals k)) same))
      apart p (inr e) same = absurd (ground (arith, ap (λ (k : ℕ). live alive (terminals k)) same))

  -- The first entry of a terminal, where it is live, is what the lookup finds.
  lookup_first :
      (terminals : Terminals) (info : FileOwner) (p : ℕ)
      → p < max_terminals
      → ((k : ℕ) → k < p → is_terminal info (terminals k) ≡ false)
      → is_terminal info (terminals p) ≡ true
      → live alive (terminals p) ≡ true
      → lookup_terminal alive terminals info ≡ some (terminals p).owner
  unfolding lookup_terminal
  lookup_first terminals info p bound before mine here =
      let first =
        first_from-of max_terminals 0
          (λ i. is_terminal info (terminals i) && live alive (terminals i)) p (rw (mine, here) refl)
          (omega arith) (omega arith)
          (λ k a b. let none_before = before k b in rw none_before refl) in
      rw (first, lookup_terminal) refl

  entered_lookup :
      (terminals : Terminals) (claim : Claim) (owner : FileOwner) (p : ℕ)
      → claim.as_owner.inode ≢ 0
      → alive (record {
        owner = claim.as_owner;
        keeper = claim.pid;
        fd = claim.fd;
        start_time = claim.start_time;
      })
        ≡ true
      → IsChosen terminals claim.as_owner p
      → lookup_terminal alive
          (claim_entry alive terminals claim owner none p).terminals
          claim.as_owner
        ≡ some (claim_entry alive terminals claim owner none p).owner
  unfolding claim_entry live
  entered_lookup terminals claim owner p nonzero kept chosen =
      elim (Bool-cases (is_terminal claim.as_owner (terminals p) && live alive (terminals p))) [
        | inl e ↦ rw e (
            lookup_first terminals claim.as_owner p chosen.bound chosen.before (both_left _ _ e)
              (both_right _ _ e))
        | inr e ↦
            let started : Terminal = record {
              owner = claim.as_owner;
              keeper = claim.pid;
              fd = claim.fd;
              start_time = claim.start_time;
            } in
            let self : (p == p) ≡ true = ground arith in
            let used : (claim.as_owner.inode == 0) ≡ false = ground arith in
            let mine : is_terminal claim.as_owner started ≡ true = ground arith in
            let here : live alive started ≡ true = rw (used, kept) refl in
            let at : write_terminal terminals p started p ≡ started = rw self refl in
            rw e (
              lookup_first (write_terminal terminals p started) claim.as_owner p chosen.bound
                (λ k lt.
                  let other : (k == p) ≡ false = ground arith in rw other (chosen.before k lt))
                (ap (is_terminal claim.as_owner) at ∙ mine) (ap (live alive) at ∙ here)
              ∙ ap (λ (t : Terminal). some t.owner) at)
      ]
    where
      both_left : (a b : Bool) → (a && b) ≡ true → a ≡ true
      both_left a b e = ground arith

      both_right : (a b : Bool) → (a && b) ≡ true → b ≡ true
      both_right a b e = ground arith

  -- After a claim without a replacement that succeeds the terminal is found, with the owner that
  -- the claim gave, where its inode is not 0 and the process that makes the claim keeps the
  -- terminal alive.
  pub lookup_terminal-claim :
      (terminals : Terminals) (claim : Claim) (owner : FileOwner)
      → claim.as_owner.inode ≢ 0
      → alive (record {
        owner = claim.as_owner;
        keeper = claim.pid;
        fd = claim.fd;
        start_time = claim.start_time;
      })
        ≡ true
      → (claim_terminal alive terminals claim owner none).status ≡ terminal_done
      → lookup_terminal alive
          (claim_terminal alive terminals claim owner none).terminals
          claim.as_owner
        ≡ some (claim_terminal alive terminals claim owner none).owner
  unfolding claim_terminal
  lookup_terminal-claim terminals claim owner nonzero kept done =
      elim (Option-cases (choose_terminal alive terminals claim.as_owner)) [
        | inl e ↦ absurd (ground arith)
        | inr (p, e) ↦
            rw (e, claim_terminal)
              (entered_lookup terminals claim owner p nonzero kept
                (choose_terminal-IsChosen terminals claim.as_owner p e))
      ]
