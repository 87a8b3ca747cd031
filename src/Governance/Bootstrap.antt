-- ===== src/Governance/Bootstrap.antt =====
-- src/governance/engine.rs: the engine over a run of its operations, and the end of its bootstrap mode.
use ess_p2p_rs.Shared.{
  ℕ, ◌≡◌, refl, Bool, true, false, ◌⊎◌, inl, inr, Option, none, some, List, [], ◌∷◌, Text, arith,
  All, Option-cases,
}
use ess_p2p_rs.Shared.Order.{text_ord, beq_refl}
use ess_p2p_rs.Shared.Dict.{Dict, lookup, insert, lookup-insert}
use ess_p2p_rs.Governance.{
  ProposalType, GovernanceSnapshot, restore_from_snapshot, insert_all, GovernanceEngine, Proposal,
  new, evaluate_bootstrap, save_if_possible, create_proposal, record_vote, mark_executed,
  update_supernodes, set_hmac_key, check_quorum,
}

-- What callers do with an engine, with the clock.
pub data Operation {ℓ} (Ratio : Type ℓ) : Type ℓ where
  create : ProposalType → Text → Text → ℕ → Operation Ratio
  vote : Text → Text → Bool → ℕ → Operation Ratio
  mark : Text → ℕ → Operation Ratio
  update : List Text → ℕ → Operation Ratio
  restore : GovernanceSnapshot Ratio → Operation Ratio
  set_key : List ℕ → Operation Ratio

-- `check_quorum` decides nothing on a proposal that is executed, or not there.
abbrev pub is_closed : Option Proposal → Bool
is_closed none = true
is_closed (some p) = p.executed

-- A proposal of this identifier is an executed one.
abbrev pub IsOverFor : Text → Proposal → Type 0
IsOverFor id p = (text_ord.beq p.proposal_id id ≡ false) ⊎ (p.executed ≡ true)

insert_all-closed :
    (id : Text) (ps : List Proposal) (m : Dict Text Proposal)
    → All (IsOverFor id) ps
    → is_closed (lookup id m) ≡ true
    → is_closed (lookup id (insert_all ps m)) ≡ true
unfolding insert_all
insert_all-closed id [] m over done = done
insert_all-closed id (p ∷ ps) m over done =
    insert_all-closed id ps (insert p.proposal_id p m) over.1
      (ground (arith, done, over.0, lookup-insert p.proposal_id id p m))

module _ {ℓ} {Ratio : Type ℓ} where
  -- No operation creates a proposal of this identifier anew, or restores one that is not executed.
  abbrev pub Avoids : Text → List (Operation Ratio) → Type 0
  Avoids id [] = Unit
  Avoids id (create ptype target other now ∷ os) = (text_ord.beq other id ≡ false) × Avoids id os
  Avoids id (vote other voter approve now ∷ os) = Avoids id os
  Avoids id (mark other now ∷ os) = Avoids id os
  Avoids id (update new_list now ∷ os) = Avoids id os
  Avoids id (restore s ∷ os) = All (IsOverFor id) s.proposals × Avoids id os
  Avoids id (set_key key ∷ os) = Avoids id os

  -- No snapshot is restored that was taken before the exit from the bootstrap mode.
  abbrev pub RestoresExited : List (Operation Ratio) → Type 0
  RestoresExited [] = Unit
  RestoresExited (restore s ∷ os) = (s.bootstrap_exited ≡ true) × RestoresExited os
  RestoresExited (o ∷ os) = RestoresExited os

  -- No snapshot is restored.
  abbrev pub RestoresNone : List (Operation Ratio) → Type 0
  RestoresNone [] = Unit
  RestoresNone (restore s ∷ os) = ⊥
  RestoresNone (o ∷ os) = RestoresNone os

  unfoldable pub step : GovernanceEngine Ratio → Operation Ratio → GovernanceEngine Ratio
  step g (create ptype target id now) = create_proposal g ptype target id now
  step g (vote id voter approve now) = (record_vote g id voter approve now).0
  step g (mark id now) = mark_executed g id now
  step g (update new_list now) = update_supernodes g new_list now
  step g (restore s) = restore_from_snapshot g s
  step g (set_key key) = set_hmac_key g key

  unfoldable pub run : GovernanceEngine Ratio → List (Operation Ratio) → GovernanceEngine Ratio
  unfolding step
  run g [] = g
  run g (o ∷ os) = run (step g o) os

  -- The exit is recorded as soon as the mode is left, and the mode is over then.
  abbrev pub IsSettled : GovernanceEngine Ratio → Type 0
  IsSettled g = (g.bootstrap_exited ≡ false) ⊎ (g.is_bootstrap_mode ≡ false)

  step-IsSettled :
      (g : GovernanceEngine Ratio) (o : Operation Ratio) (os : List (Operation Ratio))
      → RestoresNone (o ∷ os)
      → IsSettled g
      → IsSettled (step g o) × RestoresNone os
  unfolding step create_proposal record_vote mark_executed update_supernodes evaluate_bootstrap
      save_if_possible
  step-IsSettled g (create ptype target id now) os own s = ground (arith, s, own)
  step-IsSettled g (vote id voter approve now) os own s = ground (arith, s, own)
  step-IsSettled g (mark id now) os own s = ground (arith, s, own)
  step-IsSettled g (update new_list now) os own s = ground (arith, s, own)
  step-IsSettled g (restore snapshot) os own s = absurd own
  step-IsSettled g (set_key key) os own s = ground (arith, s, own)

  run-IsSettled :
      (g : GovernanceEngine Ratio) (os : List (Operation Ratio))
      → RestoresNone os
      → IsSettled g
      → IsSettled (run g os)
  unfolding run
  run-IsSettled g [] own s = s
  run-IsSettled g (o ∷ os) own s =
      let first = step-IsSettled g o os own s in run-IsSettled (step g o) os first.1 first.0

  abbrev pub HasLeft : GovernanceEngine Ratio → Type 0
  HasLeft g = (g.bootstrap_exited ≡ true) × (g.is_bootstrap_mode ≡ false)

  step-HasLeft :
      (g : GovernanceEngine Ratio) (o : Operation Ratio) (os : List (Operation Ratio))
      → RestoresExited (o ∷ os)
      → HasLeft g
      → HasLeft (step g o) × RestoresExited os
  unfolding step create_proposal record_vote mark_executed update_supernodes evaluate_bootstrap
      save_if_possible restore_from_snapshot
  step-HasLeft g (create ptype target id now) os late s = ground (arith, s, late)
  step-HasLeft g (vote id voter approve now) os late s = ground (arith, s, late)
  step-HasLeft g (mark id now) os late s = ground (arith, s, late)
  step-HasLeft g (update new_list now) os late s = ground (arith, s, late)
  step-HasLeft g (restore snapshot) os late s = ((late.0, s.1), late.1)
  step-HasLeft g (set_key key) os late s = ground (arith, s, late)

  run-HasLeft :
      (g : GovernanceEngine Ratio) (os : List (Operation Ratio))
      → RestoresExited os
      → HasLeft g
      → HasLeft (run g os)
  unfolding run
  run-HasLeft g [] late s = s
  run-HasLeft g (o ∷ os) late s =
      let first = step-HasLeft g o os late s in run-HasLeft (step g o) os first.1 first.0

  -- An engine that was made by new, and has recorded its exit from the bootstrap mode with no
  -- snapshot restored so far, is out of that mode for good, whatever operations follow, as long as
  -- every snapshot that is restored later records the exit too.
  pub bootstrap_never_returns :
      (supernodes : List Text) (ratio : Ratio) (now : ℕ) (before after : List (Operation Ratio))
      → RestoresNone before
      → (run (new supernodes ratio now) before).bootstrap_exited ≡ true
      → RestoresExited after
      → ((run (run (new supernodes ratio now) before) after).bootstrap_exited ≡ true)
        × ((run (run (new supernodes ratio now) before) after).is_bootstrap_mode ≡ false)
  unfolding new
  bootstrap_never_returns supernodes ratio now before after own exited late =
      let g = new supernodes ratio now in
      let settled = run-IsSettled g before own (inl refl) in
      run-HasLeft (run g before) after late (ground (arith, exited, settled))

  step-executed :
      (g : GovernanceEngine Ratio) (id : Text) (o : Operation Ratio) (os : List (Operation Ratio))
      → is_closed (lookup id g.proposals) ≡ true
      → Avoids id (o ∷ os)
      → (is_closed (lookup id (step g o).proposals) ≡ true) × Avoids id os
  unfolding step create_proposal record_vote mark_executed update_supernodes evaluate_bootstrap
      save_if_possible restore_from_snapshot
  step-executed g id (create ptype target other now) os done fresh =
      grind (arith, done, fresh, lookup-insert {V = Proposal} other id)
  step-executed g id (vote other voter approve now) os done fresh =
      elim (Option-cases (lookup other g.proposals)) [
        | inl absent ↦ ground (arith, absent, done, fresh)
        | inr (p, found) ↦ ground (
          arith,
          found,
          done,
          fresh,
          text_ord.beq_iff other id,
          lookup-insert other id (record p { votes = insert voter approve p.votes }) g.proposals,
        )
      ]
  step-executed g id (mark other now) os done fresh =
      elim (Option-cases (lookup other g.proposals)) [
        | inl absent ↦ ground (arith, absent, done, fresh)
        | inr (p, found) ↦ ground (
          arith,
          found,
          done,
          fresh,
          text_ord.beq_iff other id,
          lookup-insert other id (record p { executed = true }) g.proposals,
        )
      ]
  step-executed g id (update new_list now) os done fresh = ground (arith, done, fresh)
  step-executed g id (restore s) os done fresh =
      (insert_all-closed id s.proposals g.proposals fresh.0 done, fresh.1)
  step-executed g id (set_key key) os done fresh = ground (arith, done, fresh)

  run-executed :
      (g : GovernanceEngine Ratio) (id : Text) (os : List (Operation Ratio))
      → is_closed (lookup id g.proposals) ≡ true
      → Avoids id os
      → is_closed (lookup id (run g os).proposals) ≡ true
  unfolding run
  run-executed g id [] done fresh = done
  run-executed g id (o ∷ os) done fresh =
      let next = step-executed g id o os done fresh in run-executed (step g o) id os next.0 next.1

  mark_executed-closed :
      (g : GovernanceEngine Ratio) (id : Text) (now : ℕ)
      → is_closed (lookup id (mark_executed g id now).proposals) ≡ true
  unfolding mark_executed evaluate_bootstrap save_if_possible
  mark_executed-closed g id now = elim (Option-cases (lookup id g.proposals)) [
    | inl absent ↦ ground (arith, absent)
    | inr (p, found) ↦
        ground (
          arith,
          found,
          beq_refl id,
          lookup-insert id id (record p { executed = true }) g.proposals,
        )
  ]

  closed_undecided :
      (reached : Ratio → ℕ → ℕ → Bool) (g : GovernanceEngine Ratio) (id : Text)
      (timeout_secs now : ℕ)
      → is_closed (lookup id g.proposals) ≡ true
      → check_quorum reached g id timeout_secs now ≡ none
  unfolding check_quorum
  closed_undecided reached g id timeout_secs now closed = ground (arith, closed)

  -- A proposal is decided once: after it is marked as executed, it yields no decision any more,
  -- whatever operations follow, unless a proposal of the same identifier is created anew or
  -- restored from a snapshot in which it is not executed.
  pub decided_once :
      (reached : Ratio → ℕ → ℕ → Bool) (g : GovernanceEngine Ratio) (id : Text) (marked : ℕ)
      (os : List (Operation Ratio)) (timeout_secs now : ℕ)
      → Avoids id os
      → check_quorum reached (run (mark_executed g id marked) os) id timeout_secs now ≡ none
  decided_once reached g id marked os timeout_secs now fresh =
      closed_undecided reached (run (mark_executed g id marked) os) id timeout_secs now
        (run-executed (mark_executed g id marked) id os (mark_executed-closed g id marked) fresh)
