-- ===== src/Lease/Transitions.antt =====
-- What a validated change of a lease can and cannot do (crates/devrelay-core/src/lease.rs).
use mathlib.Core.Logic.{◌↔◌}
use devrelay.Prelude.{◌≤◌, ◌<◌, ◌≡◌, refl, none, ◌⊎◌, arith, eq_iff, ◌∙◌}
use devrelay.Lease.{
  LeaseState, active, handoff_pending, committing, inactive, forked, archived, as_str,
  parse_lease_state, LeaseRecord, validate_transition_to,
}

-- Every state is read back from the text that is stored for it.
pub parse_lease_state-as_str : (s : LeaseState) → parse_lease_state (as_str s) ≡ s
unfolding parse_lease_state as_str
parse_lease_state-as_str active = refl
parse_lease_state-as_str handoff_pending = refl
parse_lease_state-as_str committing = refl
parse_lease_state-as_str inactive = refl
parse_lease_state-as_str forked = refl
parse_lease_state-as_str archived = refl

-- A chain of validated changes, as successive versions of one lease.
pub data History : LeaseRecord → LeaseRecord → Type 0 where
  start : (l : LeaseRecord) → History l l
  change : {a b c : LeaseRecord} → History a b → validate_transition_to b c ≡ none → History a c

-- A writer can come back to `active` from these states only.
abbrev pub CanWriteAgain : LeaseState → Type 0
CanWriteAgain s = (s ≡ active) ⊎ (s ≡ handoff_pending) ⊎ (s ≡ committing)

pub record Continues (a b : LeaseRecord) : Type 0 where
  pub same_lease : a.lease_id ≡ b.lease_id
  pub same_project : a.project_id ≡ b.project_id
  pub same_session : a.session_id ≡ b.session_id
  pub epoch_grows : a.epoch ≤ b.epoch
  pub stays_archived : a.state ≡ archived → b.state ≡ archived
  pub stays_retired : CanWriteAgain b.state → CanWriteAgain a.state

validate-Continues : (a b : LeaseRecord) → validate_transition_to a b ≡ none → Continues a b
unfolding validate_transition_to
validate-Continues a b h = record {
  same_lease = ground (arith, eq_iff a.lease_id b.lease_id);
  same_project = ground (arith, eq_iff a.project_id b.project_id);
  same_session = ground (arith, eq_iff a.session_id b.session_id);
  epoch_grows = ground arith;
  stays_archived = λ e. ground arith;
  stays_retired = λ e. ground arith;
}

Continues-trans : (a b c : LeaseRecord) → Continues a b → Continues b c → Continues a c
Continues-trans a b c h k = record {
  same_lease = h.same_lease ∙ k.same_lease;
  same_project = h.same_project ∙ k.same_project;
  same_session = h.same_session ∙ k.same_session;
  epoch_grows = omega arith;
  stays_archived = λ e. k.stays_archived (h.stays_archived e);
  stays_retired = λ e. h.stays_retired (k.stays_retired e);
}

-- Along any chain of validated changes the lease keeps its three ids, its epoch never falls,
-- `archived` is never left, and a lease that is `inactive`, `forked` or `archived` never comes
-- back to `active`, `handoff-pending` or `committing`.
pub History-Continues : {a b : LeaseRecord} → History a b → Continues a b
History-Continues (start l) = record {
  same_lease = refl;
  same_project = refl;
  same_session = refl;
  epoch_grows = omega arith;
  stays_archived = λ e. e;
  stays_retired = λ e. e;
}
History-Continues (change {a} {b} {c} h e) =
    Continues-trans a b c (History-Continues h) (validate-Continues b c e)

-- A change of a lease from `committing` to `active` is accepted exactly if the ids stay and the
-- epoch is strictly higher.
pub validate-commit :
    (a b : LeaseRecord)
    → a.state ≡ committing
    → b.state ≡ active
    → (validate_transition_to a b ≡ none) ↔ (
        (a.lease_id ≡ b.lease_id)
        × (a.project_id ≡ b.project_id)
        × (a.session_id ≡ b.session_id)
        × (a.epoch < b.epoch))
unfolding validate_transition_to
validate-commit a b ha hb = (
  λ h. (
    ground (arith, eq_iff a.lease_id b.lease_id),
    ground (arith, eq_iff a.project_id b.project_id),
    ground (arith, eq_iff a.session_id b.session_id),
    ground arith,
  ),
  λ h. ground (
    arith,
    eq_iff a.lease_id b.lease_id,
    eq_iff a.project_id b.project_id,
    eq_iff a.session_id b.session_id,
  ),
)
