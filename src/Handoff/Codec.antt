-- ===== src/Handoff/Codec.antt =====
-- The texts that handoff states and journal phases are stored as (crates/devrelay-core/src/handoff.rs).
use devrelay.Prelude.{String, ◌≡◌, refl, ◌||◌, ◌is◌, arith, eq_iff}
use devrelay.Handoff.{
  HandoffState, target_prepare, target_verified, source_ready, committed, aborted, as_str, parse,
  is_terminal, HandoffJournalPhase, begin, prepare, apply, verified, ready, lease_committed, abort,
  phase_as_str, parse_phase,
}

-- Every state is read back from the text that is stored for it.
pub parse-as_str : (s : HandoffState) → parse (as_str s) ≡ s
unfolding parse as_str
parse-as_str target_prepare = refl
parse-as_str target_verified = refl
parse-as_str source_ready = refl
parse-as_str committed = refl
parse-as_str aborted = refl

-- Every journal phase is read back from the text that is stored for it.
pub parse_phase-phase_as_str : (p : HandoffJournalPhase) → parse_phase (phase_as_str p) ≡ p
unfolding parse_phase phase_as_str
parse_phase-phase_as_str begin = refl
parse_phase-phase_as_str prepare = refl
parse_phase-phase_as_str apply = refl
parse_phase-phase_as_str verified = refl
parse_phase-phase_as_str ready = refl
parse_phase-phase_as_str lease_committed = refl
parse_phase-phase_as_str abort = refl

-- The query's test on the stored text, `state IN ('committed', 'aborted')`, agrees with
-- `is_terminal` of the state that the text is read as, whatever the text is.
pub is_terminal-parse :
    (text : String) → is_terminal (parse text) ≡ (text is "committed" || text is "aborted")
unfolding is_terminal parse
is_terminal-parse text = ground (
  arith,
  eq_iff text "target-verified",
  eq_iff text "source-ready",
  eq_iff text "committed",
  eq_iff text "aborted",
  eq_iff "target-verified" "committed",
  eq_iff "target-verified" "aborted",
  eq_iff "source-ready" "committed",
  eq_iff "source-ready" "aborted",
)
