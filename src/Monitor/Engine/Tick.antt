-- ===== src/Monitor/Engine/Tick.antt =====
-- `Evaluate` and `retireAbsent` of internal/monitor/manager.go: one tick over all evaluators.
pub mod Absent
use rootmote_agent.Prelude.{
  Bool, true, false, ◌&&◌, ◌||◌, not, Option, none, some, List, [], ◌∷◌, ◌++◌, map, Text, codes,
  ltb, eqb, text_beq, if◌then◌else◌, exists,
}
use rootmote_agent.Prelude.Sort.{sort_texts}
use rootmote_agent.Prelude.Maps.{Map}
use rootmote_agent.Monitor.State.{Time, in_episode, Kind, MonitorState, Observation}
use rootmote_agent.Monitor.Keys.{has_prefix, trim_prefix, key_prefix}
use rootmote_agent.Monitor.Engine.{Engine, Faults, process}
use rootmote_agent.Watchtower.Queue.{is_empty}

abbrev pub is_reported : Text → List Text → Bool
is_reported t reported = exists (λ s. text_beq s t) reported

-- The targets of the kind in an episode that are not reported, in the order of the map.
unfoldable pub gone_targets : Kind → List Text → Map Text MonitorState → List Text
unfolding in_episode
gone_targets kind reported [] = []
gone_targets kind reported ((k, rt) ∷ states) =
    let rest = gone_targets kind reported states in
    let target = trim_prefix k (key_prefix kind) in
    if not (has_prefix k (key_prefix kind)) || not (in_episode rt.state)
    then rest
    else (if is_reported target reported then rest else target ∷ rest)

-- The reading that stands for a target that is not reported: not failing, with a reason.
unfoldable pub absence : Kind → Text → Observation
absence kind target = record {
  target = target;
  failing = false;
  severity = [];
  summary =
      (if is_empty target then kind else target)
      ++ codes " is no longer reported; closing its alert";
  attributes = (codes "reason", codes "target_gone") ∷ [];
  hold = false;
}

-- What happens during the call for each target, and the time that it reads.
abbrev pub Calls : Type 0
Calls = Text → Faults × Time

unfoldable pub process_gone : Calls → Kind → List Text → Engine → Engine
unfolding absence
process_gone calls kind [] m = m
process_gone calls kind (target ∷ targets) m =
    process_gone calls kind targets
      (process (calls target).0 (calls target).1 kind (absence kind target) m)

unfoldable pub retire_absent : Calls → Kind → List Text → Engine → Engine
unfolding process_gone gone_targets sort_texts
retire_absent calls kind reported m =
    process_gone calls kind (sort_texts (gone_targets kind reported m.states)) m

-- The loop over the observations; a held one is only reported.
unfoldable pub process_observed : Calls → Kind → List Observation → Engine → Engine
process_observed calls kind [] m = m
process_observed calls kind (o ∷ obs) m =
    process_observed calls kind obs
      (if o.hold then m else process (calls o.target).0 (calls o.target).1 kind o m)

-- An evaluator reads the world and the states; `none` is an error or an unavailable source.
pub record Evaluator : Type 0 where
  pub kind : Kind
  pub evaluate : Engine → Option (List Observation)
  pub observed_calls : Calls
  pub absent_calls : Calls

abbrev pub handle_result : Evaluator → Option (List Observation) → Engine → Engine
handle_result ev none m = m
handle_result ev (some obs) m =
    retire_absent ev.absent_calls ev.kind (map (λ o. o.target) obs)
      (process_observed ev.observed_calls ev.kind obs m)

unfoldable pub run_evaluator : Evaluator → Engine → Engine
unfolding retire_absent process_observed
run_evaluator ev m = handle_result ev (ev.evaluate m) m

unfoldable pub evaluate : List Evaluator → Engine → Engine
unfolding run_evaluator
evaluate [] m = m
evaluate (ev ∷ evs) m = evaluate evs (run_evaluator ev m)
