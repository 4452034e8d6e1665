-- ===== src/Runbook.antt =====
-- internal/runbook/runbook.go: the runbook that is stored, hashed, approved and run.
use rootmote_agent.Prelude.{ℕ, Bool, Option, List, [], ◌∷◌, Text}
use rootmote_agent.Steps.Params.{Params}
use rootmote_agent.Steps.Catalog.{StepId}
use rootmote_agent.Prelude.Sort.{sort_texts}

pub data Risk : Type 0 where
  l0 l1 l2 l3 : Risk

pub record Step : Type 0 where
  pub kind : StepId
  pub params : Params
  pub description : Text
  pub command : Text
  pub verify : Text
  pub undoable : Bool

pub record ManualStep : Type 0 where
  pub text : Text
  pub command : Text

pub record Command : Type 0 where
  pub command : Text
  pub run_as : Text
  pub description : Text

pub record VerificationCheck : Type 0 where
  pub id : Text
  pub kind : Text
  pub target : Text
  pub description : Text

pub record Runbook : Type 0 where
  pub id : Text
  pub schema_version : ℕ
  pub incident_id : Text
  pub diagnosis_id : Text
  pub provider_version : Text
  pub server_id : Text
  pub title : Text
  pub source : Text
  pub review_carefully : Bool
  pub summary : Text
  pub risk_explanation : Text
  pub risk : Risk
  pub run_as : Text
  pub steps : List Step
  pub manual_steps : List ManualStep
  pub affected_files : List Text
  pub affected_services : List Text
  pub interruption : Text
  pub rollback : List Command
  pub verification : List VerificationCheck
  pub external_monitor_ids : List Text
  pub blocked : Bool
  pub blocked_reason : Text
  pub content_hash : Text
  pub created_at : ℕ

pub record CanonicalStep : Type 0 where
  pub kind : StepId
  pub params : Params
  pub command : Text
  pub undoable : Bool

-- What the hash covers.
pub record Canonical : Type 0 where
  pub schema_version : ℕ
  pub incident_id : Text
  pub server_id : Text
  pub diagnosis_id : Text
  pub title : Text
  pub source : Text
  pub review_carefully : Bool
  pub risk : Risk
  pub steps : List CanonicalStep
  pub manual_steps : List ManualStep
  pub run_as : Text
  pub affected_files : List Text
  pub affected_services : List Text
  pub interruption : Text
  pub rollback : List Command
  pub verification : List VerificationCheck
  pub external_monitor_ids : List Text

-- encoding/json and SHA-256. `none` is an error of the encoder or of the decoder.
pub record Codec : Type 0 where
  pub digest : Canonical → Option Text
  pub encode : Runbook → Option Text
  pub decode : Text → Option Runbook
  pub sha256 : Text → Text

unfoldable pub canonical_steps : List Step → List CanonicalStep
canonical_steps [] = []
canonical_steps (s ∷ ss) =
    record { kind = s.kind; params = s.params; command = s.command; undoable = s.undoable }
    ∷ canonical_steps ss

unfoldable pub canonical : Runbook → Canonical
unfolding canonical_steps sort_texts
canonical rb = record {
  schema_version = rb.schema_version;
  incident_id = rb.incident_id;
  server_id = rb.server_id;
  diagnosis_id = rb.diagnosis_id;
  title = rb.title;
  source = rb.source;
  review_carefully = rb.review_carefully;
  risk = rb.risk;
  steps = canonical_steps rb.steps;
  manual_steps = rb.manual_steps;
  run_as = rb.run_as;
  affected_files = sort_texts rb.affected_files;
  affected_services = sort_texts rb.affected_services;
  interruption = rb.interruption;
  rollback = rb.rollback;
  verification = rb.verification;
  external_monitor_ids = rb.external_monitor_ids;
}

unfoldable pub content_hash : Codec → Runbook → Option Text
unfolding canonical
content_hash codec rb = codec.digest (canonical rb)
