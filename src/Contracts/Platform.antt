-- ===== src/Contracts/Platform.antt =====
-- The code outside this repository that the stores call, as parameters.
-- `canonical_digest` is SHA-256 over the canonical text that `json.dumps` gives of a payload;
-- `sha256_hex` is `hashlib.sha256(...).hexdigest()`; `isoformat` is the datetime method; `sorted_texts`
-- is Python's `sorted` on texts; each `dump_` is `json.loads` of pydantic's `model_dump_json()`.
use xiaowei_agent.Contracts.Json.{Json, str, obj, field}
use xiaowei_agent.Contracts.Steps.{TraceEvent, EvidenceEnvelope}
use xiaowei_agent.Contracts.Submission.{RequestEnvelope, RequestContext}
use xiaowei_agent.Prelude.{ℕ, String, List}

pub record Platform : Type 0 where
  pub canonical_digest : Json → String
  pub sha256_hex : String → String
  pub isoformat : ℕ → String
  pub sorted_texts : List String → List String
  pub dump_envelope : RequestEnvelope → Json
  pub dump_context : RequestContext → Json
  pub dump_trace_event : TraceEvent → Json
  pub dump_evidence : EvidenceEnvelope → Json

-- A stand-in that computes, for runs at concrete inputs: digests are read off the first text.
abbrev first_text : Json → String
first_text (str s) = s
first_text (obj (field k (str s) r)) = s
first_text _ = ""

abbrev pub toy_platform : Platform
toy_platform = record {
  canonical_digest = first_text;
  sha256_hex = λ s. s;
  isoformat = λ t. "t";
  sorted_texts = λ xs. xs;
  dump_envelope = λ e. str e.text;
  dump_context = λ c. str c.actor;
  dump_trace_event = λ e. str e.event_id;
  dump_evidence = λ e. str e.evidence_id;
}
