-- ===== src/Telemetry/Otlp.antt =====
-- The request that carries spans: packages/obs-types/src/types/otlp.ts, as far as
-- packages/telemetry-sdk/src/span.ts fills it.
use obs_unified.Common.{ℕ, Bool, List, Option}
use obs_unified.Common.Text.{Text}

-- A JavaScript number: the text that `String` gives for it, and whether it is an integer
pub record Number : Type 0 where
  pub text : Text
  pub is_integer : Bool

pub data OtlpAnyValue : Type 0 where
  string_value : Text → OtlpAnyValue
  bool_value : Bool → OtlpAnyValue
  int_value : Text → OtlpAnyValue
  double_value : Number → OtlpAnyValue

pub record OtlpKeyValue : Type 0 where
  pub key : Text
  pub value : OtlpAnyValue

pub record OtlpEvent : Type 0 where
  pub name : Text
  pub time_unix_nano : Text
  pub attributes : Option (List OtlpKeyValue)

pub record OtlpSpan : Type 0 where
  pub trace_id : Text
  pub span_id : Text
  pub parent_span_id : Option Text
  pub name : Text
  pub kind : ℕ
  pub start_time_unix_nano : Text
  pub end_time_unix_nano : Option Text
  pub attributes : List OtlpKeyValue
  pub events : List OtlpEvent
  pub status_code : ℕ
  pub status_message : Option Text

pub record OtlpScopeSpans : Type 0 where
  pub scope_name : Text
  pub spans : List OtlpSpan

pub record OtlpResourceSpans : Type 0 where
  pub resource_attributes : List OtlpKeyValue
  pub scope_spans : List OtlpScopeSpans

pub record OtlpTraceExportRequest : Type 0 where
  pub resource_spans : Option (List OtlpResourceSpans)
