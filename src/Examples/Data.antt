-- ===== src/Examples/Data.antt =====
-- Data for the tests: arithmetic with hundredths, a small server, and some events.
use analytics_hub.Prelude.{ℕ, ◌+◌, ◌-◌, ◌*◌, ◌/◌, String, none, false, [], ◌∷◌, ok, ltb, leb}
use Prim.Native.Nat.{max, min}
use analytics_hub.Prelude.Int.{pos}
use analytics_hub.Prelude.Float.{FloatOps}
use analytics_hub.Schema.Event.{AnalyticsEvent, llm_sentinel, security, warning}
use analytics_hub.Storage.{Faults}
use analytics_hub.Pipeline.Cache.{Redis}

-- Non-negative numbers in hundredths.
abbrev pub hundredths : FloatOps
hundredths = record {
  F = ℕ;
  of_nat = λ n. n * 100;
  to_nat = λ x. x / 100;
  add = λ a b. a + b;
  sub = λ a b. a - b;
  mul = λ a b. a * b / 100;
  div = λ a b. a * 100 / b;
  sqrt = λ a. a;
  abs = λ a. a;
  ceil = λ a. (a + 99) / 100 * 100;
  max = λ a b. max a b;
  min = λ a b. min a b;
  lt = λ a b. ltb a b;
  le = λ a b. leb a b;
}

-- A server that counts the writes.
abbrev pub counting_server : Redis
counting_server = record {
  Server = ℕ;
  RedisError = String;
  connect = λ n. (ok tt, n);
  incr_by_one = λ k n. (ok tt, n + 1);
  set_number = λ k v n. (ok tt, n + 1);
}

abbrev pub event : ℕ → AnalyticsEvent String
event i = record {
  common = record {
    event_id = i;
    timestamp = pos 1700000000000000000;
    source_module = llm_sentinel;
    event_type = security;
    correlation_id = none;
    parent_event_id = none;
    schema_version = "1.0.0";
    severity = warning;
    environment = "production";
    tags = ("region", "us-east-1") ∷ [];
  };
  payload = "threat";
}

-- An event without a schema version.
abbrev pub unversioned : AnalyticsEvent String
unversioned = record (event 9) { common = record ((event 9).common) { schema_version = "" } }

abbrev pub no_faults : Faults
no_faults = record { begin_fails = false; statement_fails = λ i. false; commit_fails = false }

-- The second statement fails.
abbrev pub second_fails : Faults
second_fails = record { begin_fails = false; statement_fails = λ i. ltb 0 i; commit_fails = false }
