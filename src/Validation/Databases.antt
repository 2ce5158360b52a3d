-- ===== src/Validation/Databases.antt =====
-- src/infra/validation/databases.rs
use analytics_hub.Prelude.{String, Outcome, ok, err, [], ◌∷◌}
use analytics_hub.Prelude.Effects.{Effect}
use analytics_hub.Validation.{
  ValidationCheck, ValidationResults, critical, important, new_check, pass, fail, warn, new_results,
}
use analytics_hub.Validation.Listing.{Listing}
use analytics_hub.Validation.Programs.{Programs, Check, holds, in_labelled, run_all}

abbrev pub postgres_check : ValidationCheck
postgres_check = new_check "postgres-connectivity" "Database Connectivity" critical

unfoldable pub kafka_said : {E : Type 0} → ValidationCheck → Outcome String E → ValidationCheck
kafka_said check (ok output) = pass "Kafka broker is responding" check
kafka_said check (err e) = warn "Failed to check Kafka connectivity" check

module _ (l : Listing) (p : Programs l.Error) where
  unfoldable pub check_postgres_connectivity : Check l p
  check_postgres_connectivity =
      in_labelled l p "app=timescaledb" "pg_isready -U postgres" "No TimescaleDB pod available"
        postgres_check
        (holds "accepting connections" (pass "PostgreSQL is accepting connections" postgres_check)
          (fail "PostgreSQL is not ready" postgres_check)
          (fail "Failed to check PostgreSQL connectivity" postgres_check))

  unfoldable pub check_database_exists : Check l p
  check_database_exists =
      let check = new_check "database-exists" "Database Connectivity" important in
      in_labelled l p "app=timescaledb" "psql -U postgres -lqt" "No TimescaleDB pod available" check
        (holds "llm_analytics" (pass "Database 'llm_analytics' exists" check)
          (fail "Database 'llm_analytics' does not exist" check)
          (warn "Failed to verify database existence" check))

  unfoldable pub check_timescaledb_extension : Check l p
  check_timescaledb_extension =
      let check = new_check "timescaledb-extension" "Database Connectivity" important in
      in_labelled l p "app=timescaledb"
        "psql -U postgres -d llm_analytics -c \"SELECT extname FROM pg_extension WHERE extname='timescaledb';\""
        "No TimescaleDB pod available" check
        (holds "timescaledb" (pass "TimescaleDB extension is installed" check)
          (warn "TimescaleDB extension may not be installed" check)
          (warn "Failed to verify TimescaleDB extension" check))

  unfoldable pub check_redis_connectivity : Check l p
  check_redis_connectivity =
      let check = new_check "redis-connectivity" "Database Connectivity" important in
      in_labelled l p "app=redis" "redis-cli PING" "No Redis pod available" check (
        holds "PONG" (pass "Redis is responding" check)
          (fail "Redis not responding correctly" check)
          (warn "Failed to check Redis connectivity" check))

  unfoldable pub check_kafka_connectivity : Check l p
  check_kafka_connectivity =
      let check = new_check "kafka-connectivity" "Database Connectivity" important in
      in_labelled l p "app=kafka" "kafka-topics.sh --bootstrap-server localhost:9092 --list"
        "No Kafka pod available" check (kafka_said check)

  -- `DatabaseValidator::validate`
  unfoldable pub validate_databases : Effect p.State l.Error ValidationResults
  validate_databases =
      run_all
        (check_postgres_connectivity ∷ check_database_exists ∷ check_timescaledb_extension
          ∷ check_redis_connectivity ∷ check_kafka_connectivity ∷ [])
        (new_results "Database Connectivity")
