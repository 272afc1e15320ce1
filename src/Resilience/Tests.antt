-- ===== src/Resilience/Tests.antt =====
-- A provider that fails, recovers and is probed.
use live_kit_voice_agent.Prelude.{ℕ, ◌≡◌, refl, true, some, List, [], ◌∷◌, arith}
use live_kit_voice_agent.Prelude.Text.{text}
use live_kit_voice_agent.Resilience.Breaker.{
  Config, CircuitBreaker, new_breaker, opened, Reply, responds, transport_error, blocked, gate,
  reply, run, handle_request, Registry,
}
use live_kit_voice_agent.Resilience.States.{
  is_sound, replies, run-new_breaker, run_opened_blocks, run_failures,
}

abbrev two_failures : Config
two_failures = record { failure_threshold = 2; recovery_timeout = 100; success_threshold = 1 }

abbrev tripped : CircuitBreaker
tripped = record { state = opened; failure_count = 0; success_count = 0; opened_at = some 20 }

abbrev failures : List (ℕ × Reply)
failures = (10, responds 503) ∷ (20, transport_error) ∷ []

run-new_breaker_example :
    is_sound two_failures (run two_failures new_breaker (replies failures)) ≡ true
run-new_breaker_example = run-new_breaker two_failures (omega arith) (replies failures)

run_failures_example : (run two_failures new_breaker (replies failures)).state ≡ opened
run_failures_example =
    run_failures two_failures new_breaker failures refl refl (omega arith) (omega arith)

run_opened_blocks_example :
    (handle_request two_failures 60 70
      (responds 200)
      (run two_failures tripped (gate 30 ∷ reply 50 (responds 200) ∷ []))).0
    ≡ blocked
run_opened_blocks_example =
    run_opened_blocks two_failures tripped 20 (gate 30 ∷ reply 50 (responds 200) ∷ []) 60 70
      (responds 200) refl refl refl (omega arith)

abbrev registry : Registry
registry = (text "a:stt", tripped) ∷ (text "b:llm", new_breaker) ∷ []
