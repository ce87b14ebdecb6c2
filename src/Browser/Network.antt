-- ===== src/Browser/Network.antt =====
-- ui/src/data/networkRequest.ts: a request with its timeout, and its retries. An operation acts on a
-- state, the server's or the network's, and takes some milliseconds.
pub mod Retrying
use txt.Prelude.{ℕ, zero, suc, ◌+◌, ◌*◌, ◌^◌, Bool, true, false, ltb, if◌then◌else◌}
use txt.Browser.Failures.{Settled, fulfilled, rejected, Failure, timed_out, is_network_error}

abbrev pub request_timeout_ms : ℕ
request_timeout_ms = 10000

abbrev pub max_network_retries : ℕ
max_network_retries = 3

abbrev pub retry_delay_ms : ℕ
retry_delay_ms = 250

pub record Answer (S A : Type 0) : Type 0 where
  pub settled : Settled A
  pub state : S
  pub elapsed : ℕ

abbrev pub Operation : Type 0 → Type 0 → Type 0
Operation S A = S → Answer S A

module _ {S A : Type 0} where
  -- A request that takes too long is given up, whatever it did to the state.
  unfoldable pub with_network_timeout : Operation S A → Operation S A
  with_network_timeout operation s =
      let answer = operation s in
      if ltb answer.elapsed request_timeout_ms then answer else record {
        settled = rejected timed_out;
        state = answer.state;
        elapsed = request_timeout_ms;
      }

  abbrev pub waited : ℕ → Answer S A → Answer S A
  waited delay answer = record answer { elapsed = delay + answer.elapsed }

  -- What an attempt's result comes to: the end, or the next attempt.
  unfoldable pub unless_final : Settled A → Answer S A → ℕ → (S → Answer S A) → Answer S A
  unless_final (fulfilled a) answer delay again = answer
  unless_final (rejected e) answer delay again =
      if is_network_error e then waited (answer.elapsed + delay) (again answer.state) else answer

  -- The loop, with the retries that are left: `max_network_retries - attempt`.
  unfoldable pub attempts_from : ℕ → ℕ → Operation S A → Operation S A
  unfolding with_network_timeout unless_final
  attempts_from zero attempt operation s = with_network_timeout operation s
  attempts_from (suc retries) attempt operation s =
      let answer = with_network_timeout operation s in
      unless_final answer.settled answer (retry_delay_ms * 2 ^ attempt)
        (attempts_from retries (attempt + 1) operation)

  unfoldable pub with_network_retries : Operation S A → Operation S A
  unfolding attempts_from
  with_network_retries operation s = attempts_from max_network_retries 0 operation s
