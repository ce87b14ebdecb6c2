-- ===== src/Browser/Network/Retrying.antt =====
-- How a request with retries ends, and how long it takes.
use txt.Prelude.{
  ℕ, zero, suc, ◌+◌, ◌≤◌, ◌<◌, ◌≡◌, refl, sym, subst, ◌⊎◌, inl, inr, true, false, Bool-cases, arith,
  if_cases,
}
use txt.Browser.Failures.{Settled, fulfilled, rejected, Failure, is_network_error}
use txt.Browser.Network.{
  Answer, Operation, with_network_timeout, waited, unless_final, attempts_from,
  with_network_retries,
}

abbrev pub IsNetworkFailure : {A : Type 0} → Settled A → Type 0
IsNetworkFailure (fulfilled a) = ⊥
IsNetworkFailure (rejected e) = is_network_error e ≡ true

module _ {S A : Type 0} (operation : Operation S A) where
  -- The attempt that is made after so many others.
  unfoldable pub attempt : ℕ → S → Answer S A
  attempt zero s = with_network_timeout operation s
  attempt (suc n) s = attempt n (with_network_timeout operation s).state

  -- The answer is that of the attempt after `n` others; those failed by the network, and it did not
  -- unless it was the last allowed.
  pub record IsEndedBy (last n : ℕ) (s : S) (answer : Answer S A) : Type 0 where
    pub few : n ≤ last
    pub same_result : answer.settled ≡ (attempt n s).settled
    pub same_state : answer.state ≡ (attempt n s).state
    pub failed_before : (k : ℕ) → k < n → IsNetworkFailure (attempt k s).settled
    pub final : (n ≡ last) ⊎ (IsNetworkFailure (attempt n s).settled → ⊥)

  timeout-elapsed : (s : S) → (with_network_timeout operation s).elapsed ≤ 10000
  unfolding with_network_timeout
  timeout-elapsed s = ground arith

  here :
      (last : ℕ) (s : S)
      → (last ≡ 0) ⊎ (IsNetworkFailure (with_network_timeout operation s).settled → ⊥)
      → IsEndedBy last 0 s (with_network_timeout operation s)
  unfolding attempt
  here last s final = record {
    few = omega arith;
    same_result = refl;
    same_state = refl;
    failed_before = λ k lt. absurd (omega arith);
    final = ground (arith, final);
  }

  later :
      (last n : ℕ) (s : S) (answer : Answer S A) (delay : ℕ)
      → IsNetworkFailure (with_network_timeout operation s).settled
      → IsEndedBy last n (with_network_timeout operation s).state answer
      → IsEndedBy (suc last) (suc n) s (waited delay answer)
  unfolding attempt
  later last n s answer delay failed ended = record {
    few = omega (arith, ended.few);
    same_result = ended.same_result;
    same_state = ended.same_state;
    failed_before = before;
    final = ground (arith, ended.final);
  }
    where
      before : (k : ℕ) → k < suc n → IsNetworkFailure (attempt k s).settled
      before zero lt = failed
      before (suc k) lt = ended.failed_before k (omega arith)

  not_network :
      (e : Failure) → is_network_error e ≡ false → IsNetworkFailure {A = A} (rejected e) → ⊥
  not_network e h f = cc

  -- `unless_final` on a result, and on what it stands in.
  ended_step :
      (last : ℕ) (s : S) (result : Settled A) (delay : ℕ) (again : S → Answer S A)
      → (with_network_timeout operation s).settled ≡ result
      → ((t : S) → (n : ℕ) × IsEndedBy last n t (again t))
      → (n : ℕ) × IsEndedBy
          (suc last)
          n
          s
          (unless_final result (with_network_timeout operation s) delay again)
  unfolding unless_final
  ended_step last s (fulfilled a) delay again e h =
      (0, here (suc last) s (inr (λ f. subst IsNetworkFailure e f)))
  ended_step last s (rejected x) delay again e h = elim (Bool-cases (is_network_error x)) [
    | inl y ↦
        let (n, ended) = h (with_network_timeout operation s).state in
        (suc n, rw y (later last n s _ _ (subst IsNetworkFailure (sym e) y) ended))
    | inr y ↦
        (0, rw y (here (suc last) s (inr (λ f. not_network x y (subst IsNetworkFailure e f)))))
  ]

  ended :
      (retries so_far : ℕ) (s : S)
      → (n : ℕ) × IsEndedBy retries n s (attempts_from retries so_far operation s)
  unfolding attempts_from
  ended zero so_far s = (0, here 0 s (inl refl))
  ended (suc retries) so_far s = ended_step retries s _ _ _ refl (λ t. ended retries (so_far + 1) t)

  -- A request with retries always ends, with the result and the state of one of its first four
  -- attempts: every attempt before that one failed by the network or its timeout, and that one did
  -- not, unless it was the fourth.
  pub with_network_retries-IsEndedBy :
      (s : S) → (n : ℕ) × IsEndedBy 3 n s (with_network_retries operation s)
  unfolding with_network_retries
  with_network_retries-IsEndedBy s = ended 3 0 s

  elapsed_step :
      (limit : ℕ) (answer : Answer S A) (result : Settled A) (delay : ℕ) (again : S → Answer S A)
      → answer.elapsed ≤ 10000
      → ((t : S) → (again t).elapsed ≤ limit)
      → (unless_final result answer delay again).elapsed ≤ 10000 + delay + limit
  unfolding unless_final
  elapsed_step limit answer (fulfilled a) delay again few h = omega arith
  elapsed_step limit answer (rejected e) delay again few h =
      if_cases (λ (a : Answer S A). a.elapsed ≤ 10000 + delay + limit) (is_network_error e)
        (λ _. omega (arith, h answer.state)) (λ _. omega arith)

  -- However the operation behaves, a request with retries is over within 41.75 seconds: four timeouts
  -- and the three delays.
  pub with_network_retries-elapsed : (s : S) → (with_network_retries operation s).elapsed ≤ 41750
  unfolding with_network_retries attempts_from
  with_network_retries-elapsed s = elapsed_step 31500 _ _ _ _ (timeout-elapsed s) λ t.
      elapsed_step 21000 _ _ _ _ (timeout-elapsed t)
        λ u. elapsed_step 10000 _ _ _ _ (timeout-elapsed u) λ v. timeout-elapsed v
