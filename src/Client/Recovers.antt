-- ===== src/Client/Recovers.antt =====
-- providers/lib/client/retry.go: a request that succeeds in time is answered.
use nvdtools.Prelude.{
  ℕ, zero, suc, ◌+◌, ◌*◌, ◌≤◌, ◌<◌, Bool, true, false, List, [], ◌∷◌, ◌==◌, ◌≡◌, refl, sym, ap,
  subst, ◌∙◌, arith, Bool-cases, inl, inr,
}
use nvdtools.Client.Retry.{
  Answer, call_failed, status, response, Run, attempt, slept, execute_loop, execute, with_retries,
}

-- An answer that is retried.
abbrev pub Retried : (ℕ → Bool) → Answer → Type 0
Retried should_retry call_failed = ⊥
Retried should_retry (status n readable) = ((n == 200) ≡ false) × (should_retry n ≡ true)

-- The times that are slept before so many calls, each twice the one before.
abbrev pub doubled : ℕ → ℕ → List ℕ
doubled zero delay = []
doubled (suc n) delay = delay ∷ doubled n (delay * 2)

attempt-Retried :
    (should_retry : ℕ → Bool) (retry : ℕ) (a : Answer) (later : Run)
    → Retried should_retry a
    → attempt should_retry retry a later ≡ later
attempt-Retried should_retry retry call_failed later h = absurd h
attempt-Retried should_retry retry (status n readable) later (p, q) = rw (p, q) refl

module _ (answers : ℕ → Answer) (should_retry : ℕ → Bool) (retries : ℕ) where
  loop-answered :
      (more left retry delay : ℕ) (readable : Bool)
      → more ≤ left
      → answers (retry + more) ≡ status 200 readable
      → ((i : ℕ) → i < more → Retried should_retry (answers (retry + i)))
      → execute_loop answers should_retry retries left retry delay ≡ record {
        outcome = response (retry + more);
        calls = retry + more + 1;
        sleeps = doubled more delay;
      }
  unfolding execute_loop
  loop-answered zero zero retry delay readable le ok h =
      let z : retry + 0 ≡ retry = omega arith in
      let e : answers retry ≡ status 200 readable = ap answers (sym z) ∙ ok in rw (z, e) refl
  loop-answered zero (suc left) retry delay readable le ok h =
      let z : retry + 0 ≡ retry = omega arith in
      let e : answers retry ≡ status 200 readable = ap answers (sym z) ∙ ok in rw (z, e) refl
  loop-answered (suc more) zero retry delay readable le ok h = absurd (omega arith)
  loop-answered (suc more) (suc left) retry delay readable le ok h =
      let z : retry + 0 ≡ retry = omega arith in
      let s : retry + suc more ≡ retry + 1 + more = omega arith in
      let first : Retried should_retry (answers retry) =
        subst (λ i. Retried should_retry (answers i)) z (h 0 (omega arith)) in
      let rest =
        loop-answered more left (retry + 1) (delay * 2) readable (omega arith)
          (ap answers (sym s) ∙ ok)
          (λ i l.
            let n : retry + suc i ≡ retry + 1 + i = omega arith in
            subst (λ j. Retried should_retry (answers j)) n (h (suc i) (omega arith))) in
      attempt-Retried should_retry retry (answers retry)
        (slept delay (execute_loop answers should_retry retries left (retry + 1) (delay * 2))) first
      ∙ ap (slept delay) rest
      ∙ rw s refl

-- If a call within the retries answers with status 200, and each before it with another status that is
-- retried, then the run returns this answer, after no more calls, and sleeps before each retry twice as
-- long as before the last.
pub with_retries-answered :
    (answers : ℕ → Answer) (should_retry : ℕ → Bool) (retries delay n : ℕ) (readable : Bool)
    → n ≤ retries
    → answers n ≡ status 200 readable
    → ((i : ℕ) → i < n → Retried should_retry (answers i))
    → with_retries answers should_retry retries delay
      ≡ record { outcome = response n; calls = n + 1; sleeps = doubled n delay }
unfolding with_retries execute
with_retries-answered answers should_retry retries delay n readable le ok h =
    elim (Bool-cases (retries == 0)) [
      | inl e ↦
          let z : n ≡ 0 = ground arith in
          let k : answers 0 ≡ status 200 readable = ap answers (sym z) ∙ ok in rw (e, z, k) refl
      | inr e ↦
          let z : (i : ℕ) → 0 + i ≡ i = λ i. omega arith in
          rw e (
            loop-answered answers should_retry retries n retries 0 delay readable le
              (ap answers (z n) ∙ ok)
              (λ i l. subst (λ j. Retried should_retry (answers j)) (sym (z i)) (h i l))
            ∙ ap answered_at (z n))
    ]
  where
    answered_at : ℕ → Run
    answered_at m = record { outcome = response m; calls = m + 1; sleeps = doubled n delay }
