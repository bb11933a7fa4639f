-- ===== src/Client/Retry.antt =====
-- providers/lib/client/retry.go: retrying requests.
--
-- What the calls of the request answer is a function of their number. A run is recorded with the number
-- of its calls and the times that it sleeps. The closing of bodies is left out.
use nvdtools.Prelude.{
  ℕ, zero, suc, ◌+◌, ◌*◌, Bool, true, false, List, [], ◌∷◌, ◌==◌, if◌then◌else◌, ◌≡◌, refl,
}

-- What a call answers: an error, or a status, with a body that can be read or not.
pub data Answer : Type 0 where
  call_failed : Answer
  status : ℕ → Bool → Answer

-- What a run returns: the answer of a call, one of the errors, or `FailedRetries`.
pub data Outcome : Type 0 where
  response : ℕ → Outcome
  error_of_call : ℕ → Outcome
  unreadable_body : Outcome
  status_error : ℕ → Outcome
  failed_retries : ℕ → Outcome

pub record Run : Type 0 where
  pub outcome : Outcome
  pub calls : ℕ
  pub sleeps : List ℕ

abbrev pub backoff : ℕ
backoff = 2

-- `RetryNone`, `RetryAll` and `Retry`
abbrev pub retry_none : ℕ → Bool
retry_none code = false

abbrev pub retry_all : ℕ → Bool
retry_all code = true

abbrev pub retry_statuses : List ℕ → ℕ → Bool
retry_statuses [] code = false
retry_statuses (s ∷ statuses) code = if s == code then true else retry_statuses statuses code

abbrev pub unknown_status : ℕ → Bool → Outcome
unknown_status n true = status_error n
unknown_status n false = unreadable_body

abbrev pub slept : ℕ → Run → Run
slept delay run = record run { sleeps = delay ∷ run.sleeps }

-- The body of the loop, with the run that follows a retry.
abbrev pub attempt : (ℕ → Bool) → ℕ → Answer → Run → Run
attempt should_retry retry call_failed later = record {
  outcome = error_of_call retry;
  calls = retry + 1;
  sleeps = [];
}
attempt should_retry retry (status n readable) later =
    if n == 200
    then record { outcome = response retry; calls = retry + 1; sleeps = [] }
    else if should_retry n
    then later
    else record { outcome = unknown_status n readable; calls = retry + 1; sleeps = [] }

-- The loop, with the number of retries that are left after this call. It sleeps before a call that
-- follows, and not after the last one.
unfoldable pub execute_loop : (ℕ → Answer) → (ℕ → Bool) → ℕ → ℕ → ℕ → ℕ → Run
execute_loop answers should_retry retries zero retry delay =
    attempt should_retry retry (answers retry)
      (record { outcome = failed_retries retries; calls = retry + 1; sleeps = [] })
execute_loop answers should_retry retries (suc left) retry delay =
    attempt should_retry retry (answers retry)
      (slept delay (execute_loop answers should_retry retries left (retry + 1) (delay * backoff)))

-- `execute`
unfoldable pub execute : (ℕ → Answer) → (ℕ → Bool) → ℕ → ℕ → Run
unfolding execute_loop
execute answers should_retry retries delay =
    execute_loop answers should_retry retries retries 0 delay

abbrev pub plain : Answer → Outcome
plain call_failed = error_of_call 0
plain (status n readable) = response 0

-- `WithRetries`: without retries the client as it is, which returns what the call answers.
unfoldable pub with_retries : (ℕ → Answer) → (ℕ → Bool) → ℕ → ℕ → Run
unfolding execute
with_retries answers should_retry retries delay =
    if retries == 0
    then record { outcome = plain (answers 0); calls = 1; sleeps = [] }
    else execute answers should_retry retries delay

-- Every retry is used up, with three sleeps for four calls.
used_up :
    with_retries (λ n. status 503 true) retry_all 3 10
    ≡ record { outcome = failed_retries 3; calls = 4; sleeps = 10 ∷ 20 ∷ 40 ∷ [] }
unfolding with_retries
used_up = refl
