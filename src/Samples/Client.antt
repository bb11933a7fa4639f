-- ===== src/Samples/Client.antt =====
-- Retries at a concrete input.
use nvdtools.Prelude.{ℕ, ◌<◌, true, ltb, if◌then◌else◌, ◌≡◌, refl, arith}
use nvdtools.Client.Retry.{Answer, status, response, retry_all, with_retries}
use nvdtools.Client.Recovers.{doubled, Retried, with_retries-answered}

-- The third call succeeds.
abbrev third : ℕ → Answer
third n = if ltb n 2 then status 503 true else status 200 true

earlier : (i : ℕ) → i < 2 → Retried retry_all (third i)
earlier i l = ground arith

with_retries-answered_example :
    with_retries third retry_all 5 10
    ≡ record { outcome = response 2; calls = 3; sleeps = doubled 2 10 }
with_retries-answered_example =
    with_retries-answered third retry_all 5 10 2 true (omega arith) refl earlier
