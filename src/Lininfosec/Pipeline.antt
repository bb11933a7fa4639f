-- ===== src/Lininfosec/Pipeline.antt =====
-- cmd/lininfosec/notify.go: the goroutines of `Notifications` and their channels, as steps.
--
-- A configuration is the number of the vulnerabilities that the caches give for it. Four workers take
-- configurations from a channel with four places and send what they find to another with four places.
-- The goroutine that receives it is started when the last configuration has been handed over. No
-- reading of a configuration fails.
use nvdtools.Prelude.{ℕ, suc, ◌+◌, ◌<◌, List, [], ◌∷◌, ◌++◌, length, ◌≡◌}

pub record Pipe : Type 0 where
  -- the configurations that are not handed over
  pub pending : List ℕ
  -- `configurationsCh`
  pub queue : List ℕ
  -- what each worker still has to send
  pub workers : List ℕ
  -- the vulnerabilities in `vCh`
  pub out : ℕ
  -- the vulnerabilities that are received but not in `res`
  pub hand : ℕ
  -- the length of `res`
  pub res : ℕ

abbrev pub places : ℕ
places = 4

unfoldable pub start : List ℕ → Pipe
start confs = record {
  pending = confs;
  queue = [];
  workers = 0 ∷ 0 ∷ 0 ∷ 0 ∷ [];
  out = 0;
  hand = 0;
  res = 0;
}

pub data Step : Pipe → Pipe → Type 0 where
  feeds :
      {s : Pipe} (n : ℕ) (ns : List ℕ)
      → s.pending ≡ n ∷ ns
      → length s.queue < places
      → Step s (record s { pending = ns; queue = s.queue ++ n ∷ [] })
  takes :
      {s : Pipe} (n : ℕ) (ns before behind : List ℕ)
      → s.queue ≡ n ∷ ns
      → s.workers ≡ before ++ 0 ∷ behind
      → Step s (record s { queue = ns; workers = before ++ n ∷ behind })
  sends :
      {s : Pipe} (n : ℕ) (before behind : List ℕ)
      → s.workers ≡ before ++ suc n ∷ behind
      → s.out < places
      → Step s (record s { workers = before ++ n ∷ behind; out = s.out + 1 })
  receives :
      {s : Pipe} (n : ℕ)
      → s.pending ≡ []
      → s.hand ≡ 0
      → s.out ≡ suc n
      → Step s (record s { out = n; hand = 1 })
  appends : {s : Pipe} → s.hand ≡ 1 → Step s (record s { hand = 0; res = s.res + 1 })

pub data Reach (s : Pipe) : Pipe → Type 0 where
  at_start : Reach s s
  and_then : {t u : Pipe} → Reach s t → Step t u → Reach s u

abbrev pub total : List ℕ → ℕ
total [] = 0
total (n ∷ ns) = n + total ns

-- Every configuration is handed over and worked through: then `vCh` is closed and `res` is read.
abbrev pub Read : Pipe → Type 0
Read s = (s.pending ≡ []) × (s.queue ≡ []) × (total s.workers ≡ 0)
