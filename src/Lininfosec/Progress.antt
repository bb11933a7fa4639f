-- ===== src/Lininfosec/Progress.antt =====
-- cmd/lininfosec/notify.go: when the goroutines of `Notifications` go on, and what they have at the end.
use nvdtools.Prelude.{
  ℕ, zero, suc, ◌+◌, ◌≤◌, ◌<◌, false, ◌⊎◌, inl, inr, List, [], ◌∷◌, ◌++◌, length, length-append,
  ltb, ◌≡◌, refl, ap, arith, Bool-cases,
}
use nvdtools.Lininfosec.Pipeline.{
  Pipe, start, Step, feeds, takes, sends, receives, appends, Reach, at_start, and_then, total, Read,
}

total-append : (xs ys : List ℕ) → total (xs ++ ys) ≡ total xs + total ys
total-append [] ys = omega arith
total-append (x ∷ xs) ys = omega (arith, total-append xs ys)

-- What there is of vulnerabilities, wherever they are.
abbrev pub found : Pipe → ℕ
found s = total s.pending + total s.queue + total s.workers + s.out + s.hand + s.res

-- What is left to do.
abbrev pub work : Pipe → ℕ
work s =
    length s.pending
    + length s.pending
    + length s.queue
    + (total s.pending + total s.queue + total s.workers)
    + (total s.pending + total s.queue + total s.workers)
    + (total s.pending + total s.queue + total s.workers)
    + s.out
    + s.out
    + s.hand

record Sound (n : ℕ) (s : Pipe) : Type 0 where
  four : length s.workers ≡ 4
  kept : found s ≡ n
  room : s.out ≤ 4
  one : s.hand ≤ 1

-- A step does some of the work and loses nothing.
Step-Sound : (n : ℕ) (s t : Pipe) → Sound n s → Step s t → Sound n t × (work t < work s)
Step-Sound n s t i (feeds k ks e q) =
    let a = total-append s.queue (k ∷ []) in
    let b = length-append s.queue (k ∷ []) in
    let c : total s.pending ≡ k + total ks = ap total e in
    let d : length s.pending ≡ suc (length ks) = ap length e in
    (
      record { four = i.four; kept = omega (arith, a, c, i.kept); room = i.room; one = i.one },
      omega (arith, a, b, c, d),
    )
Step-Sound n s t i (takes k ks before behind e f) =
    let a = total-append before (0 ∷ behind) in
    let a' = total-append before (k ∷ behind) in
    let b = length-append before (0 ∷ behind) in
    let b' = length-append before (k ∷ behind) in
    let c : total s.queue ≡ k + total ks = ap total e in
    let d : length s.queue ≡ suc (length ks) = ap length e in
    let g : total s.workers ≡ total (before ++ 0 ∷ behind) = ap total f in
    let h : length s.workers ≡ length (before ++ 0 ∷ behind) = ap length f in
    (
      record {
        four = omega (arith, b, b', h, i.four);
        kept = omega (arith, a, a', c, g, i.kept);
        room = i.room;
        one = i.one;
      },
      omega (arith, a, a', c, d, g),
    )
Step-Sound n s t i (sends k before behind f q) =
    let a = total-append before (suc k ∷ behind) in
    let a' = total-append before (k ∷ behind) in
    let b = length-append before (suc k ∷ behind) in
    let b' = length-append before (k ∷ behind) in
    let g : total s.workers ≡ total (before ++ suc k ∷ behind) = ap total f in
    let h : length s.workers ≡ length (before ++ suc k ∷ behind) = ap length f in
    (
      record {
        four = omega (arith, b, b', h, i.four);
        kept = omega (arith, a, a', g, i.kept);
        room = omega (arith, q);
        one = i.one;
      },
      omega (arith, a, a', g),
    )
Step-Sound n s t i (receives k e f g) = (
  record {
    four = i.four;
    kept = omega (arith, f, g, i.kept);
    room = omega (arith, g, i.room);
    one = omega arith;
  },
  omega (arith, f, g),
)
Step-Sound n s t i (appends f) = (
  record { four = i.four; kept = omega (arith, f, i.kept); room = i.room; one = omega arith },
  omega (arith, f),
)

start-Sound : (confs : List ℕ) → Sound (total confs) (start confs)
unfolding start
start-Sound confs = record {
  four = refl;
  kept = omega arith;
  room = omega arith;
  one = omega arith;
}

reach-Sound : (confs : List ℕ) (s : Pipe) → Reach (start confs) s → Sound (total confs) s
reach-Sound confs s at_start = start-Sound confs
reach-Sound confs s (and_then {t} r p) = (Step-Sound (total confs) t s (reach-Sound confs t r) p).0

-- A list of numbers has a zero, or its sum is not below its length.
abbrev ZeroOrAll : List ℕ → Type 0
ZeroOrAll ns =
    ((before : List ℕ) × (behind : List ℕ) × (ns ≡ before ++ 0 ∷ behind)) ⊎ (length ns ≤ total ns)

zero_or_all : (ns : List ℕ) → ZeroOrAll ns
zero_or_all [] = inr (omega arith)
zero_or_all (zero ∷ ns) = inl ([], ns, refl)
zero_or_all (suc n ∷ ns) = elim (zero_or_all ns) [
  | inl (before, behind, e) ↦ inl (suc n ∷ before, behind, ap (◌∷◌ (suc n)) e)
  | inr h ↦ inr (omega (arith, h))
]

-- A list with a sum that is not zero has a number that is not.
busy :
    (ns : List ℕ)
    → 0 < total ns
    → (n : ℕ) × (before : List ℕ) × (behind : List ℕ) × (ns ≡ before ++ suc n ∷ behind)
busy [] h = absurd (omega (arith, h))
busy (suc n ∷ ns) h = (n, [], ns, refl)
busy (zero ∷ ns) h =
    let (n, before, behind, e) = busy ns (omega (arith, h)) in
    (n, zero ∷ before, behind, ap (◌∷◌ zero) e)

-- A worker that is busy sends, or the collector makes room for it.
worker_goes_on :
    (n : ℕ) (s : Pipe)
    → Sound n s
    → 0 < total s.workers
    → (s.pending ≡ []) ⊎ (s.out < 4)
    → (t : Pipe) × Step s t
worker_goes_on n s i b c =
    let (k, before, behind, e) = busy s.workers b in
    elim (Bool-cases (ltb s.out 4)) [
      | inl q ↦ (_, sends k before behind e (ground arith))
      | inr q ↦ elim c [
        | inl p ↦ elim (Bool-cases (ltb s.hand 1)) [
          | inl h ↦ (_, receives 3 p (ground arith) (full i q))
          | inr h ↦ (_, appends (in_hand i h))
        ]
        | inr p ↦ absurd (ground arith)
      ]
    ]
  where
    full : {s : Pipe} → Sound n s → ltb s.out 4 ≡ false → s.out ≡ 4
    full i q = ground (arith, i.room)

    in_hand : {s : Pipe} → Sound n s → ltb s.hand 1 ≡ false → s.hand ≡ 1
    in_hand i q = ground (arith, i.one)

-- Without a worker that is busy, a configuration is taken or handed over, or all are worked through.
idle_goes_on :
    (s : Pipe) (before behind : List ℕ)
    → s.workers ≡ before ++ 0 ∷ behind
    → (pending queue : List ℕ) → s.pending ≡ pending
    → s.queue ≡ queue
    → ((s.pending ≡ []) × (s.queue ≡ [])) ⊎ ((t : Pipe) × Step s t)
idle_goes_on s before behind e pending (n ∷ ns) p q = inr (_, takes n ns before behind q e)
idle_goes_on s before behind e (n ∷ ns) [] p q =
    let none_there : length s.queue ≡ 0 = ap length q in
    inr (_, feeds n ns p (omega (arith, none_there)))
idle_goes_on s before behind e [] [] p q = inl (p, q)

-- If fewer than eight vulnerabilities are found, or all configurations are handed over, then the
-- goroutines of a run go on until they have worked all configurations through, and every step leaves
-- less of the work.
pub reach-Read :
    (confs : List ℕ) (s : Pipe)
    → Reach (start confs) s
    → (s.pending ≡ []) ⊎ (total confs < 8)
    → (Read s ⊎ ((t : Pipe) × Step s t)) × ((t : Pipe) → Step s t → work t < work s)
reach-Read confs s r few =
    let i = reach-Sound confs s r in
    (
      elim (zero_or_all s.workers) [
        | inl (before, behind, e) ↦
            elim (idle_goes_on s before behind e s.pending s.queue refl refl) [
              | inr next ↦ inr next
              | inl (p, q) ↦ elim (Bool-cases (ltb 0 (total s.workers))) [
                | inl b ↦ inr (worker_goes_on (total confs) s i (ground arith) (inl p))
                | inr b ↦ inl (p, q, ground arith)
              ]
            ]
        | inr all ↦
            inr (worker_goes_on (total confs) s i (omega (arith, all, i.four)) (room few i all))
      ],
      λ t p. (Step-Sound (total confs) s t i p).1,
    )
  where
    room :
        (s.pending ≡ []) ⊎ (total confs < 8)
        → Sound (total confs) s
        → length s.workers ≤ total s.workers
        → (s.pending ≡ []) ⊎ (s.out < 4)
    room (inl p) i all = inl p
    room (inr few) i all = inr (omega (arith, few, all, i.four, i.kept))

-- When all configurations are worked through and `res` is read, it holds no more than the caches gave
-- and lacks at most five of it.
pub Read-lacks :
    (confs : List ℕ) (s : Pipe)
    → Reach (start confs) s
    → Read s
    → (s.res ≤ total confs) × (total confs ≤ s.res + 5)
Read-lacks confs s r (p, q, w) =
    let i = reach-Sound confs s r in
    let none_pending : total s.pending ≡ 0 = ap total p in
    let none_queued : total s.queue ≡ 0 = ap total q in
    (omega (arith, i.kept), omega (arith, i.kept, i.room, i.one, none_pending, none_queued, w))
