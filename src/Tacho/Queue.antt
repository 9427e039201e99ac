-- ===== src/Tacho/Queue.antt =====
-- src/tacho.c: the two queues of fans, those that spin and those that stand.
use fanpico.Base.{
  ℕ, zero, suc, ◌+◌, ◌≤◌, ◌<◌, ◌≡◌, ◌≢◌, refl, inl, inr, arith, Option, none, some, leb, ◌==◌,
  Bool-cases, Option-cases, update_self,
}
use fanpico.Tacho.{Queues, scan, next_in_queue}

-- No fan from position p up to, but not including, position e is in queue q.
abbrev pub NoneBetween : (ℕ → ℕ) → ℕ → ℕ → ℕ → Type 0
NoneBetween queue q p e = (j : ℕ) → p ≤ j → j < e → queue j ≢ q

NoneBetween-extend :
    (queue : ℕ → ℕ) (q p e : ℕ)
    → queue p ≢ q
    → NoneBetween queue q (p + 1) e
    → NoneBetween queue q p e
NoneBetween-extend queue q p e h rest j l m = elim (Bool-cases (j == p)) [
  | inl here ↦ let e : j ≡ p = ground arith in rw e h
  | inr later ↦ rest j (ground arith) m
]

-- What the scan from p on finds.
abbrev Scanned : (ℕ → ℕ) → ℕ → ℕ → Option ℕ → Type 0
Scanned queue q p none = NoneBetween queue q p 8
Scanned queue q p (some i) = (p ≤ i) × (i < 8) × (queue i ≡ q) × NoneBetween queue q p i

Scanned-extend :
    (queue : ℕ → ℕ) (q p : ℕ) (o : Option ℕ)
    → queue p ≢ q
    → Scanned queue q (p + 1) o
    → Scanned queue q p o
Scanned-extend queue q p none h s = NoneBetween-extend queue q p 8 h s
Scanned-extend queue q p (some i) h (l, m, e, n) =
    (omega arith, m, e, NoneBetween-extend queue q p i h n)

scan-Scanned :
    (queue : ℕ → ℕ) (q rounds p : ℕ)
    → p < 8
    → 8 ≤ p + rounds
    → Scanned queue q p (scan queue q rounds p)
unfolding scan
scan-Scanned queue q zero p h k = absurd (omega arith)
scan-Scanned queue q (suc rounds) p h k = elim (Bool-cases (queue p == q)) [
  | inl found ↦ rw found (omega arith, h, ground arith, λ j l m. absurd (omega arith))
  | inr other ↦
      let ne : queue p ≢ q = ground arith in
      elim (Bool-cases (leb 8 (p + 1))) [
        | inl end ↦
            rw (other, end) (NoneBetween-extend queue q p 8 ne (λ j l m. absurd (ground arith)))
        | inr more ↦
            rw (other, more)
              (Scanned-extend queue q p (scan queue q rounds (p + 1)) ne
                (scan-Scanned queue q rounds (p + 1) (ground arith) (omega arith)))
      ]
]

-- The fan that the queue gives next.
abbrev pub Next : ℕ → Queues → Option ℕ × Queues → Type 0
Next q s (none, t) = NoneBetween s.queue q (s.queue_pos q) 8 × (t.queue_pos q ≡ 0)
Next q s (some i, t) =
    (s.queue_pos q ≤ i)
    × (i < 8)
    × (s.queue i ≡ q)
    × NoneBetween s.queue q (s.queue_pos q) i
    × (t.queue_pos q ≡ i + 1)

-- The next fan of a queue is the first one, from the queue's position on, that is in the queue; it
-- is one of the eight, and the position moves just past it. Where there is none, the position goes
-- back to 0. No fan changes its queue.
pub next_in_queue-Next :
    (q : ℕ) (s : Queues) → Next q s (next_in_queue q s) × ((next_in_queue q s).1.queue ≡ s.queue)
unfolding next_in_queue
next_in_queue-Next q s = elim (Bool-cases (leb 8 (s.queue_pos q))) [
  | inl end ↦ rw end ((λ j l m. absurd (ground arith), update_self s.queue_pos q 0), refl)
  | inr more ↦
      let found = scan-Scanned s.queue q 8 (s.queue_pos q) (ground arith) (omega arith) in
      elim (Option-cases (scan s.queue q 8 (s.queue_pos q))) [
        | inl e ↦ rw (more, e) ((rw e at found, update_self s.queue_pos q 0), refl)
        | inr (i, e) ↦
            let (l, m, k, n) : Scanned s.queue q (s.queue_pos q) (some i) = rw e at found in
            rw (more, e) ((l, m, k, n, update_self s.queue_pos q (i + 1)), refl)
      ]
]
