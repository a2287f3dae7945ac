-- ===== src/Timer/Laws.antt =====
-- Which events the timer calls, and in which order.
use fix.Base.{
  ℕ, suc, ◌+◌, ◌*◌, ◌%◌, ◌<◌, ◌≤◌, ◌≡◌, ◌≢◌, refl, ap, ◌∙◌, Bool, true, false, List, Option, none,
  some, [], ◌∷◌, ◌==◌, ◌&&◌, All, map, length, arith, Bool-cases, inl, inr, if◌then◌else◌,
}
use fix.Codec.Decimal.{u32}
use fix.Schedule.{ticks, tick_leb}
use fix.Timer.{million, TimerEvent, less, push, noted, schedule, clear, State, fire, round, run}

abbrev pub Before : TimerEvent → TimerEvent → Type 0
Before a b = tick_leb a.t b.t ≡ true

-- The queue comes to its top in the order of the times.
abbrev pub IsOrdered : List TimerEvent → Type 0
IsOrdered [] = Unit
IsOrdered (op ∷ queue) = All (Before op) queue × IsOrdered queue

before_trans : (a b c : ℕ) → tick_leb a b ≡ true → tick_leb b c ≡ true → tick_leb a c ≡ true
before_trans a b c h k = ground arith

Before-All :
    (a b : TimerEvent) (queue : List TimerEvent)
    → Before a b
    → All (Before b) queue
    → All (Before a) queue
Before-All a b [] h k = tt
Before-All a b (op ∷ queue) h k = (before_trans a.t b.t op.t h k.0, Before-All a b queue h k.1)

push-Before :
    (a event : TimerEvent) (queue : List TimerEvent)
    → Before a event
    → All (Before a) queue
    → All (Before a) (push event queue)
unfolding push
push-Before a event [] p h = (p, tt)
push-Before a event (op ∷ queue) p h = elim (Bool-cases (less op event)) [
  | inl lt ↦ rw lt (p, (h.0, h.1))
  | inr ge ↦ rw ge (h.0, push-Before a event queue p h.1)
]

push-IsOrdered :
    (event : TimerEvent) (queue : List TimerEvent) → IsOrdered queue → IsOrdered (push event queue)
unfolding push
push-IsOrdered event [] h = (tt, tt)
push-IsOrdered event (op ∷ queue) h = elim (Bool-cases (less op event)) [
  | inl lt ↦
      let first : Before event op = ground (arith, lt) in
      rw lt ((first, Before-All event op queue first h.0), (h.0, h.1))
  | inr ge ↦
      let first : Before op event = ground (arith, ge) in
      rw ge (push-Before op event queue first h.0, push-IsOrdered event queue h.1)
]

schedule-IsOrdered :
    (now wait : ℕ) (what : TimerEvent) (queue : List TimerEvent)
    → IsOrdered queue
    → IsOrdered (schedule now what wait queue)
unfolding schedule
schedule-IsOrdered now wait what queue h = elim (Bool-cases (wait == 0)) [
  | inl zero_wait ↦ rw zero_wait (push-IsOrdered _ queue h)
  | inr later ↦ rw later (push-IsOrdered _ queue h)
]

length-push :
    (event : TimerEvent) (queue : List TimerEvent) → length (push event queue) ≡ suc (length queue)
unfolding push
length-push event [] = refl
length-push event (op ∷ queue) = ground (arith, length-push event queue)

clear-length :
    (result : ℕ) (queue : List TimerEvent) → clear result queue ≡ (result + length queue, [])
unfolding clear
clear-length result [] = ap (λ n. (n, [])) (omega arith)
clear-length result (op ∷ queue) = clear-length (result + 1) queue ∙ ap (λ n. (n, [])) (omega arith)

length-schedule :
    (now wait : ℕ) (what : TimerEvent) (queue : List TimerEvent)
    → length (schedule now what wait queue) ≡ length queue + 1
unfolding schedule
length-schedule now wait what queue = elim (Bool-cases (wait == 0)) [
  | inl zero_wait ↦ rw zero_wait (omega (arith, length-push (record what { t = 0 }) queue))
  | inr later ↦ rw later (
      omega (
        arith,
        length-push (record what { t = (now + wait * million) % ticks; interval_ms = wait }) queue,
      ))
]

-- Scheduling an event, for any wait, keeps the queue in the order of the times and makes it longer by
-- one, and clearing the queue then returns the number of the events in it and leaves none.
pub schedule-clear :
    (now wait : ℕ) (what : TimerEvent) (queue : List TimerEvent)
    → IsOrdered queue
    → IsOrdered (schedule now what wait queue)
      × (clear 0 (schedule now what wait queue) ≡ (length queue + 1, []))
schedule-clear now wait what queue h = (
  schedule-IsOrdered now wait what queue h,
  clear-length 0 (schedule now what wait queue)
      ∙ ap (λ n. (n, [])) (omega (arith, length-schedule now wait what queue)),
)

-- The event has a time, which has come.
abbrev pub IsDue : ℕ × TimerEvent → Type 0
IsDue (now, op) = (op.t ≢ 0) × (tick_leb op.t now ≡ true)

abbrev Called : ℕ → Option TimerEvent → Type 0
Called now none = Unit
Called now (some op) = IsDue (now, op)

counted : Option TimerEvent → ℕ
counted none = 0
counted (some op) = 1

noted-IsDue :
    (now : ℕ) (called : Option TimerEvent) (more : List (ℕ × TimerEvent))
    → Called now called
    → All IsDue more
    → All IsDue (noted now called more)
noted-IsDue now none more h k = k
noted-IsDue now (some op) more h k = (h, k)

length-noted :
    (now : ℕ) (called : Option TimerEvent) (more : List (ℕ × TimerEvent))
    → length (noted now called more) ≡ counted called + length more
unfolding counted
length-noted now none more = omega arith
length-noted now (some op) more = omega arith

module _ (Monitor : Type 0) (call : ℕ → Monitor → Bool × Monitor) where
  fire-IsOrdered :
      (now : ℕ) (op : TimerEvent) (queue : List TimerEvent) (s : State Monitor)
      → IsOrdered queue
      → IsOrdered (fire Monitor call now op queue s).queue
  fire-IsOrdered now op queue s h =
      elim (Bool-cases ((call op.callback s.monitor).0 && op.repeats)) [
        | inl again ↦ rw again (push-IsOrdered _ queue h)
        | inr once ↦ rw once h
      ]

  round_sound :
      (now : ℕ) (queue : List TimerEvent) (elapsed : ℕ) (monitor : Monitor)
      → IsOrdered queue
      → elapsed < u32
      → let r =
          round Monitor call now (record { queue = queue; elapsed = elapsed; monitor = monitor }) in
        Called now r.0
        × IsOrdered r.1.queue
        × (r.1.elapsed < u32)
        × (r.1.elapsed ≡ (elapsed + counted r.0) % u32)
  unfolding round counted
  round_sound now [] elapsed monitor h k = (tt, tt, k, omega arith)
  round_sound now (op ∷ queue) elapsed monitor h k = elim (Bool-cases (op.t == 0)) [
    | inl empty ↦ rw empty (tt, h.1, k, omega arith)
    | inr timed ↦ elim (Bool-cases (tick_leb op.t now)) [
      | inl due ↦
          rw (timed, due)
            (
              (ground (arith, timed), due),
              fire-IsOrdered now op queue
                  (record { queue = op ∷ queue; elapsed = elapsed; monitor = monitor }) h.1,
              omega arith,
              omega arith,
            )
      | inr early ↦ rw (timed, early) (tt, h, k, omega arith)
    ]
  ]

  -- Whatever the times at which the loop looks at the clock, and whatever the callbacks do: each event
  -- that is called has a time, and it has come by the clock of that round; a queue in the order of the
  -- times is left in that order, repeated events included; and the count of the loop is, modulo 2 ^ 32,
  -- the number of calls.
  pub run_sound :
      (times : List ℕ) (s : State Monitor)
      → IsOrdered s.queue
      → s.elapsed < u32
      → let r = run Monitor call times s in
        All IsDue r.0 × IsOrdered r.1.queue × (r.1.elapsed ≡ (s.elapsed + length r.0) % u32)
  unfolding run
  run_sound [] s h k = (tt, h, omega arith)
  run_sound (now ∷ times) s h k =
      let first = round Monitor call now s in
      let (called, ordered, bound, count) = round_sound now s.queue s.elapsed s.monitor h k in
      let (due, final, total) = run_sound times first.1 ordered bound in
      let more = (run Monitor call times first.1).0 in
      (
        noted-IsDue now first.0 more called due,
        final,
        omega (arith, total, count, length-noted now first.0 more),
      )

-- The events that have a time, in order.
abbrev pub timed : List TimerEvent → List TimerEvent
timed [] = []
timed (op ∷ queue) = if op.t == 0 then timed queue else op ∷ timed queue

and-false : (b c : Bool) → c ≡ false → (b && c) ≡ false
and-false b c h = ground arith

module _ (Monitor : Type 0) (call : ℕ → Monitor → Bool × Monitor) (last : ℕ) where
  -- Where no event repeats, each is due by `last`, and the clock reads `last` or later at as many rounds
  -- as there are events or more: the loop calls exactly the events that have a time, once each and in
  -- the order of the queue, whatever the callbacks return, and the queue is left empty. An event
  -- without a time, which is what a wait of 0 schedules, is never called.
  pub run-timed :
      (times : List ℕ) (queue : List TimerEvent) (elapsed : ℕ) (monitor : Monitor)
      → All (λ op. op.repeats ≡ false) queue
      → All (λ op. tick_leb op.t last ≡ true) queue
      → All (λ now. tick_leb last now ≡ true) times
      → length queue ≤ length times
      → let r =
          run Monitor call times (record { queue = queue; elapsed = elapsed; monitor = monitor }) in
        (map (λ c. c.1) r.0 ≡ timed queue) × (r.1.queue ≡ [])
  unfolding run round
  run-timed [] [] elapsed monitor once due late enough = (refl, refl)
  run-timed [] (op ∷ queue) elapsed monitor once due late enough = absurd (omega (arith, enough))
  run-timed (now ∷ times) [] elapsed monitor once due late enough =
      run-timed times [] elapsed monitor tt tt late.1 (omega arith)
  run-timed (now ∷ times) (op ∷ queue) elapsed monitor once due late enough =
      elim (Bool-cases (op.t == 0)) [
        | inl empty ↦
            rw empty
              (run-timed times queue elapsed monitor once.1 due.1 late.1 (omega (arith, enough)))
        | inr has_time ↦
            let come = before_trans op.t last now due.0 late.0 in
            let ends = and-false (call op.callback monitor).0 op.repeats once.0 in
            let (calls, left) =
              run-timed times queue ((elapsed + 1) % u32) (call op.callback monitor).1 once.1 due.1
                late.1 (omega (arith, enough)) in
            rw (has_time, come, ends) (ap (◌∷◌ op) calls, left)
      ]
