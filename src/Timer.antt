-- ===== src/Timer.antt =====
-- `TimerEvent` and `Timer` of include/fix8/timer.hpp. `std::priority_queue` is the list of its elements
-- in the order in which they come to the top; of events for the same time the library leaves the order
-- open, and the one that was pushed first comes first here. The lock is held through a round and
-- through each operation, so that these do not interleave.
pub mod Laws
use fix.Base.{
  ℕ, zero, suc, ◌+◌, ◌*◌, ◌%◌, ◌^◌, Bool, not, true, false, List, Option, none, some, [], ◌∷◌, ◌++◌,
  ◌==◌, ◌&&◌, if◌then◌else◌,
}
use fix.Codec.Decimal.{u32}
use fix.Schedule.{ticks, tick_leb, tick_ltb}

abbrev pub million : ℕ
million = 10 ^ 6

-- `callback` names a method of the monitor.
pub record TimerEvent : Type 0 where
  pub callback : ℕ
  pub t : ℕ
  pub interval_ms : ℕ
  pub repeats : Bool

-- `operator<`: the event that is due first is the greatest.
abbrev pub less : TimerEvent → TimerEvent → Bool
less event right = tick_ltb right.t event.t

-- `push`: behind the elements that are not less.
unfoldable pub push : TimerEvent → List TimerEvent → List TimerEvent
push event [] = event ∷ []
push event (top ∷ queue) =
    let later = push event queue in if less top event then event ∷ top ∷ queue else top ∷ later

-- `schedule` at the time `now`; it returns true.
unfoldable pub schedule : ℕ → TimerEvent → ℕ → List TimerEvent → List TimerEvent
unfolding push
schedule now what time_to_wait queue =
    if not (time_to_wait == 0)
    then push
        (record what { t = (now + time_to_wait * million) % ticks; interval_ms = time_to_wait })
        queue
    else push (record what { t = 0 }) queue

-- `clear`: the number of events removed, and the empty queue.
unfoldable pub clear : ℕ → List TimerEvent → ℕ × List TimerEvent
clear result [] = (result, [])
clear result (top ∷ queue) = clear (result + 1) queue

pub record State (Monitor : Type 0) : Type 0 where
  pub queue : List TimerEvent
  pub elapsed : ℕ
  pub monitor : Monitor

abbrev pub noted : ℕ → Option TimerEvent → List (ℕ × TimerEvent) → List (ℕ × TimerEvent)
noted now none more = more
noted now (some op) more = (now, op) ∷ more

-- The monitor is an object with a state, whose methods return whether to repeat.
module _ (Monitor : Type 0) (call : ℕ → Monitor → Bool × Monitor) where
  -- A round that has the top of the queue for an event that is due.
  abbrev pub fire : ℕ → TimerEvent → List TimerEvent → State Monitor → State Monitor
  fire now op queue s =
      let (result, monitor) = call op.callback s.monitor in
      record {
        queue =
            (if result && op.repeats
              then push (record op { t = (now + op.interval_ms * million) % ticks }) queue
              else queue);
        elapsed = (s.elapsed + 1) % u32;
        monitor = monitor;
      }

  -- One round of the loop of `operator()` at the time `now`, with the event that was called, if any.
  unfoldable pub round : ℕ → State Monitor → Option TimerEvent × State Monitor
  unfolding push
  round now s = elim s.queue [
    | [] ↦ (none, s)
    | op ∷ queue ↦
        if op.t == 0
        then (none, record s { queue = queue })
        else if tick_leb op.t now
        then (some op, fire now op queue s)
        else (none, s)
  ]

  -- The loop, up to its cancellation: a round at each of the times, and the events called at what time.
  unfoldable pub run : List ℕ → State Monitor → List (ℕ × TimerEvent) × State Monitor
  unfolding round
  run [] s = ([], s)
  run (now ∷ times) s =
      let (called, next) = round now s in
      let (more, final) = run times next in (noted now called more, final)
