-- ===== src/Tests/Timer.antt =====
-- The theorems of the timer at concrete inputs.
use fix.Base.{ℕ, ◌+◌, ◌%◌, ◌≡◌, refl, Bool, true, false, List, [], ◌∷◌, All, map, length, arith}
use fix.Codec.Decimal.{u32}
use fix.Timer.{TimerEvent, push, State, run}
use fix.Timer.Laws.{IsOrdered, IsDue, run_sound, run-timed}

abbrev event : ℕ → ℕ → Bool → TimerEvent
event callback t repeats = record { callback = callback; t = t; interval_ms = 1; repeats = repeats }

-- The monitor counts its calls.
abbrev call : ℕ → ℕ → Bool × ℕ
call callback count = (true, count + 1)

abbrev queue : List TimerEvent
queue = event 1 0 false ∷ event 2 500 false ∷ event 3 900 false ∷ []

abbrev repeating : State ℕ
repeating = record { queue = event 1 500 true ∷ event 2 900 false ∷ []; elapsed = 0; monitor = 0 }

run_sound_example :
    let r = run ℕ call (400 ∷ 600 ∷ 1000500 ∷ []) repeating in
    All IsDue r.0 × IsOrdered r.1.queue × (r.1.elapsed ≡ (0 + length r.0) % u32)
run_sound_example =
    run_sound ℕ call (400 ∷ 600 ∷ 1000500 ∷ []) repeating ((refl, tt), (tt, tt)) (omega arith)

run-repeats : (run ℕ call (400 ∷ 600 ∷ 1000500 ∷ 1000600 ∷ []) repeating).1.monitor ≡ 3
unfolding run push
run-repeats = refl

run-timed_example :
    let r =
      run ℕ call (1000 ∷ 1001 ∷ 1002 ∷ []) (record { queue = queue; elapsed = 0; monitor = 0 }) in
    (map (λ c. c.1) r.0 ≡ event 2 500 false ∷ event 3 900 false ∷ []) × (r.1.queue ≡ [])
run-timed_example =
    run-timed ℕ call 1000 (1000 ∷ 1001 ∷ 1002 ∷ []) queue 0 0 (refl, (refl, (refl, tt)))
      (refl, (refl, (refl, tt))) (refl, (refl, (refl, tt))) (omega arith)
