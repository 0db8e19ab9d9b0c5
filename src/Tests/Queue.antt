-- ===== src/Tests/Queue.antt =====
-- A queue through which one element passes.
use xrtc_server.Prelude.{ℕ, ◌+◌, ◌≡◌, ◌≢◌, ◌%◌, ◌^◌, refl, List, [], ◌∷◌, ◌++◌, length, arith}
use xrtc_server.Queue.{
  System, new_queue, Event, silent, enqueued, dequeued, found_empty, fault, Action, link, move,
  count, clean, test, copy, advance, uncount, step, store,
}
use xrtc_server.Queue.Chain.{Cells, values}
use xrtc_server.Queue.Invariant.{uncounted, overcounted}
use xrtc_server.Queue.Trace.{
  Run, done, next, Replays, system_of, enqueues, dequeues, Run-Replays, Holds, Run-safe,
  Run-contents,
}

abbrev play : {A : Type 0} → List (Action A) → System A → System A
play [] s = s
play (a ∷ as_) s = play as_ (system_of (step a s) s)

-- The producer enters 7 while the consumer finds nothing, then takes it.
abbrev acts : List (Action ℕ)
acts = test ∷ link 2 7 ∷ move ∷ test ∷ copy ∷ count ∷ advance ∷ clean ∷ uncount ∷ clean ∷ []

abbrev events : List (Event ℕ)
events =
    found_empty
    ∷ silent
    ∷ enqueued 7
    ∷ silent
    ∷ silent
    ∷ silent
    ∷ dequeued 7
    ∷ silent
    ∷ silent
    ∷ silent
    ∷ []

abbrev end : System ℕ
end = play acts (new_queue 1 0)

trace : Run ℕ (new_queue 1 0) end events
unfolding step store new_queue
trace = next test tt refl (
    next (link 2 7) (refl, omega arith) refl
      (next move tt refl (
        next test tt refl (
          next copy tt refl (
            next count tt refl (
              next advance tt refl
                (next clean tt refl (next uncount tt refl (next clean tt refl done)))))))))

Run-Replays_example : (r : List ℕ) × Replays events [] r
Run-Replays_example = Run-Replays 1 0 end events (omega arith) trace

Run-safe_example : step (link 3 9) end ≢ fault
unfolding step store new_queue
Run-safe_example = Run-safe 1 0 end events (link 3 9) (omega arith) trace (refl, omega arith)

-- After the producer has entered 7 and the consumer has copied it.
abbrev midway : System ℕ
midway = play (test ∷ link 2 7 ∷ move ∷ test ∷ copy ∷ []) (new_queue 1 0)

abbrev early : List (Event ℕ)
early = found_empty ∷ silent ∷ enqueued 7 ∷ silent ∷ silent ∷ []

early_trace : Run ℕ (new_queue 1 0) midway early
unfolding step store new_queue
early_trace = next test tt refl (
    next (link 2 7) (refl, omega arith) refl
      (next move tt refl (next test tt refl (next copy tt refl done))))

Run-contents_example :
    (live : Cells ℕ) × Holds midway live
    × (enqueues early ≡ dequeues early ++ values live)
    × ((midway.size + uncounted midway.producer) % 2 ^ 32
        ≡ (length live + overcounted midway.consumer) % 2 ^ 32)
Run-contents_example = Run-contents 1 0 midway early (omega arith) early_trace
