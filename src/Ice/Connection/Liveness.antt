-- ===== src/Ice/Connection/Liveness.antt =====
-- When a candidate pair is taken for alive, degraded or dead.
use xrtc_server.Prelude.{
  ℕ, suc, ◌+◌, ◌*◌, ◌^◌, ◌≤◌, ◌<◌, ◌≡◌, ◌≢◌, ◌⊎◌, inl, inr, List, [], ◌∷◌, ◌++◌, true, false, arith,
  length, max, min, Bool-cases, if◌then◌else◌, ltb,
}
use xrtc_server.Ice.Connection.{
  IceConnection, writable_state, write_unreliable, write_timeout, SentPing, succeeded, failed_pair,
  Signal, connection_destroy, Update, alive, freed, weak, update_state, degrade, must_degrade,
  too_long_without_response, too_many_ping_failed, rtt_window, write_connect_fails, set_write_state,
  update_receiving, received_ping_response, priority,
}

-- A response makes the pair writable and receiving, clears the outstanding pings and counts a sample.
pub received_ping_response-not_weak :
    (average : ℕ → ℕ → ℕ → ℕ) (now measured : ℕ) (c : IceConnection)
    → 0 < now
    → let after = (received_ping_response average now measured c).0 in
      (weak after ≡ false)
      × (after.pings ≡ [])
      × (after.state ≡ succeeded)
      × (after.rtt_samples ≡ suc c.rtt_samples)
unfolding received_ping_response weak
received_ping_response-not_weak average now measured c h = ground arith

-- What a degraded pair has behind it: five outstanding pings at least, the first of them more than five
-- seconds ago.
abbrev pub Unanswered : ℕ → List SentPing → Type 0
Unanswered now [] = ⊥
Unanswered now (p ∷ later) = (5 ≤ length (p ∷ later)) × (p.sent_time + 5000 < now)

too_long-Unanswered :
    (now : ℕ) (ps : List SentPing)
    → 5 ≤ length ps
    → too_long_without_response 5000 now ps ≡ true
    → Unanswered now ps
unfolding too_long_without_response
too_long-Unanswered now [] n h = cc
too_long-Unanswered now (p ∷ later) n h = ground arith

must_degrade-Unanswered :
    (now : ℕ) (c : IceConnection)
    → must_degrade now c ≡ true
    → (c.write_state ≡ writable_state) × Unanswered now c.pings
unfolding must_degrade
must_degrade-Unanswered now c h =
    (ground arith, too_long-Unanswered now c.pings (ground arith) (ground arith))

-- The periodic update, if the pair survives it, keeps the outstanding pings, and leaves the write state
-- as it was, or takes it from WRITABLE to WRITE_UNRELIABLE with at least five outstanding pings, the
-- first more than five seconds old.
pub update_state_alive :
    (now : ℕ) (c c' : IceConnection) (s : List Signal)
    → update_state now c ≡ alive c' s
    → (c'.pings ≡ c.pings)
      × ((c'.write_state ≡ c.write_state)
          ⊎ ((c.write_state ≡ writable_state)
              × (c'.write_state ≡ write_unreliable)
              × Unanswered now c.pings))
unfolding update_state degrade set_write_state update_receiving
update_state_alive now c c' s e = elim (Bool-cases (must_degrade now c)) [
  | inl h ↦ ground (arith, must_degrade-Unanswered now c h)
  | inr h ↦ ground arith
]

-- A pair that is about to die: it has not timed out yet, its oldest outstanding ping is more than
-- fifteen seconds old, and if it is writable, five pings have failed.
abbrev pub Dying : ℕ → IceConnection → Type 0
Dying now c =
    (p : SentPing) × (later : List SentPing) × (c.pings ≡ p ∷ later)
    × (p.sent_time + 15000 < now)
    × (c.write_state ≢ write_timeout)
    × ((c.write_state ≢ writable_state)
        ⊎ (too_many_ping_failed write_connect_fails (rtt_window c.rtt) now c ≡ true))

-- The object is freed in the state FAILED, and the last signal asks for its destruction.
abbrev pub IsDestroyed : Update → Type 0
IsDestroyed (alive c s) = ⊥
IsDestroyed (freed c s) =
    (c.state ≡ failed_pair)
    × (c.write_state ≡ write_timeout)
    × (early : List Signal) × (s ≡ early ++ (connection_destroy ∷ []))

-- For 32-bit candidate priorities below 2 ^ 31 the pair's priority is the formula of RFC 5245, section
-- 5.7.2, and nothing wraps around.
pub priority_lem :
    (c : IceConnection)
    → c.local_priority < 2 ^ 31
    → c.remote_priority < 2 ^ 31
    → priority c
      ≡ 2 ^ 32 * min c.local_priority c.remote_priority
        + 2 * max c.local_priority c.remote_priority
        + (if ltb c.remote_priority c.local_priority then 1 else 0)
unfolding priority
priority_lem c g d = ground arith
