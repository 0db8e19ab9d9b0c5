-- ===== src/Server/Framing/Flood/Ends.antt =====
-- What becomes of a connection, whatever it reads.
use xrtc_server.Prelude.{ℕ, ◌+◌, ◌<◌, ◌≤◌, List, length}
use xrtc_server.Server.{Processed, waiting, refused, running}
use xrtc_server.Server.Framing.Flood.Open.{IsStarted}

module _ (word : List ℕ → ℕ) where
  -- What becomes of a connection by at most `n` bytes.
  abbrev pub Ends : ℕ → Processed → Type 0
  Ends n (waiting c) =
      IsStarted word c
      × (length c.querybuf < c.bytes_expected + c.bytes_processed)
      × (length c.querybuf ≤ n)
  Ends n refused = Unit {0}
  Ends n running = 65536 ≤ n
