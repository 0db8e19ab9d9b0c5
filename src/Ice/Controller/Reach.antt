-- ===== src/Ice/Controller/Reach.antt =====
-- Any sequence of calls of the controller that change its collections.
use xrtc_server.Prelude.{ℕ, ◌≡◌, refl, Option, none, [], true, false}
use xrtc_server.Ice.Controller.{
  IceController, Store, member, add_connection, mark_connection_pinged, on_connection_destroyed,
  next_round,
}
use xrtc_server.Ice.Controller.Tracking.{
  IsTracked, add_connection-IsTracked, mark_connection_pinged-IsTracked,
  on_connection_destroyed-IsTracked,
}
use xrtc_server.Ice.Controller.Rotation.{next_round-IsTracked}

abbrev pub no_connections : IceController
no_connections = record { selected = none; connections = []; pinged = []; unpinged = [] }

-- A connection is registered once and pinged while it is registered; rounds of the search and
-- selections come in between.
pub data Reaches : IceController → Type 0 where
  start : Reaches no_connections
  added :
      {k : IceController} (x : ℕ)
      → Reaches k
      → member x k.connections ≡ false
      → Reaches (add_connection x k)
  pinged :
      {k : IceController} (x : ℕ)
      → Reaches k
      → member x k.connections ≡ true
      → Reaches (mark_connection_pinged x k)
  destroyed : {k : IceController} (x : ℕ) → Reaches k → Reaches (on_connection_destroyed x k)
  searched :
      {k : IceController} (store : Store) (now : ℕ) → Reaches k → Reaches (next_round store now k)
  selected : {k : IceController} (x : Option ℕ) → Reaches k → Reaches (record k { selected = x })

empty-IsTracked : IsTracked no_connections
unfolding member
empty-IsTracked = record {
  either = λ x. refl;
  never_both = λ x. refl;
  connections_unique = tt;
  pinged_unique = tt;
  unpinged_unique = tt;
}

-- After any sequence of registrations, pings, rounds of the search, selections and destructions, each
-- registered connection is in one of the sets of the pinged and the unpinged, nothing else is in
-- either, and nothing stands twice.
pub Reaches-IsTracked : (k : IceController) → Reaches k → IsTracked k
Reaches-IsTracked k start = empty-IsTracked
Reaches-IsTracked k (added {k = j} x r new) =
    add_connection-IsTracked x j new (Reaches-IsTracked j r)
Reaches-IsTracked k (pinged {k = j} x r there) =
    mark_connection_pinged-IsTracked x j there (Reaches-IsTracked j r)
Reaches-IsTracked k (destroyed {k = j} x r) =
    (on_connection_destroyed-IsTracked x j (Reaches-IsTracked j r)).0
Reaches-IsTracked k (searched {k = j} store now r) =
    next_round-IsTracked store now j (Reaches-IsTracked j r)
Reaches-IsTracked k (selected {k = j} x r) =
    let t = Reaches-IsTracked j r in
    record {
      either = t.either;
      never_both = t.never_both;
      connections_unique = t.connections_unique;
      pinged_unique = t.pinged_unique;
      unpinged_unique = t.unpinged_unique;
    }
