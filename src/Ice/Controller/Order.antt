-- ===== src/Ice/Controller/Order.antt =====
-- The order in which the controller sorts a channel's connections.
use xrtc_server.Prelude.{◌<◌, ◌≡◌, ◌⊎◌, ◌↔◌, Bool, true, false, arith}
use xrtc_server.Ice.Connection.{IceConnection, write_value, priority}
use xrtc_server.Ice.Controller.{comes_before}

-- What std::stable_sort requires of its comparison: a strict order in which being unordered is an
-- equivalence.
pub record StrictWeakOrder {A : Type 0} (less : A → A → Bool) : Type 0 where
  pub irreflexive : (a : A) → less a a ≡ false
  pub transitive : (a b c : A) → less a b ≡ true → less b c ≡ true → less a c ≡ true
  pub unordered : (a b c : A) → less a b ≡ false → less b c ≡ false → less a c ≡ false

-- The independent description: writable states first, then receiving, then priority, then rtt.
abbrev pub Better : IceConnection → IceConnection → Type 0
Better a b =
    (write_value a.write_state < write_value b.write_state)
    ⊎ ((write_value a.write_state ≡ write_value b.write_state)
        × (((a.receiving ≡ true) × (b.receiving ≡ false))
            ⊎ ((a.receiving ≡ b.receiving)
                × ((priority b < priority a) ⊎ ((priority a ≡ priority b) × (a.rtt < b.rtt))))))

-- The comparison is the lexicographic order by the write state, the receiving flag, the priority from
-- the greatest down and the round trip time: the test on `writable` is part of the one on the write
-- state.
pub comes_before_iff : (a b : IceConnection) → (comes_before a b ≡ true) ↔ Better a b
unfolding comes_before
comes_before_iff a b = ground arith

-- The function that the connections are sorted by is a strict weak order, as std::stable_sort requires.
pub comes_before-StrictWeakOrder : StrictWeakOrder comes_before
unfolding comes_before
comes_before-StrictWeakOrder = record {
  irreflexive = λ a. ground arith;
  transitive = λ a b c p q. ground arith;
  unordered = λ a b c p q. ground arith;
}
