-- ===== src/Ice/Controller/Rotation/Pacing.antt =====
-- How often the channel and its connections are pinged: select_connection_to_ping.
use xrtc_server.Prelude.{
  ℕ, ◌+◌, ◌≤◌, ◌<◌, ltb, ◌≡◌, ◌⊎◌, inl, inr, refl, true, false, arith, Bool-cases, Option, some,
  none, subst, sym, ◌∙◌,
}
use xrtc_server.Ice.Connection.{IceConnection, stable}
use xrtc_server.Ice.Controller.{
  IceController, Store, member, any, next_round, find_next_pingable, selected_first, is_pingable,
  past_ping_interval, weak_channel, select_connection_to_ping, ping_interval, min_pings_at_weak,
}
use xrtc_server.Ice.Controller.Search.{most_pingable_source}
use xrtc_server.Ice.Controller.Rotation.{any_found, searched}

selected_paced :
    (store : Store) (now : ℕ) (selected : Option ℕ) (c : ℕ)
    → selected_first store now selected ≡ true
    → selected ≡ some c
    → past_ping_interval now (store c) ≡ true
unfolding selected_first
selected_paced store now none c s e = cc
selected_paced store now (some x) c s e =
    let p : x ≡ c = cc in subst (λ z. past_ping_interval now (store z) ≡ true) p (ground arith)

pingable_paced :
    (store : Store) (now : ℕ) (selected : Option ℕ) (c : ℕ)
    → weak_channel store selected ≡ false
    → is_pingable store selected now c ≡ true
    → past_ping_interval now (store c) ≡ true
unfolding is_pingable
pingable_paced store now selected c w h = ground arith

kept :
    (store : Store) (now : ℕ) (k : IceController)
    → selected_first store now k.selected ≡ true
    → (find_next_pingable store now k).1 ≡ k.selected
unfolding find_next_pingable
kept store now k s = rw (s, find_next_pingable) refl

found_paced :
    (store : Store) (now : ℕ) (k : IceController) (c : ℕ)
    → weak_channel store k.selected ≡ false
    → (find_next_pingable store now k).1 ≡ some c
    → past_ping_interval now (store c) ≡ true
unfolding find_next_pingable
found_paced store now k c w e = elim (Bool-cases (selected_first store now k.selected)) [
  | inl s ↦ selected_paced store now k.selected c s (sym (kept store now k s) ∙ e)
  | inr s ↦
      elim (most_pingable_source store (is_pingable store k.selected now) none
        (next_round store now k).unpinged c (sym (searched store now k s) ∙ e)) [
          | inl f ↦ cc
          | inr (_, g) ↦ pingable_paced store now k.selected c w g
        ]
]

-- How long ago a connection was pinged: 48 ms at least for its first three pings, then 900 ms, or 2500
-- ms if it is stable.
abbrev pub Rested : ℕ → IceConnection → Type 0
Rested now c =
    ((c.num_pings_sent < 3) × (c.last_ping_sent + 48 ≤ now))
    ⊎ ((3 ≤ c.num_pings_sent) × (stable now c ≡ false) × (c.last_ping_sent + 900 ≤ now))
    ⊎ ((3 ≤ c.num_pings_sent) × (stable now c ≡ true) × (c.last_ping_sent + 2500 ≤ now))

past_ping_interval-Rested :
    (now : ℕ) (c : IceConnection) → past_ping_interval now c ≡ true → Rested now c
unfolding past_ping_interval ping_interval
past_ping_interval-Rested now c h = ground arith

-- A channel pings every 480 ms, or every 48 ms while a connection has had fewer than three pings.
abbrev pub ChannelRested : Store → ℕ → ℕ → IceController → Type 0
ChannelRested store now last k =
    (last + 480 ≤ now)
    ⊎ ((last + 48 ≤ now)
        × (x : ℕ) × (member x k.connections ≡ true)
        × ((store x).num_pings_sent < 3))

channel_rested :
    (store : Store) (now last : ℕ) (k : IceController) (c : ℕ)
    → weak_channel store k.selected ≡ false
    → (select_connection_to_ping store now last k).1 ≡ some c
    → ((find_next_pingable store now k).1 ≡ some c) × ChannelRested store now last k
unfolding select_connection_to_ping
channel_rested store now last k c w e =
    elim (Bool-cases (any (λ x. ltb (store x).num_pings_sent min_pings_at_weak) k.connections)) [
      | inl a ↦
          let (x, m, few) =
            any_found (λ x. ltb (store x).num_pings_sent min_pings_at_weak) k.connections a in
          (ground arith, inr (ground arith, x, m, ground arith))
      | inr a ↦ (ground arith, inl (ground arith))
    ]

-- While the selected connection is writable and receiving: a connection that is given for a ping has
-- had its last one 48 ms ago at least if it has had fewer than three, else 900 ms ago, or 2500 ms if it
-- is stable; and the channel's last ping is 480 ms ago at least, or 48 ms if some registered connection
-- has had fewer than three.
pub select_connection_to_ping-paced :
    (store : Store) (now last : ℕ) (k : IceController) (c : ℕ)
    → weak_channel store k.selected ≡ false
    → (select_connection_to_ping store now last k).1 ≡ some c
    → Rested now (store c) × ChannelRested store now last k
select_connection_to_ping-paced store now last k c w e =
    let (found, rested) = channel_rested store now last k c w e in
    (past_ping_interval-Rested now (store c) (found_paced store now k c w found), rested)
