-- ===== src/Tests/Dtls.antt =====
-- A transport through a handshake, with an adapter that opens at the first packet.
use xrtc_server.Prelude.{
  ℕ, zero, suc, ◌<◌, ◌≡◌, ◌↔◌, refl, List, [], ◌∷◌, ◌++◌, true, false, Option, some, none, All,
  arith, length, replicate,
}
use xrtc_server.Pc.Ssl.{Ssl, StreamResult, sr_success, sr_block}
use xrtc_server.Pc.Dtls.{DtlsTransport, new_dtls_transport, whole_records}
use xrtc_server.Pc.Dtls.Records.{IsRecord, concat, whole_records_iff}
use xrtc_server.Pc.Dtls.Follows.{has, started, media, IsWhole}
use xrtc_server.Pc.Dtls.Ready.{call, passes, channel_writable, packet, certificate, fingerprint}
use xrtc_server.Pc.Dtls.Reach.{Reaches, start, next, Reaches-call}

-- An adapter is the number of messages that it holds.
abbrev read_one : ℕ → ℕ × StreamResult
read_one zero = (0, sr_block)
read_one (suc n) = (n, sr_success)

read_one_less : (a : ℕ) → (read_one a).1 ≡ sr_success → (read_one a).0 < a
read_one_less zero e = cc
read_one_less (suc n) e = omega arith

abbrev ssl : Ssl ℕ
ssl = record {
  create = some 0;
  configure = λ c a. a;
  set_peer_certificate_digest = λ alg digest a. (a, none);
  set_dtls_srtp_crypto_suites = λ suites a. (a, true);
  start_ssl = λ a. (a, 0);
  on_received_packet =
      λ d a. (suc a, record { se_open = true; se_read = true; se_close = false; error = 0 } ∷ []);
  read = read_one;
  pending = λ a. a;
  pending-read = read_one_less;
}

abbrev hello : List ℕ
hello = 22 ∷ replicate 10 0 ++ (0 ∷ 5 ∷ 1 ∷ 0 ∷ 0 ∷ 0 ∷ 0 ∷ [])

abbrev rtp : List ℕ
rtp = 128 ∷ replicate 11 0

whole_records_iff_example :
    (whole_records (length hello) hello ≡ true)
    ↔ ((rs : List (List ℕ)) × All IsRecord rs × (concat rs ≡ hello))
whole_records_iff_example = whole_records_iff hello

abbrev after : Option (DtlsTransport ℕ) → DtlsTransport ℕ
after none = new_dtls_transport []
after (some t) = t

abbrev new_one : DtlsTransport ℕ
new_one = new_dtls_transport (1 ∷ [])

-- The ClientHello comes before the certificate, the answer and the channel.
abbrev open_one : DtlsTransport ℕ
open_one = after (
    call ssl (channel_writable true) (
      after (
        call ssl (fingerprint false (1 ∷ []) (2 ∷ []))
          (after (call ssl (certificate 7) (after (call ssl (packet false hello 5) new_one)))))))

open_one-Reaches : Reaches ssl open_one
unfolding call
open_one-Reaches =
    next (channel_writable true)
      (next (fingerprint false (1 ∷ []) (2 ∷ []))
        (next (certificate 7) (next (packet false hello 5) (start (1 ∷ [])) tt refl) tt refl) tt
        refl)
      tt refl

Reaches-call_example :
    (u : DtlsTransport ℕ) × (call ssl (packet true rtp 9) open_one ≡ some u)
    × (started u.dtls_state ≡ true → has u.dtls ≡ true)
    × All IsWhole u.signals
    × (media u.signals ≡ media open_one.signals ++ passes (packet true rtp 9) open_one)
Reaches-call_example = Reaches-call ssl open_one (packet true rtp 9) open_one-Reaches tt

opened : media (after (call ssl (packet true rtp 9) open_one)).signals ≡ (rtp, 9) ∷ []
unfolding call
opened = refl
