-- ===== src/Pc/Ssl.antt =====
-- What pc/dtls_transport.cpp takes from rtc::SSLStreamAdapter, which is not in the repository. A call
-- gives the adapter behind it. What the adapter signals while a packet is handed to it is a list.
use xrtc_server.Prelude.{ℕ, List, Bool, Option, ◌<◌, ◌≡◌}

pub data StreamResult : Type 0 where
  sr_error sr_success sr_block sr_eos : StreamResult

-- The arguments of SignalEvent: the bits SE_OPEN, SE_READ and SE_CLOSE of `sig`, and `error`.
pub record DtlsEvent : Type 0 where
  pub se_open : Bool
  pub se_read : Bool
  pub se_close : Bool
  pub error : ℕ

pub record Ssl (A : Type 0) : Type 0 where
  -- Create; `none` is the null pointer.
  pub create : Option A
  -- SetIdentity, by the certificate, with SetMode, SetMaxProtocolVersion and SetServerRole for a server
  -- of DTLS 1.2.
  pub configure : ℕ → A → A
  -- SetPeerCertificateDigest, by algorithm and digest. `some` is the answer false, with whether the
  -- error is VERIFICATION_FAILED.
  pub set_peer_certificate_digest : List ℕ → List ℕ → A → A × Option Bool
  pub set_dtls_srtp_crypto_suites : List ℕ → A → A × Bool
  pub start_ssl : A → A × ℕ
  -- A packet is put in the stream below, which signals SE_READ to the adapter.
  pub on_received_packet : List ℕ → A → A × List DtlsEvent
  pub read : A → A × StreamResult
  -- The adapter holds finitely many messages: how many reads can still succeed.
  pub pending : A → ℕ
  pub pending-read : (a : A) → (read a).1 ≡ sr_success → pending (read a).0 < pending a
