-- ===== src/Server/Framing/Flood/Open.antt =====
-- The states of a connection, and that more bytes do not change them.
use xrtc_server.Prelude.{
  ℕ, ◌+◌, ◌≤◌, ◌≡◌, ◌⊎◌, inl, inr, List, [], ◌∷◌, ◌++◌, arith, ◌∙◌, ap, sym, length, length-append,
  take, drop,
}
use xrtc_server.Server.{
  TcpConnection, state_head, state_body, xhead_size, magic_num, xhead_magic_num, body_len, body_of,
}
use xrtc_server.Server.Framing.Flood.{slice_front}

-- A connection that waits for its header.
pub record InHead (c : TcpConnection) : Type 0 where
  pub state_at : c.current_state ≡ state_head
  pub expects : c.bytes_expected ≡ xhead_size
  pub processed : c.bytes_processed ≡ 0
  pub none_yet : c.requests ≡ []

module _ (word : List ℕ → ℕ) where
  -- A header with the right magic number has arrived, and the length in it is expected.
  pub record InBody (c : TcpConnection) : Type 0 where
    pub state_at : c.current_state ≡ state_body
    pub whole_head : xhead_size ≤ length c.querybuf
    pub magic : magic_num word c.querybuf ≡ xhead_magic_num
    pub expects : c.bytes_expected ≡ body_len word c.querybuf

  abbrev pub BeforeRequest : TcpConnection → Type 0
  BeforeRequest c = InBody c × (c.bytes_processed ≡ xhead_size) × (c.requests ≡ [])

  abbrev pub AfterRequest : TcpConnection → Type 0
  AfterRequest c =
      InBody c
      × (c.bytes_processed ≡ 65536)
      × (xhead_size + body_len word c.querybuf ≤ length c.querybuf)
      × (c.requests ≡ body_of word c.querybuf ∷ [])

  abbrev pub IsStarted : TcpConnection → Type 0
  IsStarted c = InHead c ⊎ (BeforeRequest c ⊎ AfterRequest c)

  InBody-append :
      (c : TcpConnection) (bs : List ℕ)
      → InBody c
      → InBody (record c { querybuf = c.querybuf ++ bs })
  unfolding magic_num body_len
  InBody-append c bs b = record {
    state_at = b.state_at;
    whole_head =
        (let n = length-append c.querybuf bs in let h = b.whole_head in omega (arith, n, h));
    magic =
        (let h = b.whole_head in
          ap word (slice_front 24 4 c.querybuf bs (omega (arith, h))) ∙ b.magic);
    expects =
        (let h = b.whole_head in
          b.expects ∙ ap word (sym (slice_front 32 4 c.querybuf bs (omega (arith, h)))));
  }

  body_len-front :
      (buf bs : List ℕ) → xhead_size ≤ length buf → body_len word (buf ++ bs) ≡ body_len word buf
  unfolding body_len
  body_len-front buf bs h = ap word (slice_front 32 4 buf bs (omega arith))

  body_of-front :
      (buf bs : List ℕ)
      → xhead_size + body_len word buf ≤ length buf
      → body_of word (buf ++ bs) ≡ body_of word buf
  unfolding body_of
  body_of-front buf bs h =
      let e = body_len-front buf bs (omega arith) in
      ap (λ n. take n (drop xhead_size (buf ++ bs))) e
      ∙ slice_front xhead_size (body_len word buf) buf bs h

  -- More bytes at the end of the buffer change none of this.
  pub more_bytes :
      (c : TcpConnection) (bs : List ℕ)
      → IsStarted c
      → IsStarted (record c { querybuf = c.querybuf ++ bs })
  more_bytes c bs (inl h) = inl (record {
    state_at = h.state_at;
    expects = h.expects;
    processed = h.processed;
    none_yet = h.none_yet;
  })
  more_bytes c bs (inr (inl (b, p, r))) = inr (inl (InBody-append c bs b, p, r))
  more_bytes c bs (inr (inr (b, p, full, r))) =
      let n = length-append c.querybuf bs in
      let e = body_len-front c.querybuf bs (omega arith) in
      inr (
        inr (
          InBody-append c bs b,
          p,
          omega (arith, n, e),
          r ∙ ap (λ x. x ∷ []) (sym (body_of-front c.querybuf bs full)),
        ))
