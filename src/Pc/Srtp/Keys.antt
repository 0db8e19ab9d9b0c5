-- ===== src/Pc/Srtp/Keys.antt =====
-- Which part of the exported material is whose key.
use mathlib.Core.List.{append_assoc, append-nil}
use xrtc_server.Prelude.{
  ℕ, ◌+◌, ◌*◌, ◌≡◌, refl, List, [], ◌++◌, true, arith, some, length, length-append, take,
  take-append, drop-append, ap, ◌∙◌, sym,
}
use xrtc_server.Pc.Srtp.{SrtpKeys, slice, split_keys, DtlsLink, exported, extract_params}

slice_at :
    (pre x post : List ℕ) (offset n : ℕ)
    → offset ≡ length pre
    → n ≡ length x
    → slice offset n (pre ++ (x ++ post)) ≡ x
slice_at pre x post offset n e f =
    ap (take n) (drop-append pre (x ++ post) offset e) ∙ take-append x post n f

abbrev joined : List ℕ → List ℕ → List ℕ → List ℕ → SrtpKeys
joined a b c d = record { send_key = a ++ b; recv_key = c ++ d }

joined-equal :
    {a b c d w x y z : List ℕ} → a ≡ w → b ≡ x → c ≡ y → d ≡ z → joined a b c d ≡ joined w x y z
joined-equal {b = b} {c = c} {d = d} {w = w} {x = x} {y = y} e f g h =
    ap (λ t. joined t b c d) e
    ∙ ap (λ t. joined w t c d) f
    ∙ ap (λ t. joined w x t d) g
    ∙ ap (joined w x y) h

exported_at :
    (d : DtlsLink) (suite k s : ℕ) (buffer : List ℕ)
    → d.export_keying_material (2 * (k + s)) ≡ some buffer
    → exported d suite (some (k, s)) ≡ some (suite, split_keys k s buffer)
exported_at d suite k s buffer e = rw (exported, e) refl

split_keys_lem :
    (k s : ℕ) (ck sk cs ss : List ℕ)
    → k ≡ length ck
    → k ≡ length sk
    → s ≡ length cs
    → s ≡ length ss
    → split_keys k s (ck ++ (sk ++ (cs ++ ss)))
      ≡ record { send_key = sk ++ ss; recv_key = ck ++ cs }
unfolding split_keys
split_keys_lem k s ck sk cs ss e f g h =
    let l = length-append ck sk in
    let m = length-append (ck ++ sk) cs in
    let two = sym (append_assoc ck sk (cs ++ ss)) in
    let three = two ∙ sym (append_assoc (ck ++ sk) cs ss) in
    let four = three ∙ ap (λ x. ((ck ++ sk) ++ cs) ++ x) (sym (append-nil ss)) in
    let send_ = slice_at ck sk (cs ++ ss) k k e f in
    let recv_ = slice_at [] ck (sk ++ (cs ++ ss)) 0 k refl e in
    let recv_salt =
      ap (slice (2 * k) s) two ∙ slice_at (ck ++ sk) cs ss (2 * k) s (omega (arith, e, f, l)) g in
    let send_salt =
      ap (slice (2 * k + s) s) four
      ∙ slice_at ((ck ++ sk) ++ cs) ss [] (2 * k + s) s (omega (arith, e, f, g, l, m)) h in
    joined-equal send_ send_salt recv_ recv_salt

extract_at :
    (d : DtlsLink) (suite : ℕ)
    → d.dtls_active ≡ true
    → d.crypto_suite ≡ some suite
    → extract_params d ≡ exported d suite (d.key_and_salt_lengths suite)
unfolding extract_params
extract_at d suite a b = simp (a, b, extract_params)

-- For keying material of the four parts of RFC 5764, the keys and then the salts of the client and of
-- the server, of the lengths of the suite, this end, the server, sends with the server's key and salt
-- and receives with the client's.
pub extract_params_lem :
    (d : DtlsLink) (suite k s : ℕ) (ck sk cs ss : List ℕ)
    → d.dtls_active ≡ true
    → d.crypto_suite ≡ some suite
    → d.key_and_salt_lengths suite ≡ some (k, s)
    → d.export_keying_material (2 * (k + s)) ≡ some (ck ++ (sk ++ (cs ++ ss)))
    → k ≡ length ck
    → k ≡ length sk
    → s ≡ length cs
    → s ≡ length ss
    → extract_params d ≡ some (suite, record { send_key = sk ++ ss; recv_key = ck ++ cs })
unfolding extract_params
extract_params_lem d suite k s ck sk cs ss a b c x e f g h =
    extract_at d suite a b
    ∙ ap (exported d suite) c
    ∙ exported_at d suite k s (ck ++ (sk ++ (cs ++ ss))) x
    ∙ ap (λ y. some (suite, y)) (split_keys_lem k s ck sk cs ss e f g h)
