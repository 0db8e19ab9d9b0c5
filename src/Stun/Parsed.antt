-- ===== src/Stun/Parsed.antt =====
-- StunMessage::read on any bytes.
use xrtc_server.Prelude.{
  ℕ, zero, suc, ◌+◌, ◌-◌, ◌%◌, ◌≤◌, ◌≡◌, ◌≢◌, refl, ◌⊎◌, inl, inr, List, [], ◌∷◌, ◌++◌, some, none,
  arith, ◌==◌, if◌then◌else◌, length, drop, All, bit_and, Bool-cases, length-drop-le, dec_lt,
}
use xrtc_server.Net.{Net}
use xrtc_server.Net.Laws.{
  read_uint16_cases, read_uint32_cases, read_bytes_cases, read_bytes-take, consume-drop,
}
use xrtc_server.Stun.Data.{
  Attribute, byte_string, uint32_value, uint64_value, xor_address, error_code, StunMessage,
  attr_type, padded, stun_attr_error_code,
}
use xrtc_server.Stun.Read.{
  Parse, parsed, failed, stuck, ◌>>=◌, ValueType, value_unknown, value_uint32, value_byte_string,
  get_attribute_value_type, consume_padding, read_value, read_attribute, read_attributes,
  is_magic_cookie, read, get_attribute, get_error_code_value,
}

-- What the reader makes: an attribute of the class that its type stands for.
abbrev pub IsRead : Attribute → Type 0
IsRead (byte_string t n bs) = get_attribute_value_type t ≡ value_byte_string
IsRead (uint32_value t v) = get_attribute_value_type t ≡ value_uint32
IsRead (uint64_value t v) = ⊥
IsRead (xor_address t a) = ⊥
IsRead (error_code t n c k r) = ⊥

-- A parse of a part of `n` bytes: it does not run out of fuel, and what it takes leaves no more.
abbrev pub Reads : ℕ → Parse (List Attribute × List ℕ) → Type 0
Reads n (parsed (found, r)) = All IsRead found × (length r ≤ n)
Reads n failed = Unit {0}
Reads n stuck = ⊥

module _ (net : Net) where
  consume-Reads :
      (n : ℕ) (r : List ℕ)
      → (net.consume n r ≡ none)
        ⊎ ((r' : List ℕ) × (net.consume n r ≡ some r') × (length r' ≤ length r))
  consume-Reads n r = elim (dec_lt (length r) n) [
    | yes h ↦ inl (net.consume_short n r h)
    | no h ↦ inr (drop n r, consume-drop net n r (omega arith), length-drop-le n r)
  ]

  length-consume_padding : (n : ℕ) (r : List ℕ) → length (consume_padding net n r) ≤ length r
  unfolding consume_padding
  length-consume_padding n r = ground (arith, consume-Reads (4 - n % 4) r)

  read_value-Reads :
      (v : ValueType) (t n : ℕ) (r : List ℕ)
      → get_attribute_value_type t ≡ v
      → Reads (length r) (read_value net v t n r)
  unfolding read_value
  read_value-Reads value_unknown t n r e = elim (consume-Reads (padded n % 65536) r) [
    | inl x ↦ rw x tt
    | inr (r', x, h) ↦ rw x (tt, h)
  ]
  read_value-Reads value_uint32 t n r e = elim (read_uint32_cases net r) [
    | inl x ↦ rw x tt
    | inr (v, r', x, h) ↦ rw x ((e, tt), omega arith)
  ]
  read_value-Reads value_byte_string t n r e = elim (dec_lt (length r) n) [
    | yes h ↦ rw (net.read_bytes_short n r h) tt
    | no h ↦
        rw (read_bytes-take net n r (omega arith))
          ((e, tt), omega (arith, length-consume_padding n (drop n r), length-drop-le n r))
  ]

  Reads-mono : (m n : ℕ) (p : Parse (List Attribute × List ℕ)) → m ≤ n → Reads m p → Reads n p
  Reads-mono m n (parsed (found, r)) h p = (p.0, omega arith)
  Reads-mono m n failed h p = tt
  Reads-mono m n stuck h p = elim p [ ]

  -- A round that succeeds takes four bytes at least.
  read_attribute-Reads : (r : List ℕ) → Reads (length r - 4) (read_attribute net r)
  unfolding read_attribute
  read_attribute-Reads r = elim (read_uint16_cases net r) [
    | inl x ↦ rw x tt
    | inr (t, r₁, x, h) ↦ elim (read_uint16_cases net r₁) [
      | inl y ↦ rw (x, y) tt
      | inr (n, r₂, y, k) ↦
          rw (x, y)
            (Reads-mono (length r₂) (length r - 4) _ (omega arith)
              (read_value-Reads (get_attribute_value_type t) t n r₂ refl))
    ]
  ]

  All-append-IsRead :
      (xs ys : List Attribute) → All IsRead xs → All IsRead ys → All IsRead (xs ++ ys)
  All-append-IsRead [] ys p q = q
  All-append-IsRead (x ∷ xs) ys p q = (p.0, All-append-IsRead xs ys p.1 q)

  -- The loop ends with every byte taken.
  abbrev LoopReads : Parse (List Attribute × List ℕ) → Type 0
  LoopReads (parsed (found, r)) = All IsRead found × (r ≡ [])
  LoopReads failed = Unit {0}
  LoopReads stuck = ⊥

  read_attributes-LoopReads :
      (fuel : ℕ) (r : List ℕ) (acc : List Attribute)
      → length r ≤ fuel
      → All IsRead acc
      → LoopReads (read_attributes net fuel r acc)
  unfolding read_attributes
  read_attributes-LoopReads zero [] acc h p = (p, refl)
  read_attributes-LoopReads (suc fuel) [] acc h p = (p, refl)
  read_attributes-LoopReads zero (b ∷ r) acc h p = absurd (omega arith)
  read_attributes-LoopReads (suc fuel) (b ∷ r) acc h p =
      after (read_attribute net (b ∷ r)) (read_attribute-Reads (b ∷ r)) λ found r' small q.
        read_attributes-LoopReads fuel r' (acc ++ found) (omega arith)
          (All-append-IsRead acc found p q)
    where
      after :
          (x : Parse (List Attribute × List ℕ))
          → Reads (length (b ∷ r) - 4) x
          → ((found : List Attribute) (r' : List ℕ)
              → length r' ≤ length (b ∷ r) - 4
              → All IsRead found
              → LoopReads (read_attributes net fuel r' (acc ++ found)))
          → LoopReads (x >>= λ (found, r'). read_attributes net fuel r' (acc ++ found))
      after (parsed (found, r')) s k = k found r' s.1 s.0
      after failed s k = tt
      after stuck s k = elim s [ ]

  -- What a successful read has established.
  abbrev Established : List ℕ → Parse (StunMessage × List ℕ) → Type 0
  Established buf (parsed (m, r)) =
      All IsRead m.attrs
      × (r ≡ [])
      × (length buf ≡ 20 + m.length_field)
      × (m.buffer ≡ buf)
      × (bit_and m.type 0x0800 ≡ 0)
  Established buf failed = Unit {0}
  Established buf stuck = ⊥

  read-Established : (m : StunMessage) (buf : List ℕ) → Established buf (read net m buf)
  unfolding read
  read-Established m buf = elim (read_uint16_cases net buf) [
    | inl x ↦ rw x tt
    | inr (t, r₁, x, h₁) ↦ elim (Bool-cases (bit_and t 0x0800 == 0)) [
      | inr no_stun ↦ rw (x, no_stun) tt
      | inl stun ↦ elim (read_uint16_cases net r₁) [
        | inl y ↦ rw (x, stun, y) tt
        | inr (n, r₂, y, h₂) ↦ elim (read_bytes_cases net 4 r₂) [
          | inl z ↦ rw (x, stun, y, z) tt
          | inr (cookie, r₃, z, _, h₃) ↦ elim (read_bytes_cases net 12 r₃) [
            | inl w ↦ rw (x, stun, y, z, w) tt
            | inr (id, r₄, w, _, h₄) ↦ elim (Bool-cases (length r₄ == n)) [
              | inr odd ↦ rw (x, stun, y, z, w, odd) tt
              | inl whole ↦
                  rw (x, stun, y, z, w, whole)
                    (finish t n cookie id (read_attributes net (length r₄) r₄ [])
                      (read_attributes-LoopReads (length r₄) r₄ [] (omega arith) tt) (ground arith)
                      (ground arith))
            ]
          ]
        ]
      ]
    ]
  ]
    where
      finish :
          (t n : ℕ) (cookie id : List ℕ) (x : Parse (List Attribute × List ℕ))
          → LoopReads x
          → length buf ≡ 20 + n
          → bit_and t 0x0800 ≡ 0
          → Established buf (
              x >>= λ (found, rest). parsed (
                record m {
                  type = t;
                  length_field = n;
                  transaction_id = if is_magic_cookie net cookie then id else cookie ++ id;
                  attrs = found;
                  buffer = buf;
                },
                rest,
              ))
      finish t n cookie id (parsed (found, rest)) q h k = (q.0, q.1, h, refl, k)
      finish t n cookie id failed q h k = tt
      finish t n cookie id stuck q h k = elim q [ ]

  -- Parsing ends on every input: the attribute loop has fuel enough.
  pub read-ne-stuck : (m : StunMessage) (buf : List ℕ) → read net m buf ≢ stuck
  read-ne-stuck m buf e = let x = rw e at (read-Established m buf) in x

  -- A parse that succeeds has taken the whole packet, the packet is as long as its header says, bit
  -- 0x0800 of the type is clear, the bytes are kept, and each attribute is of the class that its type
  -- stands for.
  pub read_parsed :
      (m m' : StunMessage) (buf r : List ℕ)
      → read net m buf ≡ parsed (m', r)
      → (r ≡ [])
        × (length buf ≡ 20 + m'.length_field)
        × (m'.buffer ≡ buf)
        × (bit_and m'.type 0x0800 ≡ 0)
        × All IsRead m'.attrs
  read_parsed m m' buf r e =
      let (typed, done, size, kept, bit) = facts in (done, size, kept, bit, typed)
    where
      facts : Established buf (parsed (m', r))
      facts = rw e at (read-Established m buf)

  -- The static_casts of get_byte_string and get_uint32_t are right on a parsed message: a query for a
  -- type finds nothing, or an attribute that was read as that type's class.
  get_attribute-IsRead :
      (t : ℕ) (xs : List Attribute)
      → All IsRead xs
      → (get_attribute t xs ≡ none)
        ⊎ ((a : Attribute) × (get_attribute t xs ≡ some a) × IsRead a × (attr_type a ≡ t))
  unfolding get_attribute
  get_attribute-IsRead t [] p = inl refl
  get_attribute-IsRead t (a ∷ later) (p, ps) = elim (Bool-cases (attr_type a == t)) [
    | inl hit ↦ inr (a, rw hit, p, ground arith)
    | inr miss ↦ rw miss (get_attribute-IsRead t later ps)
  ]

  -- ERROR-CODE is of no class that the reader knows.
  no_error_code : (a : Attribute) → IsRead a → attr_type a ≢ stun_attr_error_code
  unfolding attr_type get_attribute_value_type
  no_error_code (byte_string t n bs) p e = ground arith
  no_error_code (uint32_value t v) p e = ground arith
  no_error_code (uint64_value t v) p e = p
  no_error_code (xor_address t a) p e = p
  no_error_code (error_code t n c k r) p e = p

  -- Whatever code an error response carries, the receiver takes it for 600 (GLOBAL_FAIL).
  pub get_error_code_value-read :
      (m m' : StunMessage) (buf r : List ℕ)
      → read net m buf ≡ parsed (m', r)
      → get_error_code_value m' ≡ some 600
  unfolding get_error_code_value
  get_error_code_value-read m m' buf r e =
      elim (get_attribute-IsRead stun_attr_error_code m'.attrs (read_parsed m m' buf r e).4) [
        | inl x ↦ rw (x, get_error_code_value)
        | inr (a, x, p, h) ↦ absurd (no_error_code a p h)
      ]
