-- ===== src/Stun/Read.antt =====
-- ice/stun.cpp: StunMessage::read and the queries of a parsed message. The callers drop a message whose
-- parse fails, so a failed parse has no message.
use xrtc_server.Prelude.{
  ℕ, zero, suc, ◌-◌, ◌%◌, List, [], ◌∷◌, ◌++◌, Bool, true, false, Option, some, none, bit_and,
  if◌then◌else◌, ◌==◌, length,
}
use xrtc_server.Net.{Net}
use xrtc_server.Stun.Data.{
  Attribute, byte_string, uint32_value, StunMessage, attr_type, padded, k_stun_magic_cookie,
  k_stun_transaction_id_length, stun_attr_username, stun_attr_message_integrity, stun_attr_priority,
  stun_attr_error_code,
}
use xrtc_server.Stun.Codes.{code_of, stun_error_global_fail}

-- `failed` is the answer false; `stuck` is no C++ value: the attribute loop ran out of fuel.
pub data Parse {ℓ} (A : Type ℓ) : Type ℓ where
  parsed : A → Parse A
  failed : Parse A
  stuck : Parse A

infixl 5 ◌>>=◌
abbrev pub ◌>>=◌ {ℓ κ} : {A : Type ℓ} {B : Type κ} → Parse A → (A → Parse B) → Parse B
parsed a >>= f = f a
failed >>= f = failed
stuck >>= f = stuck

infixl 5 ◌>>◌
abbrev pub ◌>>◌ {ℓ} : {B : Type ℓ} → Parse (Unit {0}) → Parse B → Parse B
m >> k = m >>= λ _. k

abbrev pub guard : Bool → Parse (Unit {0})
guard true = parsed tt
guard false = failed

abbrev pub attempt {ℓ} : {A : Type ℓ} → Option A → Parse A
attempt none = failed
attempt (some a) = parsed a

pub data ValueType : Type 0 where
  value_unknown value_uint32 value_byte_string : ValueType

-- StunMessage::get_attribute_value_type
unfoldable pub get_attribute_value_type : ℕ → ValueType
get_attribute_value_type t =
    if t == stun_attr_username
    then value_byte_string
    else if t == stun_attr_message_integrity
    then value_byte_string
    else if t == stun_attr_priority
    then value_uint32
    else value_unknown

-- StunMessage::_get_attribute
unfoldable pub get_attribute : ℕ → List Attribute → Option Attribute
get_attribute t [] = none
get_attribute t (a ∷ later) = if attr_type a == t then some a else get_attribute t later

-- StunMessage::get_error_code_value
unfoldable pub get_error_code_value : StunMessage → Option ℕ
unfolding get_attribute
get_error_code_value m = elim (get_attribute stun_attr_error_code m.attrs) [
  | none ↦ some stun_error_global_fail
  | some a ↦ code_of a
]

module _ (net : Net) where
  -- StunAttribute::consume_padding: the answer of Consume is dropped.
  unfoldable pub consume_padding : ℕ → List ℕ → List ℕ
  consume_padding n r =
      if n % 4 == 0 then r else elim (net.consume (4 - n % 4) r) [ none ↦ r | some r' ↦ r' ]

  -- One attribute behind its type and length: _create_attribute, then either the skipping of an
  -- unknown attribute, with a uint16_t length, or the `read` of the subclass. A StunUint32Attribute
  -- has length 4 whatever the packet says, so its test of the length passes.
  unfoldable pub read_value : ValueType → ℕ → ℕ → List ℕ → Parse (List Attribute × List ℕ)
  unfolding consume_padding padded
  read_value value_unknown t n r = do
    r' ← attempt (net.consume (padded n % 65536) r)
    parsed ([], r')
  read_value value_uint32 t n r = do
    (v, r') ← attempt (net.read_uint32 r)
    parsed (uint32_value t v ∷ [], r')
  read_value value_byte_string t n r = do
    (bs, r') ← attempt (net.read_bytes n r)
    parsed (byte_string t n bs ∷ [], consume_padding n r')

  -- The body of the attribute loop of StunMessage::read.
  unfoldable pub read_attribute : List ℕ → Parse (List Attribute × List ℕ)
  unfolding read_value get_attribute_value_type
  read_attribute r = do
    (t, r₁) ← attempt (net.read_uint16 r)
    (n, r₂) ← attempt (net.read_uint16 r₁)
    read_value (get_attribute_value_type t) t n r₂

  -- The loop, which goes on while bytes are left.
  unfoldable pub read_attributes : ℕ → List ℕ → List Attribute → Parse (List Attribute × List ℕ)
  read_attributes fuel [] acc = parsed (acc, [])
  read_attributes zero (b ∷ r) acc = stuck
  read_attributes (suc fuel) (b ∷ r) acc = do
    (found, r') ← read_attribute (b ∷ r)
    read_attributes fuel r' (acc ++ found)

  -- The Magic Cookie as the four bytes of a string, compared in host order.
  unfoldable pub is_magic_cookie : List ℕ → Bool
  is_magic_cookie (a ∷ b ∷ c ∷ d ∷ []) = net.get_be32 a b c d == k_stun_magic_cookie
  is_magic_cookie bs = false

  -- StunMessage::read. Each round of the loop takes four bytes at least.
  unfoldable pub read : StunMessage → List ℕ → Parse (StunMessage × List ℕ)
  unfolding is_magic_cookie
  read m buf = do
    (t, r₁) ← attempt (net.read_uint16 buf)
    guard (bit_and t 0x0800 == 0)
    (n, r₂) ← attempt (net.read_uint16 r₁)
    (cookie, r₃) ← attempt (net.read_bytes 4 r₂)
    (id, r₄) ← attempt (net.read_bytes k_stun_transaction_id_length r₃)
    guard (length r₄ == n)
    (found, rest) ← read_attributes (length r₄) r₄ []
    parsed (
      record m {
        type = t;
        length_field = n;
        transaction_id = if is_magic_cookie cookie then id else cookie ++ id;
        attrs = found;
        buffer = buf;
      },
      rest,
    )
