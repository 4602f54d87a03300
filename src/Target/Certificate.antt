-- ===== src/Target/Certificate.antt =====
-- internal/tlsutil/tlsutil.go: the certificate that the target generates when it starts, over what
-- crypto/ecdsa, crypto/rand and crypto/x509 give.
use poseidon_tests.Prelude.{
  ℕ, ◌+◌, ◌-◌, ◌*◌, Bool, true, List, [], ◌∷◌, Bytes, codes, ◌⊎◌, inl, inr,
}

-- The fields of `x509.Certificate` that the program sets. Times are in nanoseconds; the address is the
-- list of its bytes.
pub record Template : Type 0 where
  pub serial : ℕ
  pub common_name : Bytes
  pub not_before : ℕ
  pub not_after : ℕ
  pub digital_signature : Bool
  pub cert_sign : Bool
  pub server_auth : Bool
  pub basic_constraints_valid : Bool
  pub is_ca : Bool
  pub dns_names : List Bytes
  pub ip_addresses : List (List ℕ)

-- An error is on the left. `create` takes the template, the parent and the key that signs.
pub record Crypto : Type 1 where
  pub Key : Type 0
  pub Error : Type 0
  pub generate_key : Error ⊎ Key
  pub random_serial : Error ⊎ ℕ
  pub create : Template → Template → Key → Error ⊎ Bytes

abbrev pub hour : ℕ
hour = 3600000000000

unfoldable pub template : ℕ → ℕ → Template
template serial now = record {
  serial = serial;
  common_name = codes "poseidon-tests-target";
  not_before = now - hour;
  not_after = now + 24 * hour * 365;
  digital_signature = true;
  cert_sign = true;
  server_auth = true;
  basic_constraints_valid = true;
  is_ca = true;
  dns_names =
      codes "localhost"
      ∷ codes "target"
      ∷ codes "*.svc"
      ∷ codes "*.svc.cluster.local"
      ∷ codes "*"
      ∷ [];
  ip_addresses =
      (127 ∷ 0 ∷ 0 ∷ 1 ∷ [])
      ∷ (0 ∷ 0 ∷ 0 ∷ 0 ∷ 0 ∷ 0 ∷ 0 ∷ 0 ∷ 0 ∷ 0 ∷ 0 ∷ 0 ∷ 0 ∷ 0 ∷ 0 ∷ 1 ∷ [])
      ∷ [];
}

-- `tls.Certificate`: the chain, and the key.
pub record Certificate (c : Crypto) : Type 0 where
  pub chain : List Bytes
  pub private_key : c.Key

infixl 5 ◌>>=◌
abbrev pub ◌>>=◌ : {E A B : Type 0} → E ⊎ A → (A → E ⊎ B) → E ⊎ B
inl e >>= f = inl e
inr a >>= f = f a

unfoldable pub self_signed : (c : Crypto) → ℕ → c.Error ⊎ Certificate c
unfolding template
self_signed c now = do
  key ← c.generate_key
  serial ← c.random_serial
  let tmpl = template serial now
  der ← c.create tmpl tmpl key
  inr (record { chain = der ∷ []; private_key = key })
