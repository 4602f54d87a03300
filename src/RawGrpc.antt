-- ===== src/RawGrpc.antt =====
-- internal/rawgrpc/rawgrpc.go: the pass-through codec and the method handler of the Echo service.
use poseidon_tests.Prelude.{[], ◌++◌, Bytes, codes, ◌⊎◌, inl, inr, ◌≡◌, refl}

-- A value of type `any`: a `*[]byte`, with what it points at, or a value of another type, by its name.
pub data Any : Type 0 where
  bytes_pointer : Bytes → Any
  other_type : Bytes → Any

unfoldable pub codec_name : Bytes
codec_name = codes "rawbytes"

unfoldable pub full_method_echo : Bytes
full_method_echo = codes "/bench.Bench/Echo"

unfoldable pub marshal : Any → Bytes ⊎ Bytes
marshal (bytes_pointer b) = inr b
marshal (other_type t) = inl (codes "rawgrpc: Marshal wants *[]byte, got " ++ t)

-- The value that the pointer has behind the call. `append((*b)[:0], data...)` keeps nothing of what
-- was there.
unfoldable pub unmarshal : Bytes → Any → Bytes ⊎ Any
unmarshal msg (bytes_pointer b) = inr (bytes_pointer msg)
unmarshal msg (other_type t) = inl (codes "rawgrpc: Unmarshal wants *[]byte, got " ++ t)

-- What `dec` left in `req`.
unfoldable pub request_of : Any → Bytes
request_of (bytes_pointer b) = b
request_of (other_type t) = []

unfoldable pub respond : Bytes ⊎ Bytes → Bytes ⊎ Any
respond (inl e) = inl e
respond (inr resp) = inr (bytes_pointer resp)

-- The method handler that `ServiceDesc` builds over an EchoHandler: `dec` decodes into `&req`.
unfoldable pub handle_with : (Bytes → Bytes ⊎ Bytes) → Bytes ⊎ Any → Bytes ⊎ Any
handle_with h (inl e) = inl e
handle_with h (inr req) = respond (h (request_of req))

unfoldable pub encode : Bytes ⊎ Any → Bytes ⊎ Bytes
encode (inl e) = inl e
encode (inr v) = marshal v

-- A unary call on the server: the codec decodes the message, and encodes the response.
unfoldable pub serve_unary : (Bytes → Bytes ⊎ Bytes) → Bytes → Bytes ⊎ Bytes
serve_unary h msg = encode (handle_with h (unmarshal msg (bytes_pointer [])))

through : (x : Bytes ⊎ Bytes) → encode (respond x) ≡ x
unfolding encode respond marshal
through (inl e) = refl
through (inr b) = refl

-- A call is the handler itself: the codec adds and loses nothing.
pub serve_unary_lem : (h : Bytes → Bytes ⊎ Bytes) (msg : Bytes) → serve_unary h msg ≡ h msg
unfolding serve_unary handle_with unmarshal marshal request_of respond encode
serve_unary_lem h msg = through (h msg)
