-- ===== src/Exchange/Plain.antt =====
-- The requests that the client libraries are relied on for: GET without a body, or POST with one, of a
-- path whose bytes stand for themselves in a URL.
use poseidon_tests.Prelude.{
  ℕ, ◌≡◌, refl, Bool, true, false, ◌&&◌, ◌||◌, [], ◌∷◌, ◌++◌, Option, none, some, Bytes, codes, ◌⊎◌,
  All, arith, leb, ◌==◌,
}
use poseidon_tests.Go.Strconv.{format, format-IsDigit, IsDigit}
use poseidon_tests.Scenario.PathPool.Variants.{fetch_text, stream_text, items_at, chunks_at}

-- A lower-case letter, a digit, or one of `/`, `?`, `=`, `&` and `-`.
abbrev is_plain_char : ℕ → Bool
is_plain_char c =
    leb b'a' c && leb c b'z'
    || (leb b'0' c && leb c b'9')
    || c == b'/'
    || c == b'?'
    || c == b'='
    || c == b'&'
    || c == b'-'

unfoldable pub all_plain : Bytes → Bool
all_plain [] = true
all_plain (c ∷ s) = is_plain_char c && all_plain s

-- A path with a slash in front.
unfoldable pub is_plain_path : Bytes → Bool
is_plain_path [] = false
is_plain_path (c ∷ s) = c == b'/' && all_plain s

abbrev pub IsPlain : (method path : Bytes) → Option Bytes → Type 0
IsPlain method path body =
    ((method ≡ codes "GET") × (body ≡ none)
      ⊎ (method ≡ codes "POST") × ((b : Bytes) × (body ≡ some b)))
    × (is_plain_path path ≡ true)

all_plain-append :
    (s t : Bytes) → all_plain s ≡ true → all_plain t ≡ true → all_plain (s ++ t) ≡ true
unfolding all_plain
all_plain-append [] t h h' = h'
all_plain-append (c ∷ s) t h h' =
    let rest : all_plain s ≡ true = ground arith in
    let both = all_plain-append s t rest h' in ground arith

digits_plain : (s : Bytes) → All IsDigit s → all_plain s ≡ true
unfolding all_plain
digits_plain [] h = refl
digits_plain (c ∷ s) (h, hs) = let rest = digits_plain s hs in ground arith

format-plain : (n : ℕ) → all_plain (format n) ≡ true
format-plain n = digits_plain (format n) (format-IsDigit n)

pub fetch_text-plain : (i : ℕ) → is_plain_path (fetch_text i) ≡ true
unfolding is_plain_path all_plain
fetch_text-plain i =
    all_plain-append (codes "v1/fetch?n=") (format (items_at i) ++ (codes "&seq=" ++ format i)) refl
      (all_plain-append (format (items_at i)) (codes "&seq=" ++ format i)
        (format-plain (items_at i))
        (all_plain-append (codes "&seq=") (format i) refl (format-plain i)))

pub stream_text-plain : (i : ℕ) → is_plain_path (stream_text i) ≡ true
unfolding is_plain_path all_plain
stream_text-plain i =
    all_plain-append (codes "v1/stream?chunks=") (format (chunks_at i)) refl
      (format-plain (chunks_at i))
