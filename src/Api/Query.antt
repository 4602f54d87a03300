-- ===== src/Api/Query.antt =====
-- `intParam` of internal/api/api.go, and the part of net/url that it reads: the first value of a key
-- in a query without escapes (`%`, `+` and `;`), as the program writes them.
use poseidon_tests.Prelude.{
  text_eq_iff, false, All-append, ℕ, ◌<◌, ◌≡◌, ◌≢◌, refl, ap, ◌∙◌, List, [], ◌∷◌, ◌++◌, Option,
  none, some, Bytes, arith, All, half, text_eq, is_neg, if◌then◌else◌, ◌==◌, append-nil,
  append_assoc,
}
use poseidon_tests.Go.Strconv.{atoi, format, atoi-format, format-ne-nil, format-IsDigit, IsDigit}

-- The pieces between the separators, behind the unfinished piece `cur`.
unfoldable pub pieces : ℕ → Bytes → Bytes → List Bytes
pieces sep [] cur = cur ∷ []
pieces sep (c ∷ s) cur =
    let ended = pieces sep s [] in
    let longer = pieces sep s (cur ++ c ∷ []) in if c == sep then cur ∷ ended else longer

-- `strings.Cut(s, "=")`
unfoldable pub cut : Bytes → Bytes → Bytes × Bytes
cut [] cur = (cur, [])
cut (c ∷ s) cur = let later = cut s (cur ++ c ∷ []) in if c == b'=' then (cur, s) else later

unfoldable pub lookup : Bytes → List Bytes → Bytes
lookup key [] = []
lookup key (p ∷ ps) =
    let rest = lookup key ps in let (k, v) = cut p [] in if text_eq k key then v else rest

-- `req.URL.Query().Get(key)`
unfoldable pub get : Bytes → Bytes → Bytes
get query key = lookup key (pieces b'&' query [])

-- `n, err := strconv.Atoi(s)`, and the test behind it.
unfoldable pub or_default : ℕ → Option ℕ → ℕ
or_default def none = def
or_default def (some n) = if is_neg n then def else n

unfoldable pub value_of : Bytes → ℕ → ℕ
value_of [] def = def
value_of (c ∷ s) def = or_default def (atoi (c ∷ s))

unfoldable pub int_param : Bytes → Bytes → ℕ → ℕ
int_param query key def = value_of (get query key) def

-- A text without the separators.
abbrev pub IsPlain : Bytes → Type 0
IsPlain = All (λ c. (c ≢ b'&') × (c ≢ b'='))

digits-IsPlain : (s : Bytes) → All IsDigit s → IsPlain s
digits-IsPlain [] h = tt
digits-IsPlain (c ∷ s) h = ((omega arith, omega arith), digits-IsPlain s h.1)

pub format-IsPlain : (n : ℕ) → IsPlain (format n)
format-IsPlain n = digits-IsPlain (format n) (format-IsDigit n)

abbrev LacksAmp : Bytes → Type 0
LacksAmp = All (λ c. c ≢ b'&')

pieces_piece :
    (w cur : Bytes) (rest : Bytes)
    → LacksAmp w
    → pieces b'&' (w ++ (b'&' ∷ rest)) cur ≡ (cur ++ w) ∷ pieces b'&' rest []
unfolding pieces
pieces_piece [] cur rest h = rw append-nil refl
pieces_piece (c ∷ w) cur rest h =
    let other : c == b'&' ≡ false = ground arith in
    rw other (
      pieces_piece w (cur ++ c ∷ []) rest h.1
      ∙ ap (λ p. p ∷ pieces b'&' rest []) (append_assoc cur (c ∷ []) w))

pieces_last : (w cur : Bytes) → LacksAmp w → pieces b'&' w cur ≡ (cur ++ w) ∷ []
unfolding pieces
pieces_last [] cur h = rw append-nil refl
pieces_last (c ∷ w) cur h =
    let other : c == b'&' ≡ false = ground arith in
    rw other (pieces_last w (cur ++ c ∷ []) h.1 ∙ ap (λ p. p ∷ []) (append_assoc cur (c ∷ []) w))

cut_pair : (k cur v : Bytes) → IsPlain k → cut (k ++ (b'=' ∷ v)) cur ≡ (cur ++ k, v)
unfolding cut
cut_pair [] cur v h = rw append-nil refl
cut_pair (c ∷ k) cur v h =
    let other : c == b'=' ≡ false = ground arith in
    rw other (cut_pair k (cur ++ c ∷ []) v h.1 ∙ ap (λ p. (p, v)) (append_assoc cur (c ∷ []) k))

-- A key with its value, as a query writes them.
abbrev pub pair : Bytes → Bytes → Bytes
pair k v = k ++ (b'=' ∷ v)

plain-LacksAmp : (s : Bytes) → IsPlain s → LacksAmp s
plain-LacksAmp [] h = tt
plain-LacksAmp (c ∷ s) h = (h.0.0, plain-LacksAmp s h.1)

pair-LacksAmp : (k v : Bytes) → IsPlain k → IsPlain v → LacksAmp (pair k v)
pair-LacksAmp k v hk hv =
    All-append (λ c. c ≢ b'&') k (b'=' ∷ v) (plain-LacksAmp k hk) (omega arith, plain-LacksAmp v hv)

module _ (k v : Bytes) (hk : IsPlain k) (hv : IsPlain v) where
  lookup_here : (rest : List Bytes) → lookup k (pair k v ∷ rest) ≡ v
  unfolding lookup
  lookup_here rest = rw (cut_pair k [] v hk, (text_eq_iff k k).1 refl) refl

  -- The value of the only key of a query, and of the first of two.
  pub get_only : get (pair k v) k ≡ v
  unfolding get
  get_only = rw (pieces_last (pair k v) [] (pair-LacksAmp k v hk hv)) (lookup_here [])

  pub get_first : (rest : Bytes) → get (pair k v ++ (b'&' ∷ rest)) k ≡ v
  unfolding get
  get_first rest = rw (pieces_piece (pair k v) [] rest (pair-LacksAmp k v hk hv)) (lookup_here _)

  -- The value of the second of two keys.
  pub get_second :
      (k' v' : Bytes)
      → IsPlain k'
      → IsPlain v'
      → text_eq k k' ≡ false
      → get (pair k v ++ (b'&' ∷ pair k' v')) k' ≡ v'
  unfolding get lookup
  get_second k' v' hk' hv' other =
      rw
        (
          pieces_piece (pair k v) [] (pair k' v') (pair-LacksAmp k v hk hv),
          pieces_last (pair k' v') [] (pair-LacksAmp k' v' hk' hv'),
          cut_pair k [] v hk,
          other,
          cut_pair k' [] v' hk',
          (text_eq_iff k' k').1 refl,
        )
        refl

value_of_text : (s : Bytes) (def : ℕ) → s ≢ [] → value_of s def ≡ or_default def (atoi s)
unfolding value_of
value_of_text [] def h = absurd (h refl)
value_of_text (c ∷ s) def h = refl

pub value_of-format : (n def : ℕ) → n < half → value_of (format n) def ≡ n
unfolding or_default
value_of-format n def h =
    value_of_text (format n) def (format-ne-nil n) ∙ rw (atoi-format n h) (ground arith)

or_default_lt : (m : Option ℕ) (def : ℕ) → def < half → or_default def m < half
unfolding or_default
or_default_lt none def h = h
or_default_lt (some n) def h = ground arith

value_of_lt : (s : Bytes) (def : ℕ) → def < half → value_of s def < half
unfolding value_of
value_of_lt [] def h = h
value_of_lt (c ∷ s) def h = or_default_lt (atoi (c ∷ s)) def h

-- Whatever the query, the parameter is not negative if the default is not.
pub int_param_lt : (query key : Bytes) (def : ℕ) → def < half → int_param query key def < half
unfolding int_param
int_param_lt query key def h = value_of_lt (get query key) def h
