-- ===== src/Go/Strings.antt =====
-- strings and bytes, on ASCII text.
use poseidon_tests.Prelude.{
  not, ℕ, suc, ◌+◌, ◌≡◌, ◌≢◌, refl, ap, ◌∙◌, Bool, true, false, ◌||◌, ◌&&◌, List, [], ◌∷◌, ◌++◌,
  append-nil, append_assoc, Option, none, some, arith, Bytes, ◌==◌, leb, if◌then◌else◌, length, All,
  map,
}

abbrev pub is_space : ℕ → Bool
is_space c = c == 32 || (leb 9 c && leb c 13)

abbrev flush : Bytes → List Bytes → List Bytes
flush [] fs = fs
flush (c ∷ cur) fs = (c ∷ cur) ∷ fs

-- The fields behind the unfinished field `cur`.
unfoldable pub split : Bytes → Bytes → List Bytes
split [] cur = flush cur []
split (c ∷ s) cur =
    let ended = split s [] in
    let longer = split s (cur ++ c ∷ []) in if is_space c then flush cur ended else longer

unfoldable pub fields : Bytes → List Bytes
fields s = split s []

unfoldable pub has_prefix : Bytes → Bytes → Bool
has_prefix s [] = true
has_prefix [] (p ∷ ps) = false
has_prefix (c ∷ s) (p ∷ ps) = c == p && has_prefix s ps

abbrev behind : Bool → Option ℕ → Option ℕ
behind here (some i) = some (suc i)
behind true none = some 0
behind false none = none

unfoldable pub last_index_byte : Bytes → ℕ → Option ℕ
last_index_byte [] c = none
last_index_byte (x ∷ s) c = behind (x == c) (last_index_byte s c)

abbrev pub lower : ℕ → ℕ
lower c = if leb b'A' c && leb c b'Z' then c + 32 else c

unfoldable pub to_lower : Bytes → Bytes
to_lower s = map lower s

-- A word: not empty, and with no white space.
abbrev pub IsWord : Bytes → Type 0
IsWord w = (w ≢ []) × All (λ c. is_space c ≡ false) w

-- Words with a space between them and a line feed at the end.
unfoldable pub line : List Bytes → Bytes
line [] = 10 ∷ []
line (w ∷ []) = w ++ 10 ∷ []
line (w ∷ v ∷ ws) = w ++ 32 ∷ line (v ∷ ws)

split-append :
    (w rest cur : Bytes)
    → All (λ c. is_space c ≡ false) w
    → split (w ++ rest) cur ≡ split rest (cur ++ w)
unfolding split
split-append [] rest cur h = rw append-nil
split-append (c ∷ w) rest cur h =
    rw h.0 (split-append w rest (cur ++ c ∷ []) h.1 ∙ ap (split rest) (append_assoc cur (c ∷ []) w))

flush_word : (w : Bytes) (fs : List Bytes) → w ≢ [] → flush w fs ≡ w ∷ fs
flush_word [] fs h = absurd (h refl)
flush_word (c ∷ w) fs h = refl

pub split_word :
    (w : Bytes) (c : ℕ) (rest : Bytes)
    → IsWord w
    → is_space c ≡ true
    → split (w ++ c ∷ rest) [] ≡ w ∷ split rest []
split_word w c rest h e =
    split-append w (c ∷ rest) [] h.1 ∙ unfold split in rw e (flush_word w (split rest []) h.0)

split-line : (ws : List Bytes) → All IsWord ws → split (line ws) [] ≡ ws
unfolding line
split-line [] h = unfold split in refl
split-line (w ∷ []) h = split_word w 10 [] h.0 refl ∙ unfold split in refl
split-line (w ∷ v ∷ ws) h =
    split_word w 32 (line (v ∷ ws)) h.0 refl ∙ ap (λ fs. w ∷ fs) (split-line (v ∷ ws) h.1)

-- The fields of a line of words are its words.
pub fields-line : (ws : List Bytes) → All IsWord ws → fields (line ws) ≡ ws
unfolding fields
fields-line = split-line

last_index_byte-none : (s : Bytes) (c : ℕ) → All (λ x. x ≢ c) s → last_index_byte s c ≡ none
unfolding last_index_byte
last_index_byte-none [] c h = refl
last_index_byte-none (x ∷ s) c h = ground (arith, last_index_byte-none s c h.1)

-- The last occurrence of a byte, where none follows.
pub last_index_byte-append :
    (s t : Bytes) (c : ℕ) → All (λ x. x ≢ c) t → last_index_byte (s ++ (c ∷ t)) c ≡ some (length s)
unfolding last_index_byte
last_index_byte-append [] t c h = ground (arith, last_index_byte-none t c h)
last_index_byte-append (x ∷ s) t c h = rw (last_index_byte-append s t c h) refl

-- A text without a byte, as a test for constants.
abbrev pub without : ℕ → Bytes → Bool
without c [] = true
without c (x ∷ s) = not (x == c) && without c s

pub without_lem : (c : ℕ) (s : Bytes) → without c s ≡ true → All (λ x. x ≢ c) s
without_lem c [] h = tt
without_lem c (x ∷ s) h = (ground arith, without_lem c s (ground arith))
