-- ===== src/SelfMetrics/Cpu/Stat.antt =====
-- /proc/self/stat is read correctly whatever the command name holds.
use poseidon_tests.Prelude.{
  ℕ, zero, suc, ◌+◌, ◌≤◌, ◌<◌, ◌≡◌, ◌≢◌, refl, List, [], ◌∷◌, ◌++◌, some, Bytes, codes, arith,
  length, drop, get_elem?, length-append, All, All-append, false, word, leb, ltb, lt→leb,
}
use poseidon_tests.Go.Strconv.{format, parse_uint-format}
use poseidon_tests.Go.Strings.{fields-line, line, IsWord, last_index_byte, last_index_byte-append}
use poseidon_tests.SelfMetrics.Cpu.{ticks, parse_stat}

-- A record as the kernel writes it: the process id, the command name in parentheses, and the fields
-- from the third on.
abbrev pub stat_text : Bytes → Bytes → List Bytes → Bytes
stat_text pid comm fs = (pid ++ (codes " (" ++ comm)) ++ (b')' ∷ 32 ∷ line fs)

drop_behind : (s : Bytes) (a b : ℕ) (t : Bytes) → drop (length s + 2) (s ++ (a ∷ b ∷ t)) ≡ t
drop_behind [] a b t = refl
drop_behind (c ∷ s) a b t =
    let front : suc (length s) + 2 ≡ suc (length s + 2) = omega arith in
    rw front (drop_behind s a b t)

abbrev pub LacksParen : Bytes → Type 0
LacksParen = All (λ c. c ≢ b')')

line-LacksParen : (fs : List Bytes) → All LacksParen fs → LacksParen (line fs)
unfolding line
line-LacksParen [] h = omega arith
line-LacksParen (w ∷ []) h = All-append (λ c. c ≢ b')') w (10 ∷ []) h.0 (omega arith)
line-LacksParen (w ∷ v ∷ ws) h =
    All-append (λ c. c ≢ b')') w (32 ∷ line (v ∷ ws)) h.0
      (omega arith, line-LacksParen (v ∷ ws) h.1)

length-line : (fs : List Bytes) → 0 < length (line fs)
unfolding line
length-line [] = omega arith
length-line (w ∷ []) = omega (arith, length-append w (10 ∷ []))
length-line (w ∷ v ∷ ws) = omega (arith, length-append w (32 ∷ line (v ∷ ws)))

get_elem?-lt_length :
    {A : Type 0} (xs : List A) (i : ℕ) {x : A} → get_elem? xs i ≡ some x → i < length xs
get_elem?-lt_length [] i h = cc
get_elem?-lt_length (y ∷ ys) zero h = omega arith
get_elem?-lt_length (y ∷ ys) (suc i) h = omega (arith, get_elem?-lt_length ys i h)

not_below : (a b : ℕ) → b ≤ a → ltb a b ≡ false
not_below a b h = ground arith

-- Whatever bytes the command name holds, parentheses and spaces among them, the fields 14 and 15 of
-- the record are returned, if the other fields are words without a closing parenthesis and the two
-- are numbers below 2 ^ 64.
pub parse_stat_lem :
    (pid comm : Bytes) (fs : List Bytes) (u t : ℕ)
    → All IsWord fs
    → All LacksParen fs
    → get_elem? fs 11 ≡ some (format u)
    → get_elem? fs 12 ≡ some (format t)
    → u < word
    → t < word
    → parse_stat (stat_text pid comm fs) ≡ some (u, t)
unfolding parse_stat ticks
parse_stat_lem pid comm fs u t words lacks eleventh twelfth small_u small_t =
    let front = pid ++ (codes " (" ++ comm) in
    let text = stat_text pid comm fs in
    let found : last_index_byte text b')' ≡ some (length front) =
      last_index_byte-append front (32 ∷ line fs) b')' (omega arith, line-LacksParen fs lacks) in
    let dropped : drop (length front + 2) text ≡ line fs = drop_behind front b')' 32 (line fs) in
    let long : leb (length text) (length front + 2) ≡ false =
      lt→leb _ _ (omega (arith, length-append front (b')' ∷ 32 ∷ line fs), length-line fs)) in
    let enough : ltb (length fs) 13 ≡ false = not_below _ _ (get_elem?-lt_length fs 12 twelfth) in
    rw
      (
        found,
        long,
        dropped,
        fields-line fs words,
        enough,
        eleventh,
        parse_uint-format u small_u,
        twelfth,
        parse_uint-format t small_t,
      )
      refl
