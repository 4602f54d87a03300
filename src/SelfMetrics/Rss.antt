-- ===== src/SelfMetrics/Rss.antt =====
-- `readRSS` of internal/selfmetrics/selfmetrics.go, over the lines of /proc/self/status.
use poseidon_tests.Prelude.{
  ℕ, ◌*◌, ◌%◌, ◌<◌, ◌≤◌, ◌≡◌, refl, ap, ◌∙◌, true, false, List, [], ◌∷◌, ◌++◌, Option, none, some,
  ◌>>=◌, Bytes, codes, arith, All, length, get_elem?, ltb, if◌then◌else◌, mul64, word,
}
use poseidon_tests.Go.Strconv.{
  format, parse_uint, parse_uint-format, format-ne-nil, format-IsDigit, IsDigit,
}
use poseidon_tests.Go.Strings.{fields, has_prefix, split, is_space, IsWord, split_word}

abbrev bytes_of : Option ℕ → ℕ
bytes_of none = 0
bytes_of (some kb) = mul64 kb 1024

-- What a line that begins with the label gives.
rss_line : Bytes → ℕ
rss_line text =
    let fs = fields text in
    if ltb (length fs) 2 then 0 else bytes_of (get_elem? fs 1 >>= parse_uint)

-- The buffer of a `bufio.Scanner`: a line must fit into it with its line feed. The scanner stops at
-- one that does not.
abbrev pub max_token : ℕ
max_token = 65536

pub scan_rss : List Bytes → ℕ
scan_rss [] = 0
scan_rss (text ∷ rest) =
    let later = scan_rss rest in
    if ltb (length text) max_token
    then (if has_prefix text (codes "VmRSS:") then rss_line text else later)
    else 0

-- The argument holds the lines of the file, if it could be opened.
unfoldable pub read_rss : Option (List Bytes) → ℕ
read_rss none = 0
read_rss (some texts) = scan_rss texts

-- A line as the kernel writes it: the label, white space, and the size in kB.
abbrev pub rss_text : Bytes → ℕ → Bytes
rss_text pad kb = codes "VmRSS:" ++ (9 ∷ (pad ++ (format kb ++ codes " kB")))

split_pad :
    (pad rest : Bytes) → All (λ c. is_space c ≡ true) pad → split (pad ++ rest) [] ≡ split rest []
unfolding split
split_pad [] rest h = refl
split_pad (c ∷ pad) rest h = rw h.0 (split_pad pad rest h.1)

All-digit_word : (s : Bytes) → All IsDigit s → All (λ c. is_space c ≡ false) s
All-digit_word [] h = tt
All-digit_word (c ∷ s) h = (ground arith, All-digit_word s h.1)

format-IsWord : (n : ℕ) → IsWord (format n)
format-IsWord n = (format-ne-nil n, All-digit_word (format n) (format-IsDigit n))

label-IsWord : IsWord (codes "VmRSS:")
label-IsWord = (λ e. cc, (refl, (refl, (refl, (refl, (refl, (refl, tt)))))))

fields-rss_text :
    (pad : Bytes) (kb : ℕ)
    → All (λ c. is_space c ≡ true) pad
    → fields (rss_text pad kb) ≡ codes "VmRSS:" ∷ format kb ∷ codes "kB" ∷ []
unfolding fields
fields-rss_text pad kb h =
    split_word (codes "VmRSS:") 9 (pad ++ (format kb ++ codes " kB")) label-IsWord refl
    ∙ ap (λ fs. codes "VmRSS:" ∷ fs)
        (split_pad pad (format kb ++ codes " kB") h
          ∙ split_word (format kb) 32 (codes "kB") (format-IsWord kb) refl
          ∙ unfold split in refl)

-- A line in front of the label that the scanner takes.
abbrev pub IsOther : Bytes → Type 0
IsOther text = (has_prefix text (codes "VmRSS:") ≡ false) × (length text < max_token)

scan_rss-append :
    (before rest : List Bytes) → All IsOther before → scan_rss (before ++ rest) ≡ scan_rss rest
unfolding scan_rss
scan_rss-append [] rest h = refl
scan_rss-append (text ∷ before) rest (h, hs) =
    let fits : ltb (length text) max_token ≡ true = ground (arith, h.1) in
    rw (fits, h.0) (scan_rss-append before rest hs)

-- Behind lines without the label that are shorter than 64 KiB: a line with the label, white space, a
-- number of kilobytes below 2 ^ 64 and the unit, itself shorter than that, gives the size in bytes,
-- modulo 2 ^ 64, whatever stands behind it; and a line of 64 KiB or more ends the search with 0,
-- whatever stands behind it.
pub read_rss_lem :
    (before after : List Bytes) (pad long : Bytes) (kb : ℕ)
    → All IsOther before
    → All (λ c. is_space c ≡ true) pad
    → length (rss_text pad kb) < max_token
    → kb < word
    → max_token ≤ length long
    → (read_rss (some (before ++ (rss_text pad kb ∷ after))) ≡ (kb * 1024) % word)
      × (read_rss (some (before ++ (long ∷ after))) ≡ 0)
unfolding read_rss
read_rss_lem before after pad long kb h p short small over =
    let fits : ltb (length (rss_text pad kb)) max_token ≡ true = ground (arith, short) in
    let too_big : ltb (length long) max_token ≡ false = ground (arith, over) in
    (
      scan_rss-append before _ h
          ∙ unfold scan_rss rss_line has_prefix in
            rw (fits, fields-rss_text pad kb p, parse_uint-format kb small) refl,
      scan_rss-append before _ h ∙ unfold scan_rss in rw too_big refl,
    )
