-- ===== src/SelfMetrics/Prometheus/Scrape.antt =====
-- What a scraper reads from the text of the metrics.
use poseidon_tests.Prelude.{
  ℕ, zero, suc, ◌≡◌, ◌≢◌, refl, ap, ◌∙◌, true, false, List, [], ◌∷◌, ◌++◌, Option, none, some,
  Bytes, codes, All, map, length, drop, arith, ◌==◌, if◌then◌else◌, append_assoc, append-nil,
}
use poseidon_tests.Go.Strings.{
  without, without_lem, has_prefix, last_index_byte, last_index_byte-append,
}
use poseidon_tests.SelfMetrics.Prometheus.{Metric, metric_text, write_all}

-- The lines of a text, where `cur` is the unfinished one; what no line feed ends is not a line.
unfoldable pub lines : Bytes → (cur : Bytes) → List Bytes
lines [] cur = []
lines (c ∷ s) cur =
    let ended = lines s [] in
    let longer = lines s (cur ++ c ∷ []) in if c == 10 then cur ∷ ended else longer

-- The two sides of the last space.
unfoldable pub take : ℕ → Bytes → Bytes
take zero s = []
take (suc n) [] = []
take (suc n) (c ∷ s) = c ∷ take n s

unfoldable pub cut_last : Bytes → Option ℕ → Bytes × Bytes
cut_last s none = (s, [])
cut_last s (some i) = (take i s, drop (suc i) s)

-- The series and the value of each line that is no comment.
unfoldable pub samples : List Bytes → List (Bytes × Bytes)
samples [] = []
samples (s ∷ ss) =
    let rest = samples ss in
    if has_prefix s (codes "#") then rest else cut_last s (last_index_byte s 32) ∷ rest

unfoldable pub scrape : Bytes → List (Bytes × Bytes)
scrape text = samples (lines text [])

abbrev IsLine : Bytes → Type 0
IsLine s = All (λ c. c ≢ 10) s

lines-append : (s rest cur : Bytes) → IsLine s → lines (s ++ rest) cur ≡ lines rest (cur ++ s)
unfolding lines
lines-append [] rest cur h = rw append-nil
lines-append (c ∷ s) rest cur h =
    let ih =
      lines-append s rest (cur ++ c ∷ []) h.1 ∙ ap (lines rest) (append_assoc cur (c ∷ []) s) in
    ground arith

take-length : (s rest : Bytes) → take (length s) (s ++ rest) ≡ s
unfolding take
take-length [] rest = refl
take-length (c ∷ s) rest = ap (λ t. c ∷ t) (take-length s rest)

drop-length : (s rest : Bytes) (c : ℕ) → drop (suc (length s)) (s ++ (c ∷ rest)) ≡ rest
drop-length [] rest c = refl
drop-length (x ∷ s) rest c = drop-length s rest c

-- A metric as the program writes it: the texts are fixed, and the value is a number.
abbrev pub IsMetric : Metric → Type 0
IsMetric m =
    (without 10 m.name ≡ true)
    × (without 10 m.help ≡ true)
    × (without 10 m.typ ≡ true)
    × (has_prefix m.name (codes "driver_") ≡ true)
    × All (λ c. (c ≢ 10) × (c ≢ 32)) m.value

samples_comment :
    (s : Bytes) (ss : List Bytes) → has_prefix s (codes "#") ≡ true → samples (s ∷ ss) ≡ samples ss
unfolding samples
samples_comment s ss h = rw h refl

samples_value :
    (s value : Bytes) (ss : List Bytes)
    → has_prefix (s ++ (32 ∷ value)) (codes "#") ≡ false
    → All (λ c. c ≢ 32) value
    → samples ((s ++ (32 ∷ value)) ∷ ss) ≡ (s, value) ∷ samples ss
unfolding samples cut_last
samples_value s value ss h a =
    rw (h, last_index_byte-append s value 32 a, take-length s (32 ∷ value), drop-length s value 32)
      refl

-- The text of a metric in front of another text, with every piece apart.
metric_text-append :
    (lbl : Bytes) (m : Metric) (rest : Bytes)
    → metric_text lbl m ++ rest
      ≡ codes "# HELP "
        ++ (m.name
            ++ (codes " "
                ++ (m.help
                    ++ (10
                        ∷ (codes "# TYPE "
                            ++ (m.name
                                ++ (codes " "
                                    ++ (m.typ
                                        ++ (10
                                            ∷ (m.name
                                                ++ (lbl
                                                    ++ (codes " "
                                                        ++ (m.value ++ (10 ∷ rest))))))))))))))
unfolding metric_text
metric_text-append lbl m rest = simp append_assoc

-- A comment in front of other lines: its first piece starts with `#`.
samples-comment :
    (name text rest : Bytes)
    → IsLine name
    → IsLine text
    → (kind : Bytes) → IsLine kind
    → samples (lines (35 ∷ (kind ++ (name ++ (codes " " ++ (text ++ (10 ∷ rest)))))) [])
      ≡ samples (lines rest [])
unfolding lines
samples-comment name text rest hn ht kind hk =
    let step : lines (35 ∷ (kind ++ (name ++ (codes " " ++ (text ++ (10 ∷ rest)))))) []
        ≡ (35 ∷ (((kind ++ name) ++ codes " ") ++ text)) ∷ lines rest [] =
      lines-append kind _ (35 ∷ []) hk
      ∙ lines-append name _ _ hn
      ∙ lines-append (codes " ") (text ++ (10 ∷ rest)) ((35 ∷ kind) ++ name)
          (without_lem 10 (codes " ") refl)
      ∙ lines-append text (10 ∷ rest) (((35 ∷ kind) ++ name) ++ codes " ") ht in
    ap samples step ∙ samples_comment _ _ (unfold has_prefix in refl)

pub All-map {ℓ κ μ} :
    {A : Type ℓ} {P : A → Type κ} {Q : A → Type μ} (xs : List A)
    → ((x : A) → P x → Q x)
    → All P xs
    → All Q xs
All-map [] f h = tt
All-map (x ∷ xs) f h = (f x h.0, All-map xs f h.1)

-- The sample of a metric in front of other lines.
samples-sample :
    (name lbl value rest : Bytes)
    → IsLine name
    → IsLine lbl
    → has_prefix ((name ++ lbl) ++ (32 ∷ value)) (codes "#") ≡ false
    → All (λ c. (c ≢ 10) × (c ≢ 32)) value
    → samples (lines (name ++ (lbl ++ (codes " " ++ (value ++ (10 ∷ rest))))) [])
      ≡ (name ++ lbl, value) ∷ samples (lines rest [])
unfolding lines
samples-sample name lbl value rest hn hl h hv =
    let step : lines (name ++ (lbl ++ (codes " " ++ (value ++ (10 ∷ rest))))) []
        ≡ ((name ++ lbl) ++ (32 ∷ value)) ∷ lines rest [] =
      lines-append name _ [] hn
      ∙ lines-append lbl _ name hl
      ∙ lines-append (codes " ") (value ++ (10 ∷ rest)) (name ++ lbl)
          (without_lem 10 (codes " ") refl)
      ∙ lines-append value (10 ∷ rest) ((name ++ lbl) ++ codes " ") (All-map value (λ c p. p.0) hv)
      ∙ ap (λ s. s ∷ lines rest []) (append_assoc (name ++ lbl) (32 ∷ []) value) in
    ap samples step ∙ samples_value (name ++ lbl) value _ h (All-map value (λ c p. p.1) hv)

has_prefix_other :
    (name text : Bytes)
    → has_prefix name (codes "driver_") ≡ true
    → has_prefix (name ++ text) (codes "#") ≡ false
unfolding has_prefix
has_prefix_other [] text h = cc
has_prefix_other (c ∷ name) text h = ground arith

metric-samples :
    (lbl : Bytes) (m : Metric) (rest : Bytes)
    → IsLine lbl
    → IsMetric m
    → samples (lines (metric_text lbl m ++ rest) [])
      ≡ (m.name ++ lbl, m.value) ∷ samples (lines rest [])
metric-samples lbl m rest hl (hn, hh, ht, hp, hv) =
    let name = without_lem 10 m.name hn in
    let first = has_prefix_other m.name (lbl ++ (32 ∷ m.value)) hp in
    ap (λ s. samples (lines s [])) (metric_text-append lbl m rest)
    ∙ samples-comment m.name m.help _ name (without_lem 10 m.help hh) (codes " HELP ")
        (without_lem 10 (codes " HELP ") refl)
    ∙ samples-comment m.name m.typ _ name (without_lem 10 m.typ ht) (codes " TYPE ")
        (without_lem 10 (codes " TYPE ") refl)
    ∙ samples-sample m.name lbl m.value rest name hl
        (ap (λ s. has_prefix s (codes "#")) (append_assoc m.name lbl (32 ∷ m.value)) ∙ first) hv

pub write_all-scrape :
    (lbl : Bytes) (ms : List Metric)
    → IsLine lbl
    → All IsMetric ms
    → scrape (write_all lbl ms) ≡ map (λ m. (m.name ++ lbl, m.value)) ms
unfolding scrape write_all samples lines
write_all-scrape lbl [] hl h = refl
write_all-scrape lbl (m ∷ ms) hl h =
    metric-samples lbl m (write_all lbl ms) hl h.0
    ∙ ap (λ ss. (m.name ++ lbl, m.value) ∷ ss) (write_all-scrape lbl ms hl h.1)
