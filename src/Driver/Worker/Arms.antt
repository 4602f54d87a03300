-- ===== src/Driver/Worker/Arms.antt =====
-- Two runs of a worker against different clients.
use poseidon_tests.Prelude.{
  ℕ, zero, suc, ◌≤◌, ◌≡◌, refl, sym, ap, ◌∙◌, subst, List, [], ◌∷◌, ◌++◌, Option, none, some, ◌>>=◌,
  Bytes, arith,
}
use poseidon_tests.Go.Rand.{Rand}
use poseidon_tests.ClientSet.{Call}
use poseidon_tests.Payload.Pool.{Pool}
use poseidon_tests.Scenario.{Scenario, mix_for}
use poseidon_tests.Scenario.PathPool.{PathPool}
use poseidon_tests.Scenario.Mix.{Mix, new_mix}
use poseidon_tests.Driver.Counters.{Reply}
use poseidon_tests.Driver.Worker.{prepare, run_worker}
use poseidon_tests.Driver.Worker.Script.{rounds, issued, script, issued-run_worker}

bind-some :
    {A B : Type 0} (m : Option A) (f : A → Option B) {b : B}
    → (m >>= f) ≡ some b
    → (a : A) × (m ≡ some a) × (f a ≡ some b)
bind-some none f e = cc
bind-some (some a) f e = (a, refl, e)

longer_by :
    {c c' : Call} {rest rest' cs cs' : List Call} (more : List Call)
    → cs' ≡ c' ∷ rest'
    → c' ≡ c
    → rest' ≡ rest ++ more
    → cs ≡ c ∷ rest
    → cs' ≡ cs ++ more
longer_by {c} {rest' = rest'} more e same longer split =
    e ∙ ap (λ d. d ∷ rest') same ∙ ap (λ ds. c ∷ ds) longer ∙ sym (ap (λ ds. ds ++ more) split)

module _ (r : Rand) (pool : Pool) (paths : PathPool) (id : ℕ) where
  -- A script taken apart at its first call.
  script_head :
      (mix : Mix r) (seq k : ℕ) {cs : List Call}
      → script r pool paths id mix seq (suc k) ≡ some cs
      → (w : Scenario × Mix r × ℕ × Call) × (rest : List Call) × (prepare r pool paths id mix seq
          ≡ some w)
        × (script r pool paths id w.1 w.2 k ≡ some rest)
        × (cs ≡ w.3 ∷ rest)
  unfolding script
  script_head mix seq k e =
      let (w, ready, e') = bind-some (prepare r pool paths id mix seq) _ e in
      let (rest, followed, e'') = bind-some (script r pool paths id w.1 w.2 k) _ e' in
      (w, rest, ready, followed, cc)

  script-append :
      (k m : ℕ) (mix : Mix r) (seq : ℕ) {cs cs' : List Call}
      → k ≤ m
      → script r pool paths id mix seq k ≡ some cs
      → script r pool paths id mix seq m ≡ some cs'
      → (more : List Call) × (cs' ≡ cs ++ more)
  script-append zero m mix seq {cs} {cs'} h e e' =
      let none_yet : [] ≡ cs = unfold script in cc in (cs', ap (λ c. c ++ cs') none_yet)
  script-append (suc k) zero mix seq h e e' = absurd (omega arith)
  script-append (suc k) (suc m) mix seq {cs} {cs'} h e e' =
      let (w, rest, ready, followed, split) = script_head mix seq k e in
      let (w', rest', ready', followed', split') = script_head mix seq m e' in
      let same : w' ≡ w = cc in
      let follows : script r pool paths id w.1 w.2 m ≡ some rest' =
        subst (λ v. script r pool paths id v.1 v.2 m ≡ some rest') same followed' in
      let (more, longer) = script-append k m w.1 w.2 (omega arith) followed follows in
      (more, longer_by more split' (ap (λ v. v.3) same) longer split)

  -- If a worker does not panic against either of two clients, then the calls that it issues to the
  -- client that it makes more rounds with begin with all the calls that it issues to the other.
  pub issued-append :
      (seed : ℕ) (regime : Bytes) (reps reps' : List Reply) {cs cs' : List Call}
      → rounds reps ≤ rounds reps'
      → issued (run_worker r pool paths id seed regime reps) ≡ some cs
      → issued (run_worker r pool paths id seed regime reps') ≡ some cs'
      → (more : List Call) × (cs' ≡ cs ++ more)
  issued-append seed regime reps reps' h e e' =
      script-append (rounds reps) (rounds reps') (new_mix r seed id (mix_for regime)) 0 h
        (sym (issued-run_worker r pool paths id seed regime reps) ∙ e)
        (sym (issued-run_worker r pool paths id seed regime reps') ∙ e')
