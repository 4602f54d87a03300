-- ===== src/Scenario/Mix/Grpc.antt =====
-- The gRPC regime draws echo calls only.
use poseidon_tests.Prelude.{
  ℕ, zero, suc, ◌≡◌, refl, sym, ap, subst, get_elem?-replicate, append-nil, ◌∙◌, Option, some,
  ◌>>=◌, List, [], ◌∷◌, arith, codes, replicate, get_elem?,
}
use poseidon_tests.Go.Rand.{Rand}
use poseidon_tests.Weighted.Choice.{sum, expand}
use poseidon_tests.Scenario.{Scenario, Weight, share_of, all, echo, mix_for, grpc_mix}
use poseidon_tests.Scenario.Mix.{weight_of, Mix, new_mix, next}
use poseidon_tests.Scenario.Mix.Choices.{IsValid, new_mix-IsValid, next_lem, drawn}

only_element :
    (x : Weight) (n : ℕ) {w : Weight} → get_elem? (expand weight_of (x ∷ [])) n ≡ some w → x ≡ w
unfolding expand
only_element x n h = get_elem?-replicate x.weight n x (rw append-nil at h)

module _ (r : Rand) where
  -- `k` calls of `Next`.
  pub draws : ℕ → Mix r → Option (List Scenario)
  draws zero m = some []
  draws (suc k) m = do (sc, m') ← next r m; rest ← draws k m'; some (sc ∷ rest)

  -- From a mix of echo alone `Next` draws echo.
  pub next-grpc :
      (m : Mix r)
      → IsValid r m
      → m.weights ≡ grpc_mix
      → (m' : Mix r) × (next r m ≡ some (all echo, m')) × IsValid r m' × (m'.weights ≡ grpc_mix)
  next-grpc m v e =
      let (w, m', stepped, found, kept, v') = next_lem r m v in
      let at_mix = subst (λ ws. get_elem? (expand weight_of ws) (drawn r m) ≡ some w) e found in
      let is_echo : w.kind ≡ echo =
        sym (ap (λ (x : Weight). x.kind) (only_element (share_of echo 100) (drawn r m) at_mix)) in
      (m', stepped ∙ ap (λ k. some (all k, m')) is_echo, v', kept ∙ e)

  draws-grpc :
      (k : ℕ) (m : Mix r)
      → IsValid r m
      → m.weights ≡ grpc_mix
      → draws k m ≡ some (replicate k (all echo))
  unfolding draws
  draws-grpc zero m v e = refl
  draws-grpc (suc k) m v e =
      let (m', stepped, v', kept) = next-grpc m v e in rw (stepped, draws-grpc k m' v' kept) refl

  -- Whatever the seed, the worker and the generator, every call of the gRPC regime is an echo call, and
  -- so has a body.
  pub draws-mix_for_grpc :
      (seed worker k : ℕ)
      → draws k (new_mix r seed worker (mix_for (codes "grpc"))) ≡ some (replicate k (all echo))
  unfolding mix_for sum new_mix
  draws-mix_for_grpc seed worker k =
      draws-grpc k (new_mix r seed worker (mix_for (codes "grpc")))
        (new_mix-IsValid r seed worker grpc_mix (omega arith) (omega arith)) refl
