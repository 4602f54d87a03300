-- ===== src/ClientSet/ResponsePool/Isolation.antt =====
-- What holds of the responses in every interleaving.
use poseidon_tests.Prelude.{ℕ, ◌+◌, ◌≤◌, ◌≡◌, sym, subst, none, some, Bytes, All}
use poseidon_tests.ClientSet.Adapters.{blank, poseidon_do}
use poseidon_tests.ClientSet.ResponsePool.{
  Done, System, result_of, Step, reused, allocated, answered, refused, returned, evicted, Reach,
  begun, moved,
}
use poseidon_tests.ClientSet.ResponsePool.Copies.{copies, holders}
use poseidon_tests.ClientSet.ResponsePool.Invariant.{
  Finds, Inv, same_as_alone, fill-Inv, give_back-Inv, take_pooled-Inv, evicted-Inv, start-Inv,
  take_new-Inv,
}

module _ (host : Bytes) where
  step-Inv : {s t : System} → Inv host s → Step host s t → Inv host t
  unfolding Finds result_of
  step-Inv {s} inv (reused xs ys o client call e f) =
      subst (Inv host) (sym f) (take_pooled-Inv host inv xs ys o e client call)
  step-Inv {s} inv (allocated client call f) =
      subst (Inv host) (sym f) (take_new-Inv host inv client call)
  step-Inv {s} inv (answered xs ys h resp e w f g) =
      subst (Inv host) (sym g)
        (fill-Inv host inv xs ys h e resp none (same_as_alone host inv xs ys h e w f))
  step-Inv {s} inv (refused xs ys h resp er e w f g) =
      subst (Inv host) (sym g)
        (fill-Inv host inv xs ys h e resp (some er) (same_as_alone host inv xs ys h e w f))
  step-Inv {s} inv (returned xs ys h er e w g) =
      subst (Inv host) (sym g) (give_back-Inv host inv xs ys h e er w)
  step-Inv {s} inv (evicted xs ys o e g) = subst (Inv host) (sym g) (evicted-Inv host inv xs ys o e)

  Reach-Inv : {s : System} → Reach host s → Inv host s
  Reach-Inv begun = start-Inv host
  Reach-Inv (moved r step) = step-Inv (Reach-Inv r) step

  -- In every interleaving, with responses reused, evicted and made in any order, each call returns
  -- what it returns alone with a new response: the result of its own reply, or its own error.
  pub done_as_alone :
      {s : System}
      → Reach host s
      → All (λ (d : Done). d.result ≡ poseidon_do d.client host none d.call) s.done
  done_as_alone r = (Reach-Inv r).as_alone

  -- In every interleaving no response is in two hands: it is in the pool once, or one call has it, or
  -- neither. What the pool holds is blank, so that nothing of a call reaches another.
  pub never_shared :
      {s : System}
      → Reach host s
      → ((i : ℕ) → copies i s.pooled + holders i s.taken ≤ 1)
        × All (λ o. s.contents o ≡ blank) s.pooled
  never_shared r = let inv = Reach-Inv r in (inv.single, inv.emptied)
