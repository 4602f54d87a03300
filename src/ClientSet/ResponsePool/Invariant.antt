-- ===== src/ClientSet/ResponsePool/Invariant.antt =====
-- The invariant of the shared responses, and each operation's share of it.
use poseidon_tests.Prelude.{
  ℕ, ◌+◌, ◌≤◌, ◌≡◌, refl, sym, ap, ◌∙◌, subst, List, [], ◌∷◌, ◌++◌, Option, none, Bytes, ◌⊎◌, ◌==◌,
  if◌then◌else◌, arith, All,
}
use poseidon_tests.ClientSet.{Call}
use poseidon_tests.ClientSet.Adapters.{
  PoseidonResponse, Client, blank, to_request, to_result, poseidon_do, response_of,
}
use poseidon_tests.ClientSet.ResponsePool.{
  Progress, waiting, ended, Taken, Done, System, store, result_of, take_pooled, take_new, fill,
  give_back, start,
}
use poseidon_tests.ClientSet.ResponsePool.Copies.{
  copies, holders, copies-append, holders-append, store-other, store-here, All-apart, All-joined,
}

module _ (host : Bytes) where
  -- What call `h` finds in its response.
  unfoldable pub Finds : Taken → Progress → PoseidonResponse → Type 0
  Finds h waiting resp = resp ≡ blank
  Finds h (ended error) resp = result_of error resp ≡ poseidon_do h.client host none h.call

  abbrev pub IsUndisturbed : (ℕ → PoseidonResponse) → Taken → Type 0
  IsUndisturbed m h = Finds h h.progress (m h.object)

  abbrev pub IsAsAlone : Done → Type 0
  IsAsAlone d = d.result ≡ poseidon_do d.client host none d.call

  pub record Inv (s : System) : Type 0 where
    pub single : (i : ℕ) → copies i s.pooled + holders i s.taken ≤ 1
    pub numbered : (i : ℕ) → s.made ≤ i → copies i s.pooled + holders i s.taken ≡ 0
    pub emptied : All (λ o. s.contents o ≡ blank) s.pooled
    pub undisturbed : All (IsUndisturbed s.contents) s.taken
    pub as_alone : All IsAsAlone s.done

  -- A store is not seen through other objects.
  store-copies :
      (o : ℕ) (resp : PoseidonResponse) (m : ℕ → PoseidonResponse) (os : List ℕ)
      → copies o os ≡ 0
      → All (λ i. m i ≡ blank) os
      → All (λ i. store o resp m i ≡ blank) os
  unfolding copies
  store-copies o resp m [] h a = tt
  store-copies o resp m (x ∷ os) h a =
      (store-other o x resp m (omega arith) ∙ a.0, store-copies o resp m os (ground arith) a.1)

  store-holders :
      (o : ℕ) (resp : PoseidonResponse) (m : ℕ → PoseidonResponse) (hs : List Taken)
      → holders o hs ≡ 0
      → All (IsUndisturbed m) hs
      → All (IsUndisturbed (store o resp m)) hs
  unfolding holders
  store-holders o resp m [] h a = tt
  store-holders o resp m (x ∷ hs) h a = (
    subst (Finds x x.progress) (sym (store-other o x.object resp m (omega arith))) a.0,
    store-holders o resp m hs (ground arith) a.1,
  )

  pub start-Inv : Inv (start host)
  unfolding start copies holders
  start-Inv = record {
    single = λ i. omega arith;
    numbered = λ i h. refl;
    emptied = tt;
    undisturbed = tt;
    as_alone = tt;
  }

  -- A call that has a response, and what the others have.
  module _ {s : System} (inv : Inv s) (xs ys : List Taken) (h : Taken)
      (e : s.taken ≡ xs ++ (h ∷ ys)) where
    held : (i : ℕ) → holders i s.taken ≡ (if i == h.object then 1 else 0) + holders i (xs ++ ys)
    held i = ap (holders i) e ∙ holders-append i h xs ys

    alone : (copies h.object s.pooled ≡ 0) × (holders h.object (xs ++ ys) ≡ 0)
    alone = ground (arith, inv.single h.object, held h.object)

    apart : IsUndisturbed s.contents h × All (IsUndisturbed s.contents) (xs ++ ys)
    apart =
        All-apart (IsUndisturbed s.contents) xs ys
          (subst (All (IsUndisturbed s.contents)) e inv.undisturbed)

    -- The call finds a blank response, as it would if it had made one.
    pub same_as_alone :
        {x : Bytes ⊎ PoseidonResponse}
        → h.progress ≡ waiting
        → h.client (to_request host h.call) (s.contents h.object) ≡ x
        → to_result x ≡ poseidon_do h.client host none h.call
    unfolding poseidon_do response_of Finds
    same_as_alone {x} w f =
        let clean : s.contents h.object ≡ blank =
          subst (λ p. Finds h p (s.contents h.object)) w apart.0 in
        ap to_result (sym f ∙ ap (h.client (to_request host h.call)) clean)

    pub fill-Inv :
        (resp : PoseidonResponse) (error : Option Bytes)
        → Finds h (ended error) resp
        → Inv (fill h resp error xs ys s)
    unfolding fill Finds
    fill-Inv resp error found = record {
      single = λ i. omega (
        arith,
        inv.single i,
        held i,
        holders-append i (record h { progress = ended error }) xs ys,
      );
      numbered = λ i fresh. omega (
        arith,
        inv.numbered i fresh,
        held i,
        holders-append i (record h { progress = ended error }) xs ys,
      );
      emptied = store-copies h.object resp s.contents s.pooled alone.0 inv.emptied;
      undisturbed =
          All-joined (IsUndisturbed (store h.object resp s.contents)) xs ys
            (subst (Finds h (ended error)) (sym (store-here h.object resp s.contents)) found)
            (store-holders h.object resp s.contents (xs ++ ys) alone.1 apart.1);
      as_alone = inv.as_alone;
    }

    pub give_back-Inv :
        (error : Option Bytes) → h.progress ≡ ended error → Inv (give_back h error (xs ++ ys) s)
    unfolding give_back copies Finds
    give_back-Inv error w = record {
      single = λ i. omega (arith, inv.single i, held i);
      numbered = λ i fresh. omega (arith, inv.numbered i fresh, held i);
      emptied = (
        store-here h.object blank s.contents,
        store-copies h.object blank s.contents s.pooled alone.0 inv.emptied,
      );
      undisturbed = store-holders h.object blank s.contents (xs ++ ys) alone.1 apart.1;
      as_alone = (subst (λ p. Finds h p (s.contents h.object)) w apart.0, inv.as_alone);
    }

  module _ {s : System} (inv : Inv s) (xs ys : List ℕ) (o : ℕ) (e : s.pooled ≡ xs ++ (o ∷ ys)) where
    pooled_apart : (s.contents o ≡ blank) × All (λ i. s.contents i ≡ blank) (xs ++ ys)
    pooled_apart =
        All-apart (λ i. s.contents i ≡ blank) xs ys
          (subst (All (λ i. s.contents i ≡ blank)) e inv.emptied)

    pooled_count : (i : ℕ) → copies i s.pooled ≡ (if i == o then 1 else 0) + copies i (xs ++ ys)
    pooled_count i = ap (copies i) e ∙ copies-append i o xs ys

    pub take_pooled-Inv :
        (client : Client) (call : Call) → Inv (take_pooled o (xs ++ ys) client call s)
    unfolding take_pooled holders Finds
    take_pooled-Inv client call = record {
      single = λ i. omega (arith, inv.single i, pooled_count i);
      numbered = λ i fresh. omega (arith, inv.numbered i fresh, pooled_count i);
      emptied = pooled_apart.1;
      undisturbed = (pooled_apart.0, inv.undisturbed);
      as_alone = inv.as_alone;
    }

    pub evicted-Inv : Inv (record s { pooled = xs ++ ys })
    evicted-Inv = record {
      single = λ i. omega (arith, inv.single i, pooled_count i);
      numbered = λ i fresh. omega (arith, inv.numbered i fresh, pooled_count i);
      emptied = pooled_apart.1;
      undisturbed = inv.undisturbed;
      as_alone = inv.as_alone;
    }

  pub take_new-Inv :
      {s : System} → Inv s → (client : Client) (call : Call) → Inv (take_new client call s)
  unfolding take_new holders Finds
  take_new-Inv {s} inv client call =
      let unused = inv.numbered s.made (omega arith) in
      record {
        single = λ i. ground (arith, inv.single i, inv.numbered i);
        numbered = λ i fresh. ground (arith, inv.numbered i);
        emptied = store-copies s.made blank s.contents s.pooled (omega arith) inv.emptied;
        undisturbed = (
          store-here s.made blank s.contents,
          store-holders s.made blank s.contents s.taken (omega arith) inv.undisturbed,
        );
        as_alone = inv.as_alone;
      }
