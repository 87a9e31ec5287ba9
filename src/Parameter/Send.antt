-- ===== src/Parameter/Send.antt =====
-- `send` hands over the columns of all values, in order.
use taopq.Base.{
  ℕ, suc, ◌+◌, ◌≡◌, refl, sym, ap, ◌∙◌, subst, ltb, false, ◌≤◌, List, [], ◌∷◌, ◌++◌, append_assoc,
  append-nil, some, length, length-append, map, get_elem?, get_elem?-append, ok, arith,
}
use taopq.IndexScan.{index_sequence}
use taopq.IndexScan.Blocks.{owners, places, gen_lem}
use taopq.Parameter.{
  Argument, value, parameters, fresh, parameter_size, send_bound, picked, send_indexed,
}
use taopq.Parameter.Bind.{Holds, ShowsAll, bound, bind-bound}

module _ {C : Type 0} where
  unfoldable pub concat : List (List C) → List C
  concat [] = []
  concat (t ∷ ts) = t ++ concat ts

  -- The columns of one value, and then those of the next ones.
  picked-block :
      (ts : List (List C)) (o : ℕ) (done left : List C) (os is : List ℕ) (rest : List C)
      → get_elem? ts o ≡ some (done ++ left)
      → picked ts os is ≡ ok rest
      → picked ts
          (map (λ _. o) (index_sequence (length done) (length left)) ++ os)
          (index_sequence (length done) (length left) ++ is)
        ≡ ok (left ++ rest)
  unfolding picked index_sequence
  picked-block ts o done [] os is rest e r = r
  picked-block ts o done (c ∷ left) os is rest e r =
      let next =
        picked-block ts o (done ++ c ∷ []) left os is rest
          (e ∙ ap some (sym (append_assoc done (c ∷ []) left))) r in
      let n : length (done ++ c ∷ []) ≡ suc (length done) =
        omega (arith, length-append done (c ∷ [])) in
      rw (e, get_elem?-append done c left, ← n, next) refl

  picked-all :
      (done left : List (List C))
      → picked (done ++ left) (owners (length done) (map length left)) (places (map length left))
        ≡ ok (concat left)
  unfolding owners places concat
  picked-all done [] = unfold picked in refl
  picked-all done (t ∷ ts) =
      let n : length (done ++ t ∷ []) ≡ suc (length done) =
        omega (arith, length-append done (t ∷ [])) in
      let next : picked (done ++ t ∷ ts) (owners (suc (length done)) (map length ts))
            (places (map length ts))
          ≡ ok (concat ts) =
        rw (← n, ← append_assoc done (t ∷ []) ts) (picked-all (done ++ t ∷ []) ts) in
      picked-block (done ++ t ∷ ts) (length done) [] t _ _ (concat ts) (get_elem?-append done t ts)
        next

  -- `send` hands over the columns of all its values, one value behind the other and none left out,
  -- however many columns each value has.
  pub send_indexed-concat : (ts : List (List C)) → send_indexed ts ≡ ok (concat ts)
  unfolding send_indexed
  send_indexed-concat ts = let g = gen_lem (map length ts) in rw (g.0, g.1) (picked-all [] ts)

  bound-concat :
      (max : ℕ) (cs : List C) (dss : List (List C))
      → length cs + length (concat dss) ≤ max
      → bound max cs dss ≡ (cs ++ concat dss, ok tt)
  unfolding bound concat
  bound-concat max cs [] h = rw (append-nil cs) refl
  bound-concat max cs (ds ∷ dss) h =
      let l = length-append ds (concat dss) in
      let e : ltb max (length cs + length ds) ≡ false = ground (arith, l, h) in
      rw
        (
          e,
          bound-concat max (cs ++ ds) dss (omega (arith, l, h, length-append cs ds)),
          append_assoc cs ds (concat dss),
        )
        refl

  concat-parameter_size :
      (args : List (Argument C)) (dss : List (List C))
      → ShowsAll args dss
      → length (concat dss) ≤ parameter_size args
  unfolding concat parameter_size
  concat-parameter_size [] [] s = omega arith
  concat-parameter_size [] (ds ∷ dss) s = absurd s
  concat-parameter_size (a ∷ args) [] s = absurd s
  concat-parameter_size (value cs ∷ args) (ds ∷ dss) s =
      omega
        (arith, length-append ds (concat dss), ap length s.0.0, concat-parameter_size args dss s.1)
  concat-parameter_size (parameters q ∷ args) (ds ∷ dss) s =
      let h = s.0 in
      omega
        (arith, length-append ds (concat dss), h.size, h.within, concat-parameter_size args dss s.1)

  pub fresh-Holds : (max : ℕ) → Holds (fresh {C = C} max) []
  unfolding fresh
  fresh-Holds max = record { size = refl; within = omega arith; kept = omega arith; stored = tt }

  -- `send` with lists of parameters among its arguments does not throw: the list that it makes has
  -- room for all columns of the arguments, and holds them, one argument behind the other.
  pub send_bound-Holds :
      (args : List (Argument C)) (dss : List (List C))
      → ShowsAll args dss
      → Holds (send_bound args).0 (concat dss) × ((send_bound args).1 ≡ ok tt)
  unfolding send_bound fresh
  send_bound-Holds args dss s =
      let e =
        bound-concat (parameter_size args) [] dss
          (omega (arith, concat-parameter_size args dss s)) in
      let (h, r) =
        bind-bound (fresh (parameter_size args)) args [] dss (fresh-Holds (parameter_size args))
          s in
      (subst (Holds _) (ap (λ x. x.0) e) h, r ∙ ap (λ x. x.1) e)
