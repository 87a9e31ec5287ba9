-- ===== src/Parameter/Bind.antt =====
-- What `bind` of parameter.hpp leaves in the arrays, where it throws, and that it stays in them.
use taopq.Base.{
  ℕ, suc, ◌+◌, ◌≤◌, ◌<◌, ◌≡◌, refl, ap, ◌∙◌, subst, true, false, List, [], ◌∷◌, ◌++◌, Option, some,
  if◌then◌else◌, ltb, ◌==◌, Bool-cases, inl, inr, length, length-append, Result, ok, throw,
  length_error, arith,
}
use taopq.Parameter.{
  Parameter, Argument, value, parameters, fill, copy_columns, keep, bind_impl, bind, after_bind,
}

module _ {C : Type 0} where
  -- The columns from the index `at` on.
  abbrev pub Stored : (ℕ → Option C) → ℕ → List C → Type 0
  Stored f at [] = Unit {0}
  Stored f at (c ∷ cs) = (f at ≡ some c) × Stored f (suc at) cs

  -- The list has the columns, and `m_params` has an entry for each value, but for no empty one.
  pub record Holds (p : Parameter C) (cs : List C) : Type 0 where
    pub size : p.size ≡ length cs
    pub within : p.size ≤ p.max
    pub kept : p.pos ≤ p.size
    pub stored : Stored p.columns 0 cs

  Stored-above :
      (f : ℕ → Option C) (at n : ℕ) (x : Option C) (cs : List C)
      → at + length cs ≤ n
      → Stored f at cs
      → Stored (λ k. if k == n then x else f k) at cs
  Stored-above f at n x [] h s = tt
  Stored-above f at n x (c ∷ cs) h s =
      (ground (arith, s.0), Stored-above f (suc at) n x cs (omega (arith, h)) s.1)

  Stored-append :
      (f : ℕ → Option C) (at : ℕ) (cs ds : List C)
      → Stored f at cs
      → Stored f (at + length cs) ds
      → Stored f at (cs ++ ds)
  Stored-append f at [] ds s t = subst (λ x. Stored f x ds) (omega arith) t
  Stored-append f at (c ∷ cs) ds s t =
      (s.0, Stored-append f (suc at) cs ds s.1 (subst (λ x. Stored f x ds) (omega arith) t))

  -- What is stored below `at` stays.
  abbrev pub Keeps : (ℕ → Option C) → (ℕ → Option C) → ℕ → Type 0
  Keeps f g at = (ds : List C) (b : ℕ) → b + length ds ≤ at → Stored f b ds → Stored g b ds

  -- Columns are stored from the index `at` on, and nothing else of the list changes.
  abbrev pub StoresAt : Parameter C → ℕ → List C → Result (Parameter C) → Type 0
  StoresAt p at cs answer =
      (f : ℕ → Option C) × (answer ≡ ok (record p { columns = f }))
      × Stored f at cs
      × Keeps p.columns f at

  fill-StoresAt :
      (p : Parameter C) (at : ℕ) (cs : List C)
      → at + length cs ≤ p.max
      → StoresAt p at cs (fill p at cs)
  unfolding fill
  fill-StoresAt p at [] h = (p.columns, refl, tt, λ ds b l s. s)
  fill-StoresAt p at (c ∷ cs) h =
      let g : ℕ → Option C = λ n. if n == at then some c else p.columns n in
      let (f, e, s, k) = fill-StoresAt (record p { columns = g }) (suc at) cs (omega (arith, h)) in
      let t : ltb at p.max ≡ true = ground (arith, h) in
      (
        f,
        rw (t) e,
        ((k (c ∷ []) at (omega arith) (ground arith, tt)).0, s),
        λ ds b l u. k ds b (omega (arith, l)) (Stored-above p.columns b at (some c) ds l u),
      )

  copy_columns-StoresAt :
      (p q : Parameter C) (n : ℕ) (ds : List C)
      → Stored q.columns n ds
      → p.size + n + length ds ≤ p.max
      → StoresAt p (p.size + n) ds (copy_columns p q n (length ds))
  unfolding copy_columns
  copy_columns-StoresAt p q n [] s h = (p.columns, refl, tt, λ ds b l u. u)
  copy_columns-StoresAt p q n (d ∷ ds) s h =
      let (g, e, t, k) = fill-StoresAt p (p.size + n) (d ∷ []) (omega (arith, h)) in
      let (f, x, u, m) =
        copy_columns-StoresAt (record p { columns = g }) q (suc n) ds s.1 (omega (arith, h)) in
      (
        f,
        rw (s.0, e) x,
        ((m (d ∷ []) (p.size + n) (omega arith) t).0, subst (λ i. Stored f i ds) (omega arith) u),
        λ cs b l v. m cs b (omega (arith, l)) (k cs b l v),
      )

  -- An argument has the columns, at least one where it is a value.
  abbrev pub Shows : Argument C → List C → Type 0
  Shows (value es) ds = (es ≡ ds) × (0 < length ds)
  Shows (parameters q) ds = Holds q ds

  pub bind_impl-Holds :
      (p : Parameter C) (a : Argument C) (cs ds : List C)
      → Holds p cs
      → Shows a ds
      → length cs + length ds ≤ p.max
      → (q : Parameter C) × (bind_impl p a ≡ ok q) × (q.max ≡ p.max) × Holds q (cs ++ ds)
  unfolding bind_impl keep
  bind_impl-Holds p (value es) cs ds h s l =
      let (f, e, t, k) = fill-StoresAt p p.size ds (omega (arith, l, h.size)) in
      let a : ltb p.max (p.size + length ds) ≡ false = ground (arith, l, h.size) in
      let b : ltb p.pos p.max ≡ true = ground (arith, l, h.size, h.kept, s.1) in
      (
        record p { columns = f; pos = suc p.pos; size = p.size + length ds },
        rw (s.0, a, e, b) refl,
        refl,
        record {
          size = omega (arith, h.size, length-append cs ds);
          within = omega (arith, h.size, l);
          kept = omega (arith, h.kept, s.1);
          stored =
              Stored-append f 0 cs ds (k cs 0 (omega (arith, h.size)) h.stored)
                (subst (λ i. Stored f i ds) (omega (arith, h.size)) t);
        },
      )
  bind_impl-Holds p (parameters q) cs ds h s l =
      let (f, e, t, k) = copy_columns-StoresAt p q 0 ds s.stored (omega (arith, l, h.size)) in
      let x : copy_columns p q 0 q.size ≡ ok (record p { columns = f }) =
        ap (copy_columns p q 0) s.size ∙ e in
      let a : ltb p.max (p.size + q.size) ≡ false = ground (arith, l, h.size, s.size) in
      (
        record p { columns = f; size = p.size + q.size },
        rw (a, x) refl,
        refl,
        record {
          size = omega (arith, h.size, s.size, length-append cs ds);
          within = omega (arith, h.size, s.size, l);
          kept = omega (arith, h.kept);
          stored =
              Stored-append f 0 cs ds (k cs 0 (omega (arith, h.size)) h.stored)
                (subst (λ i. Stored f i ds) (omega (arith, h.size)) t);
        },
      )

  bind_impl-throw :
      (p : Parameter C) (a : Argument C) (cs ds : List C)
      → Holds p cs
      → Shows a ds
      → p.max < length cs + length ds
      → bind_impl p a ≡ throw length_error
  unfolding bind_impl
  bind_impl-throw p (value es) cs ds h s l =
      let a : ltb p.max (p.size + length ds) ≡ true = ground (arith, l, h.size) in rw (s.0, a) refl
  bind_impl-throw p (parameters q) cs ds h s l =
      let a : ltb p.max (p.size + q.size) ≡ true = ground (arith, l, h.size, s.size) in rw (a) refl

  abbrev pub ShowsAll : List (Argument C) → List (List C) → Type 0
  ShowsAll [] [] = Unit {0}
  ShowsAll [] (ds ∷ dss) = ⊥
  ShowsAll (a ∷ args) [] = ⊥
  ShowsAll (a ∷ args) (ds ∷ dss) = Shows a ds × ShowsAll args dss

  -- What `bind` promises: arguments are appended until one does not fit any more.
  unfoldable pub bound : ℕ → List C → List (List C) → List C × Result (Unit {0})
  bound max cs [] = (cs, ok tt)
  bound max cs (ds ∷ dss) =
      let rest = bound max (cs ++ ds) dss in
      if ltb max (length cs + length ds) then (cs, throw length_error) else rest

  -- `bind` of any arguments, values and other lists, to a list that holds `cs`: the arguments'
  -- columns are appended, one argument behind the other, up to the first one that does not fit,
  -- where `length_error` is thrown. Nothing is stored behind the end of an array.
  pub bind-bound :
      (p : Parameter C) (args : List (Argument C)) (cs : List C) (dss : List (List C))
      → Holds p cs
      → ShowsAll args dss
      → Holds (bind p args).0 (bound p.max cs dss).0 × ((bind p args).1 ≡ (bound p.max cs dss).1)
  unfolding bind after_bind bound
  bind-bound p [] cs [] h s = (h, refl)
  bind-bound p [] cs (ds ∷ dss) h s = absurd s
  bind-bound p (a ∷ args) cs [] h s = absurd s
  bind-bound p (a ∷ args) cs (ds ∷ dss) h s =
      elim (Bool-cases (ltb p.max (length cs + length ds))) [
        | inl e ↦ rw (e, bind_impl-throw p a cs ds h s.0 (ground (arith, e))) (h, refl)
        | inr e ↦
            let (q, x, m, y) = bind_impl-Holds p a cs ds h s.0 (ground (arith, e)) in
            rw (e, x)
              (subst
                (λ n.
                  Holds (bind q args).0 (bound n (cs ++ ds) dss).0
                  × ((bind q args).1 ≡ (bound n (cs ++ ds) dss).1))
                m (bind-bound q args (cs ++ ds) dss y s.1))
      ]
