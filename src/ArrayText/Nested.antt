-- ===== src/ArrayText/Nested.antt =====
-- `to_array` and `parse` at every depth.
use taopq.Base.{
  All-map, codes, subst, ◌==◌, ℕ, zero, suc, ◌≤◌, true, false, List, [], ◌∷◌, ◌++◌, Bytes, IsText,
  All, All-append, member, length, length-append, c_str-IsText, ◌⊎◌, append_assoc, append-nil, ◌≡◌,
  ◌≢◌, refl, sym, ap, ◌∙◌, inl, inr, arith, Result, ok, some,
}
use taopq.ArrayText.Write.{
  comma, open_brace, close_brace, null_text, Traits, Shape, array, Value, array_append, set_last,
  write_elements, write_array, to_array, parameter_value,
}
use taopq.ArrayText.Read.{ends, parse_items, parse_body, parse_array, parse, from, parse_element}
use taopq.ArrayText.Escape.{element_text-nonempty, element_text-IsText, array_append-element_text}
use taopq.ArrayText.RoundTrip.{parse_element-element_text, parse_element_null}

-- The value `v` is written as some text, which a reader turns back into `v`, whatever separator
-- stands behind it.
pub record Reads {V : Type 0} (write : Bytes → V → Bytes) (read : Bytes → Result (V × Bytes))
    (v : V) : Type 0 where
  pub first : ℕ
  pub others : Bytes
  pub text : IsText (first ∷ others)
  pub opens : first ≢ close_brace
  pub written : (b : Bytes) → write b v ≡ b ++ first ∷ others
  pub reads :
      (d : ℕ) (rest : Bytes)
      → member d ends ≡ true
      → read (first ∷ (others ++ d ∷ rest)) ≡ ok (v, d ∷ rest)

ne-false : (a b : ℕ) → a ≢ b → (a == b) ≡ false
ne-false a b h = ground arith

set_last-append : (c d : ℕ) (s : Bytes) → set_last c (s ++ d ∷ []) ≡ s ++ c ∷ []
unfolding set_last
set_last-append c d [] = refl
set_last-append c d (x ∷ []) = refl
set_last-append c d (x ∷ y ∷ s) = ap (◌∷◌ x) (set_last-append c d (y ∷ s))

module _ {V : Type 0} (write : Bytes → V → Bytes) (read : Bytes → Result (V × Bytes)) where
  -- The same for the elements between the braces, where a closing brace ends them.
  record ReadsItems (vs : List V) : Type 0 where
    first : ℕ
    others : Bytes
    text : IsText (first ∷ others)
    opens : first ≢ close_brace
    size : length vs ≤ suc (length others)
    written : (b : Bytes) → write_elements write b vs ≡ (b ++ first ∷ others) ++ comma ∷ []
    reads :
        (fuel : ℕ) (done : List V) (rest : Bytes)
        → length vs ≤ fuel
        → parse_items read fuel done (first ∷ (others ++ close_brace ∷ rest))
          ≡ ok (done ++ vs, rest)

  items_one : (v : V) → Reads write read v → ReadsItems (v ∷ [])
  unfolding write_elements parse_items
  items_one v r = record {
    first = r.first;
    others = r.others;
    text = r.text;
    opens = r.opens;
    size = omega arith;
    written = λ b. ap (λ t. t ++ comma ∷ []) (r.written b);
    reads = elim [
      | zero ↦ λ done rest h. absurd (omega arith)
      | suc fuel ↦ λ done rest h. rw (r.reads close_brace rest (unfold member in refl)) refl
    ];
  }

  items_more : (v : V) (vs : List V) → Reads write read v → ReadsItems vs → ReadsItems (v ∷ vs)
  unfolding write_elements parse_items
  items_more v vs r q = record {
    first = r.first;
    others = r.others ++ comma ∷ q.first ∷ q.others;
    text =
        All-append _ (r.first ∷ r.others) (comma ∷ q.first ∷ q.others) r.text
          ((omega arith), q.text);
    opens = r.opens;
    size = omega (arith, length-append r.others (comma ∷ q.first ∷ q.others), q.size);
    written = λ b.
        q.written (write b v ++ comma ∷ [])
        ∙ ap (λ t. t ++ comma ∷ [])
            (ap (λ t. (t ++ comma ∷ []) ++ q.first ∷ q.others) (r.written b)
              ∙ ap (λ t. t ++ q.first ∷ q.others) (append_assoc b (r.first ∷ r.others) (comma ∷ []))
              ∙ append_assoc b (r.first ∷ r.others ++ comma ∷ []) (q.first ∷ q.others)
              ∙ ap (λ t. b ++ r.first ∷ t)
                  (append_assoc r.others (comma ∷ []) (q.first ∷ q.others)));
    reads = elim [
      | zero ↦ λ done rest h. absurd (omega arith)
      | suc fuel ↦ λ done rest h.
          rw (append_assoc r.others (comma ∷ q.first ∷ q.others) (close_brace ∷ rest)) (
            rw (r.reads comma (q.first ∷ (q.others ++ close_brace ∷ rest)) (unfold member in refl))
              (q.reads fuel (done ++ v ∷ []) rest (omega arith)
                ∙ ap (λ t. ok (t, rest)) (append_assoc done (v ∷ []) vs)))
    ];
  }

  items : (v : V) (vs : List V) → All (Reads write read) (v ∷ vs) → ReadsItems (v ∷ vs)
  items v [] r = items_one v r.0
  items v (w ∷ vs) r = items_more v (w ∷ vs) r.0 (items w vs r.1)

  -- A container of such values is written and read back, whatever stands behind it.
  pub record ReadsArray (vs : List V) : Type 0 where
    pub others : Bytes
    pub text : IsText others
    pub written : (b : Bytes) → write_array write b vs ≡ b ++ open_brace ∷ others
    pub reads : (rest : Bytes) → parse_array read (open_brace ∷ (others ++ rest)) ≡ ok (vs, rest)

  array_some : (v : V) (vs : List V) → ReadsItems (v ∷ vs) → ReadsArray (v ∷ vs)
  unfolding write_array parse_array parse_body
  array_some v vs q = record {
    others = (q.first ∷ q.others) ++ close_brace ∷ [];
    text = All-append _ (q.first ∷ q.others) (close_brace ∷ []) q.text (omega arith);
    written = λ b.
        ap (set_last close_brace) (q.written (b ++ open_brace ∷ []))
        ∙ set_last-append close_brace comma ((b ++ open_brace ∷ []) ++ q.first ∷ q.others)
        ∙ ap (λ t. t ++ close_brace ∷ []) (append_assoc b (open_brace ∷ []) (q.first ∷ q.others))
        ∙ append_assoc b (open_brace ∷ q.first ∷ q.others) (close_brace ∷ []);
    reads = λ rest. rw (append_assoc q.others (close_brace ∷ []) rest) (
        let e : (q.first == close_brace) ≡ false = ne-false q.first close_brace q.opens in
        rw e (
          q.reads (suc (suc (length (q.others ++ close_brace ∷ rest)))) [] rest
            (omega (arith, length-append q.others (close_brace ∷ rest), q.size))));
  }

  pub array-ReadsArray : (vs : List V) → All (Reads write read) vs → ReadsArray vs
  unfolding write_array parse_array parse_body
  array-ReadsArray [] r = record {
    others = close_brace ∷ [];
    text = omega arith;
    written = λ b. append_assoc b (open_brace ∷ []) (close_brace ∷ []);
    reads = λ rest. refl;
  }
  array-ReadsArray (v ∷ vs) r = array_some v vs (items v vs r)

module _ {A : Type 0} (t : Traits A) where
  -- What the traits of an element's type promise at a value: its text is appended by `array_append`
  -- and is read back by `from`, or it is the null of its type and is written as NULL.
  abbrev pub Writes : A → Type 0
  Writes v =
      ((s : Bytes) × IsText s
        × ((b : Bytes) → t.element b v ≡ array_append b s)
        × (t.from s ≡ ok v))
      ⊎ (((b : Bytes) → t.element b v ≡ b ++ null_text) × (t.null ≡ some v))

  element_Reads : (v : A) → Writes v → Reads t.element (parse_element t) v
  element_Reads v (inl (s, text, w, r)) =
      let (c, cs, e, n) = element_text-nonempty s in
      record {
        first = c;
        others = cs;
        text = subst IsText e (element_text-IsText s text);
        opens = n;
        written = λ b. w b ∙ array_append-element_text b s ∙ ap (◌++◌ b) e;
        reads = λ d rest m.
            ap (λ u. parse_element t (u ++ d ∷ rest)) (sym e)
            ∙ parse_element-element_text t s d rest m
            ∙ (rw r);
      }
  element_Reads v (inr (w, e)) = record {
    first = b'N';
    others = codes "ULL";
    text = omega arith;
    opens = omega arith;
    written = w;
    reads = λ d rest m. parse_element_null t v d rest e m;
  }

  -- Every element of a value, at any depth.
  abbrev pub Storable : (s : Shape) → Value A s → Type 0
  Storable Shape.element v = Writes v
  Storable (array s) vs = All (Storable s) vs

  array_Reads :
      (s : Shape) (vs : List (Value A s))
      → ReadsArray (to_array t s) (parse t s) vs
      → Reads (to_array t (array s)) (parse t (array s)) vs
  unfolding to_array parse
  array_Reads s vs r = record {
    first = open_brace;
    others = r.others;
    text = (omega arith, r.text);
    opens = omega arith;
    written = r.written;
    reads = λ d rest m. r.reads (d ∷ rest);
  }

  value_Reads : (s : Shape) (v : Value A s) → Storable s v → Reads (to_array t s) (parse t s) v
  value_Reads Shape.element v h = unfold to_array parse in element_Reads v h
  value_Reads (array s) vs h =
      array_Reads s vs
        (array-ReadsArray (to_array t s) (parse t s) vs (All-map (value_Reads s) vs h))

  -- What is passed to the server for a container, at any depth of nesting, is read back as the
  -- same container, if each element's text holds no zero byte and is read back as the element, or
  -- the element is the null of its type.
  pub from-parameter_value :
      (s : Shape) (vs : List (Value A s))
      → Storable (array s) vs
      → from t s (parameter_value t s vs) ≡ ok vs
  unfolding from parameter_value
  from-parameter_value s vs h =
      let r : ReadsArray (to_array t s) (parse t s) vs =
        array-ReadsArray (to_array t s) (parse t s) vs (All-map (value_Reads s) vs h) in
      let e : to_array t (array s) [] vs ≡ open_brace ∷ r.others =
        unfold to_array in r.written [] in
      let p : parse t (array s) (open_brace ∷ r.others) ≡ ok (vs, []) =
        unfold parse in
        (ap (λ u. parse_array (parse t s) (open_brace ∷ u)) (sym (append-nil r.others))
          ∙ r.reads []) in
      rw (e, c_str-IsText (open_brace ∷ r.others) (omega arith, r.text), p) refl
