-- ===== src/CopyText/Buffer.antt =====
-- The buffer of `parse_data`: what was written, a gap of bytes that are not needed any more, and
-- what is still to be read.
use taopq.Base.{
  ℕ, zero, suc, ◌+◌, ◌≤◌, ◌≡◌, refl, sym, ap, ◌∙◌, [], ◌∷◌, ◌++◌, append_assoc, append-nil, length,
  length-append, Bytes, arith,
}
use taopq.CopyText.{Reader, from_offset, store, move_prefix, put, start_field}

pub from_offset-append : (a b : Bytes) → from_offset (length a) (a ++ b) ≡ b
unfolding from_offset
from_offset-append [] b = refl
from_offset-append (x ∷ a) b = from_offset-append a b

length-from_offset : (n : ℕ) (s : Bytes) → n ≤ length s → length (from_offset n s) + n ≡ length s
unfolding from_offset
length-from_offset zero s h = omega arith
length-from_offset (suc n) [] h = omega (arith, h)
length-from_offset (suc n) (c ∷ s) h = omega (arith, length-from_offset n s (omega (arith, h)))

store-gap :
    (bs g rest : Bytes)
    → length bs ≤ length g
    → store 0 bs (g ++ rest) ≡ bs ++ (from_offset (length bs) g ++ rest)
unfolding store from_offset
store-gap [] g rest h = refl
store-gap (b ∷ bs) [] rest h = absurd (omega (arith, h))
store-gap (b ∷ bs) (c ∷ g) rest h = ap (◌∷◌ b) (store-gap bs g rest (omega (arith, h)))

store-append :
    (a bs g rest : Bytes)
    → length bs ≤ length g
    → store (length a) bs (a ++ (g ++ rest)) ≡ a ++ (bs ++ (from_offset (length bs) g ++ rest))
unfolding store
store-append [] bs g rest h = store-gap bs g rest h
store-append (x ∷ a) bs g rest h = ap (◌∷◌ x) (store-append a bs g rest h)

-- The buffer is `front`, the field in progress, the gap, and `rest` at the offset `n`.
pub record Holds (r : Reader) (n : ℕ) (front field gap rest : Bytes) : Type 0 where
  pub buffer : r.buffer ≡ (front ++ field) ++ (gap ++ rest)
  pub begin : r.begin ≡ length front
  pub write : r.write ≡ length (front ++ field)
  pub read : n ≡ r.write + length gap

stored :
    (r : Reader) (front field gap rest bs : Bytes)
    → r.buffer ≡ (front ++ field) ++ (gap ++ rest)
    → r.write ≡ length (front ++ field)
    → length bs ≤ length gap
    → store r.write bs r.buffer ≡ (front ++ (field ++ bs)) ++ (from_offset (length bs) gap ++ rest)
stored r front field gap rest bs b w l =
    ap (λ x. store x bs r.buffer) w
    ∙ ap (store (length (front ++ field)) bs) b
    ∙ store-append (front ++ field) bs gap rest l
    ∙ sym (append_assoc (front ++ field) bs _)
    ∙ ap (λ x. x ++ (from_offset (length bs) gap ++ rest)) (append_assoc front field bs)

length-written :
    (w : ℕ) (front field bs : Bytes)
    → w ≡ length (front ++ field)
    → w + length bs ≡ length (front ++ (field ++ bs))
length-written w front field bs e =
    omega (
      arith,
      e,
      length-append front field,
      length-append front (field ++ bs),
      length-append field bs,
    )

pub move_prefix-Holds :
    (r : Reader) (n : ℕ) (front field gap before rest : Bytes)
    → Holds r n front field gap (before ++ rest)
    → Holds
        (move_prefix r before)
        (n + length before)
        front
        (field ++ before)
        (from_offset (length before) (gap ++ before))
        rest
unfolding move_prefix
move_prefix-Holds r n front field gap before rest h =
    let l : length before ≤ length (gap ++ before) = omega (arith, length-append gap before) in
    record {
      buffer =
          stored r front field (gap ++ before) rest before
            (h.buffer ∙ ap (◌++◌ (front ++ field)) (sym (append_assoc gap before rest))) h.write l;
      begin = h.begin;
      write = length-written r.write front field before h.write;
      read = omega (
        arith,
        h.read,
        length-append gap before,
        length-from_offset (length before) (gap ++ before) l,
      );
    }

-- A byte is read past.
pub skip-Holds :
    (r : Reader) (n c : ℕ) (front field gap rest : Bytes)
    → Holds r n front field gap (c ∷ rest)
    → Holds r (suc n) front field (gap ++ c ∷ []) rest
skip-Holds r n c front field gap rest h = record {
  buffer = h.buffer ∙ ap (◌++◌ (front ++ field)) (sym (append_assoc gap (c ∷ []) rest));
  begin = h.begin;
  write = h.write;
  read = omega (arith, h.read, length-append gap (c ∷ []));
}

pub put-Holds :
    (r : Reader) (n c : ℕ) (front field gap rest : Bytes)
    → Holds r n front field gap rest
    → 1 ≤ length gap
    → Holds (put r c) n front (field ++ c ∷ []) (from_offset 1 gap) rest
unfolding put
put-Holds r n c front field gap rest h l = record {
  buffer = stored r front field gap rest (c ∷ []) h.buffer h.write l;
  begin = h.begin;
  write = omega (arith, length-written r.write front field (c ∷ []) h.write);
  read = omega (arith, h.read, length-from_offset 1 gap l);
}

-- What was read so far is left behind.
pub start_field-Holds :
    (r : Reader) (n : ℕ) (front field gap rest : Bytes)
    → Holds r n front field gap rest
    → Holds (start_field r n) n (front ++ (field ++ gap)) [] [] rest
unfolding start_field
start_field-Holds r n front field gap rest h =
    let e : n ≡ length (front ++ (field ++ gap)) = omega (
      arith,
      h.read,
      h.write,
      length-append front field,
      length-append front (field ++ gap),
      length-append field gap,
    ) in
    record {
      buffer =
          h.buffer
          ∙ sym (append_assoc (front ++ field) gap rest)
          ∙ ap (λ x. x ++ rest) (append_assoc front field gap)
          ∙ ap (λ x. x ++ rest) (sym (append-nil (front ++ (field ++ gap))));
      begin = e;
      write = e ∙ ap length (sym (append-nil (front ++ (field ++ gap))));
      read = omega arith;
    }

-- What is at the offset that is read next.
pub from_offset-Holds :
    (r : Reader) (n : ℕ) (front field gap rest : Bytes)
    → Holds r n front field gap rest
    → from_offset n r.buffer ≡ rest
from_offset-Holds r n front field gap rest h =
    let e : n ≡ length ((front ++ field) ++ gap) =
      omega (arith, h.read, h.write, length-append (front ++ field) gap) in
    ap (λ x. from_offset x r.buffer) e
    ∙ ap (from_offset (length ((front ++ field) ++ gap)))
        (h.buffer ∙ sym (append_assoc (front ++ field) gap rest))
    ∙ from_offset-append ((front ++ field) ++ gap) rest
