-- ===== src/Download/Range.antt =====
-- The slices of a download read exactly its range.
use sia_optimization_proposa.Prelude.{
  ℕ, zero, suc, ◌+◌, ◌-◌, ◌≤◌, ◌<◌, ◌≡◌, refl, ap, ap₂, sym, subst, ◌∙◌, arith, some, List, [], ◌∷◌,
  ◌++◌, ltb, leb, length, take, drop, All, Bool-cases, inl, inr, length-take, length-drop, if-true,
  if-false,
}
use mathlib.Core.List.{append-nil}
use sia_optimization_proposa.Prelude.Words.{u32_mod, add32, sub32, add32_exact, sub32_exact}
use sia_optimization_proposa.Slab.Cells.{drop-drop, drop_all, take_all}
use sia_optimization_proposa.Slab.Join.{drop-append, take-append}
use sia_optimization_proposa.Slab.Slices.{take-take}
use sia_optimization_proposa.Download.{
  Slice, cast32, first_from, cut_first, last_to, set_last, cut_last, slabs_for_download,
}

drop-take : (k n : ℕ) (xs : List ℕ) → drop k (take n xs) ≡ take (n - k) (drop k xs)
drop-take zero zero xs = ap (λ m. take m xs) {x = 0} {y = 0 - 0} (omega arith)
drop-take zero (suc n) [] = ap (λ m. take {A = ℕ} m []) {x = suc n} {y = suc n - 0} (omega arith)
drop-take zero (suc n) (x ∷ xs) =
    ap (λ m. take m (x ∷ xs)) {x = suc n} {y = suc n - 0} (omega arith)
drop-take (suc k) zero xs = ap (λ m. take m (drop (suc k) xs)) {x = 0} {y = 0 - suc k} (omega arith)
drop-take (suc k) (suc n) [] = sym (take_all (suc n - suc k) [] (omega arith))
drop-take (suc k) (suc n) (x ∷ xs) =
    drop-take k n xs ∙ ap (λ m. take m (drop k xs)) {x = n - k} {y = suc n - suc k} (omega arith)

module _ (content : ℕ → List ℕ) where
  -- The bytes of a slice, and of slices one after the other.
  abbrev pub read_slice : Slice → List ℕ
  read_slice ss = take ss.size (drop ss.start (content ss.slab))

  abbrev pub read : List Slice → List ℕ
  read [] = []
  read (ss ∷ rest) = read_slice ss ++ read rest

  abbrev pub total_size : List Slice → ℕ
  total_size [] = 0
  total_size (ss ∷ rest) = ss.size + total_size rest

  -- A slice lies in its slab, whose bytes are counted in 32 bits.
  abbrev pub Inside : Slice → Type 0
  Inside ss = (ss.start + ss.size ≤ length (content ss.slab)) × (length (content ss.slab) < u32_mod)

  length-read_slice : (ss : Slice) → Inside ss → length (read_slice ss) ≡ ss.size
  length-read_slice ss h = omega (
    arith,
    h.0,
    length-take ss.size (drop ss.start (content ss.slab)),
    length-drop ss.start (content ss.slab),
  )

  -- What the first loop finds.
  record IsFirst (offset : ℕ) (slabs : List Slice) (r : List Slice × ℕ) : Type 0 where
    ss : Slice
    rest : List Slice
    left : ℕ
    found : r ≡ (ss ∷ rest, left)
    in_it : left < ss.size
    inside : All Inside (ss ∷ rest)
    same : drop offset (read slabs) ≡ drop left (read (ss ∷ rest))
    sizes : left + total_size slabs ≡ offset + total_size (ss ∷ rest)

  first_from-IsFirst :
      (offset : ℕ) (all slabs : List Slice)
      → All Inside slabs
      → offset < total_size slabs
      → IsFirst offset slabs (first_from offset all slabs)
  unfolding first_from
  first_from-IsFirst offset all [] h b = absurd (omega (arith, b))
  first_from-IsFirst offset all (ss ∷ rest) h b = elim (Bool-cases (ltb offset ss.size)) [
    | inl e ↦ record {
      ss = ss;
      rest = rest;
      left = offset;
      found = if-true (ltb offset ss.size) _ _ e;
      in_it = ground (arith, e);
      inside = h;
      same = refl;
      sizes = refl;
    }
    | inr e ↦
        let next = first_from-IsFirst (offset - ss.size) all rest h.1 (ground (arith, e, b)) in
        record {
          ss = next.ss;
          rest = next.rest;
          left = next.left;
          found = if-false (ltb offset ss.size) _ _ e ∙ next.found;
          in_it = next.in_it;
          inside = next.inside;
          same =
              drop-append offset (read_slice ss) (read rest)
              ∙ ap₂ (λ (a : List ℕ) (k : ℕ). a ++ drop k (read rest))
                  (drop_all offset (read_slice ss) (ground (arith, e, length-read_slice ss h.0)))
                  (omega (arith, length-read_slice ss h.0))
              ∙ next.same;
          sizes = ground (arith, e, next.sizes);
        }
  ]

  -- A slice that is cut in front.
  cut_front :
      (left : ℕ) (ss : Slice)
      → left < ss.size
      → Inside ss
      → (cut : Slice) × (cut ≡ record ss { start = add32 ss.start left; size = sub32 ss.size left })
        × Inside cut
        × (read_slice cut ≡ drop left (read_slice ss))
        × (cut.size + left ≡ ss.size)
  cut_front left ss b h = (
    record ss { start = ss.start + left; size = ss.size - left },
    exact (sym (add32_exact ss.start left (omega (arith, b, h.0, h.1))))
        (sym (sub32_exact ss.size left (omega (arith, b)) (omega (arith, h.0, h.1)))),
    (omega (arith, b, h.0), h.1),
    ap (take (ss.size - left)) (sym (drop-drop ss.start left (content ss.slab)))
        ∙ sym (drop-take left ss.size (drop ss.start (content ss.slab))),
    omega (arith, b),
  )
    where
      exact :
          {a b c d : ℕ}
          → a ≡ b
          → c ≡ d
          → ◌≡◌ {A = Slice} (record ss { start = a; size = c }) (record ss { start = b; size = d })
      exact p q i = record ss { start = p i; size = q i }

  -- The second loop, with the cut behind it.
  record IsLast (n : ℕ) (slabs : List Slice) (r : List Slice × ℕ) : Type 0 where
    small : r.1 < u32_mod
    reads : read (set_last r.1 r.0) ≡ take n (read slabs)
    not_empty : 0 < length r.0

  set_last-cons :
      (n : ℕ) (ss : Slice) (rest : List Slice)
      → 0 < length rest
      → set_last n (ss ∷ rest) ≡ ss ∷ set_last n rest
  set_last-cons n ss [] h = absurd (omega (arith, h))
  set_last-cons n ss (s2 ∷ rest) h = refl

  IsLast-here :
      (n : ℕ) (ss : Slice) (rest : List Slice)
      → Inside ss
      → n ≤ ss.size
      → IsLast n (ss ∷ rest) (ss ∷ [], n)
  IsLast-here n ss rest h b = record {
    small = omega (arith, b, h.0, h.1);
    reads =
        append-nil (take n (drop ss.start (content ss.slab)))
        ∙ sym (
            take-append n (read_slice ss) (read rest)
            ∙ ap₂ (λ (a : List ℕ) (k : ℕ). a ++ take k (read rest)) {v = 0}
                (take-take 0 n ss.size (drop ss.start (content ss.slab)) b)
                (omega (arith, length-read_slice ss h, b))
            ∙ append-nil (take n (drop ss.start (content ss.slab))));
    not_empty = omega arith;
  }

  IsLast-later :
      (n : ℕ) (ss : Slice) (rest : List Slice) (r : List Slice × ℕ)
      → Inside ss
      → ss.size < n
      → IsLast (n - ss.size) rest r
      → IsLast n (ss ∷ rest) (ss ∷ r.0, r.1)
  IsLast-later n ss rest r h b l = record {
    small = l.small;
    reads =
        ap read (set_last-cons r.1 ss r.0 l.not_empty)
        ∙ ap (λ (xs : List ℕ). read_slice ss ++ xs) l.reads
        ∙ sym (
            take-append n (read_slice ss) (read rest)
            ∙ ap₂ (λ (a : List ℕ) (k : ℕ). a ++ take k (read rest))
                (take_all n (read_slice ss) (omega (arith, length-read_slice ss h, b)))
                (omega (arith, length-read_slice ss h)));
    not_empty = omega arith;
  }

  last_to-IsLast :
      (n : ℕ) (ss : Slice) (rest : List Slice)
      → All Inside (ss ∷ rest)
      → n ≤ total_size (ss ∷ rest)
      → IsLast n (ss ∷ rest) (last_to n (ss ∷ rest))
  unfolding last_to
  last_to-IsLast n ss [] h b =
      subst (IsLast n (ss ∷ [])) (sym (if-true (leb n ss.size) _ _ (ground (arith, b))))
        (IsLast-here n ss [] h.0 (omega (arith, b)))
  last_to-IsLast n ss (s2 ∷ rest) h b = elim (Bool-cases (leb n ss.size)) [
    | inl e ↦
        subst (IsLast n (ss ∷ s2 ∷ rest)) (sym (if-true (leb n ss.size) _ _ e))
          (IsLast-here n ss (s2 ∷ rest) h.0 (ground (arith, e)))
    | inr e ↦ subst (IsLast n (ss ∷ s2 ∷ rest)) (sym (if-false (leb n ss.size) _ _ e)) (
        IsLast-later n ss (s2 ∷ rest) (last_to (n - ss.size) (s2 ∷ rest)) h.0 (ground (arith, e))
          (last_to-IsLast (n - ss.size) s2 rest h.1 (omega (arith, b))))
  ]

  cast_small : (k : ℕ) → k < u32_mod → cast32 k ≡ some k
  unfolding cast32
  cast_small k h = if-true (ltb k u32_mod) _ _ (ground (arith, h))

  cut_first_lem :
      (left : ℕ) (ss : Slice) (rest : List Slice)
      → left < u32_mod
      → cut_first (ss ∷ rest, left)
        ≡ some (record ss { start = add32 ss.start left; size = sub32 ss.size left } ∷ rest)
  unfolding cut_first
  cut_first_lem left ss rest h = rw (cut_first, cast_small left h) refl

  cut_last_lem : (r : List Slice × ℕ) → r.1 < u32_mod → cut_last r ≡ some (set_last r.1 r.0)
  unfolding cut_last
  cut_last_lem r h = rw (cut_last, cast_small r.1 h) refl

  slabs_for_download_lem :
      (slabs cut : List Slice) (offset n : ℕ)
      → cut_first (first_from offset slabs slabs) ≡ some cut
      → slabs_for_download slabs offset n ≡ cut_last (last_to n cut)
  unfolding slabs_for_download
  slabs_for_download_lem slabs cut offset n e = rw (slabs_for_download, e) refl

  -- For slices that lie in their slabs, of fewer than 2 ^ 32 bytes each, and a range in their
  -- bytes that starts before the end, `slabsForDownload` does not panic, and its slices read exactly
  -- the bytes of the range.
  pub slabs_for_download-read :
      (slabs : List Slice) (offset n : ℕ)
      → All Inside slabs
      → offset < total_size slabs
      → offset + n ≤ total_size slabs
      → (cut : List Slice) × (slabs_for_download slabs offset n ≡ some cut)
        × (read cut ≡ take n (drop offset (read slabs)))
  slabs_for_download-read slabs offset n h b fits =
      let f = first_from-IsFirst offset slabs slabs h b in
      let (c, c_is, c_in, c_reads, c_size) = cut_front f.left f.ss f.in_it f.inside.0 in
      let l = last_to-IsLast n c f.rest (c_in, f.inside.1) (omega (arith, f.sizes, c_size, fits)) in
      (
        set_last (last_to n (c ∷ f.rest)).1 (last_to n (c ∷ f.rest)).0,
        slabs_for_download_lem slabs (c ∷ f.rest) offset n (
              ap cut_first f.found
              ∙ cut_first_lem f.left f.ss f.rest
                  (omega (arith, f.in_it, f.inside.0.0, f.inside.0.1))
              ∙ ap (λ (x : Slice). some (x ∷ f.rest)) (sym c_is))
            ∙ cut_last_lem (last_to n (c ∷ f.rest)) l.small,
        l.reads
            ∙ ap (take n) (
                ap (λ (xs : List ℕ). xs ++ read f.rest) c_reads
                ∙ sym (
                    drop-append f.left (read_slice f.ss) (read f.rest)
                    ∙ ap (λ k. drop f.left (read_slice f.ss) ++ drop k (read f.rest))
                        {x = f.left - length (read_slice f.ss)} {y = 0}
                        (omega (arith, length-read_slice f.ss f.inside.0, f.in_it)))
                ∙ sym f.same),
      )
