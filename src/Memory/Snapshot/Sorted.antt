-- ===== src/Memory/Snapshot/Sorted.antt =====
-- sort.Slice and sort.Strings, as an insertion sort by a key that is a string.
use dagworker.Base.{
  ◌≡◌, refl, ap, ◌∙◌, true, false, List, [], ◌∷◌, if◌then◌else◌, any, Text, text_eq, text_eq_iff,
  text_lt, All, arith, Bool-cases, inl, inr,
}

pub text_lt-asym : (x y : Text) → text_lt x y ≡ true → text_lt y x ≡ false
unfolding text_lt
text_lt-asym x [] e = absurd (ground arith)
text_lt-asym [] (b ∷ ys) e = refl
text_lt-asym (a ∷ xs) (b ∷ ys) e = ground (arith, text_lt-asym xs ys)

text_eq_sym : (x y : Text) → text_eq x y ≡ false → text_eq y x ≡ false
text_eq_sym x y e = ground (arith, text_eq_iff x y, text_eq_iff y x)

module _ {ℓ} {A : Type ℓ} (key : A → Text) where
  unfoldable pub insert_by : A → List A → List A
  insert_by n [] = n ∷ []
  insert_by n (m ∷ ms) =
      let rest = m ∷ insert_by n ms in if text_lt (key m) (key n) then rest else n ∷ m ∷ ms

  unfoldable pub sort_by : List A → List A
  unfolding insert_by
  sort_by [] = []
  sort_by (n ∷ ns) = insert_by n (sort_by ns)

  -- No element before one of a smaller key.
  unfoldable pub Ordered : List A → Type 0
  Ordered [] = Unit
  Ordered (n ∷ []) = Unit
  Ordered (n ∷ m ∷ ns) = (text_lt (key m) (key n) ≡ false) × Ordered (m ∷ ns)

  -- No two elements of one key.
  unfoldable pub Distinct : List A → Type 0
  Distinct [] = Unit
  Distinct (n ∷ ns) = All (λ m. text_eq (key n) (key m) ≡ false) ns × Distinct ns

  abbrev pub IsListed : List A → Text → Type 0
  IsListed ns id = any (λ n. text_eq (key n) id) ns ≡ true

  insert_by-Ordered : (n : A) (ns : List A) → Ordered ns → Ordered (insert_by n ns)
  unfolding insert_by Ordered
  insert_by-Ordered n [] o = tt
  insert_by-Ordered n (m ∷ []) o = elim (Bool-cases (text_lt (key m) (key n))) [
    | inl less ↦ rw less (text_lt-asym (key m) (key n) less, tt)
    | inr more ↦ rw more (more, tt)
  ]
  insert_by-Ordered n (m ∷ k ∷ ns) (o, os) =
      let ih = insert_by-Ordered n (k ∷ ns) os in
      elim (Bool-cases (text_lt (key m) (key n))) [
        | inl less ↦ elim (Bool-cases (text_lt (key k) (key n))) [
          | inl less' ↦ rw (less, less') (o, rw less' at ih)
          | inr more' ↦ rw (less, more') (text_lt-asym (key m) (key n) less, rw more' at ih)
        ]
        | inr more ↦ rw more (more, (o, os))
      ]

  pub sort_by-Ordered : (ns : List A) → Ordered (sort_by ns)
  unfolding sort_by Ordered
  sort_by-Ordered [] = tt
  sort_by-Ordered (n ∷ ns) = insert_by-Ordered n (sort_by ns) (sort_by-Ordered ns)

  pub insert_by-All {κ} :
      (P : A → Type κ) (n : A) (ns : List A) → P n → All P ns → All P (insert_by n ns)
  unfolding insert_by
  insert_by-All P n [] h hs = (h, tt)
  insert_by-All P n (m ∷ ns) h (x, xs) = elim (Bool-cases (text_lt (key m) (key n))) [
    | inl less ↦ rw less (x, insert_by-All P n ns h xs)
    | inr more ↦ rw more (h, (x, xs))
  ]

  pub sort_by-All {κ} : (P : A → Type κ) (ns : List A) → All P ns → All P (sort_by ns)
  unfolding sort_by
  sort_by-All P [] h = tt
  sort_by-All P (n ∷ ns) (h, hs) = insert_by-All P n (sort_by ns) h (sort_by-All P ns hs)

  insert_by-Distinct :
      (n : A) (ns : List A)
      → All (λ m. text_eq (key n) (key m) ≡ false) ns
      → Distinct ns
      → Distinct (insert_by n ns)
  unfolding insert_by Distinct
  insert_by-Distinct n [] h d = (tt, tt)
  insert_by-Distinct n (m ∷ ns) (h, hs) (d, ds) = elim (Bool-cases (text_lt (key m) (key n))) [
    | inl less ↦ rw less (
      insert_by-All (λ k. text_eq (key m) (key k) ≡ false) n ns (text_eq_sym (key n) (key m) h) d,
      insert_by-Distinct n ns hs ds,
    )
    | inr more ↦ rw more ((h, hs), (d, ds))
  ]

  pub sort_by-Distinct : (ns : List A) → Distinct ns → Distinct (sort_by ns)
  unfolding sort_by Distinct
  sort_by-Distinct [] d = tt
  sort_by-Distinct (n ∷ ns) (h, d) =
      insert_by-Distinct n (sort_by ns) (sort_by-All (λ m. text_eq (key n) (key m) ≡ false) ns h)
        (sort_by-Distinct ns d)

  insert_by-IsListed :
      (n : A) (ns : List A) (id : Text) → IsListed (n ∷ ns) id → IsListed (insert_by n ns) id
  unfolding insert_by
  insert_by-IsListed n [] id e = e
  insert_by-IsListed n (m ∷ ns) id e = elim (Bool-cases (text_lt (key m) (key n))) [
    | inl less ↦ rw less (ground (arith, insert_by-IsListed n ns id))
    | inr more ↦ rw more e
  ]

  pub sort_by-IsListed : (ns : List A) (id : Text) → IsListed ns id → IsListed (sort_by ns) id
  unfolding sort_by
  sort_by-IsListed [] id e = e
  sort_by-IsListed (n ∷ ns) id e =
      insert_by-IsListed n (sort_by ns) id (ground (arith, sort_by-IsListed ns id))

  insert_by-head : (n : A) (ns : List A) → Ordered (n ∷ ns) → insert_by n ns ≡ n ∷ ns
  unfolding insert_by Ordered
  insert_by-head n [] o = refl
  insert_by-head n (m ∷ ns) (o, _o) = rw o refl

  tail-Ordered : (n : A) (ns : List A) → Ordered (n ∷ ns) → Ordered ns
  unfolding Ordered
  tail-Ordered n [] o = tt
  tail-Ordered n (m ∷ ns) (_o, o) = o

  pub sort_by-fixed : (ns : List A) → Ordered ns → sort_by ns ≡ ns
  unfolding sort_by
  sort_by-fixed [] o = refl
  sort_by-fixed (n ∷ ns) o =
      ap (insert_by n) (sort_by-fixed ns (tail-Ordered n ns o)) ∙ insert_by-head n ns o
