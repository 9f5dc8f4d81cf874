-- ===== src/Evidence/Context/Sorting.antt =====
-- The orders of src/payops/evidence/context.py lose and invent nothing.
use pay_ops.Base.{
  ℕ, suc, String, Bool, true, false, ◌≡◌, refl, List, [], ◌∷◌, map, All, length, arith, Bool-cases,
  inl, inr,
}
use pay_ops.Contracts.{Source, EvidenceItem}
use pay_ops.Evidence.Context.{insert, sorted, ranked, rank_le, recent_le, ordered}

module _ {A : Type 0} (le : A → A → Bool) where
  length-insert : (x : A) (xs : List A) → length (insert le x xs) ≡ suc (length xs)
  length-insert x [] = refl
  length-insert x (y ∷ ys) = ground (arith, length-insert x ys)

  pub length-sorted : (xs : List A) → length (sorted le xs) ≡ length xs
  unfolding sorted
  length-sorted [] = refl
  length-sorted (x ∷ xs) = omega (arith, length-insert x (sorted le xs), length-sorted xs)

  module _ (P : A → Type 0) where
    All-insert : (x : A) (xs : List A) → P x → All P xs → All P (insert le x xs)
    All-insert x [] h hs = (h, tt)
    All-insert x (y ∷ ys) h hs = elim (Bool-cases (le x y)) [
      | inl e ↦ rw e (h, hs)
      | inr e ↦ rw e (hs.0, All-insert x ys h hs.1)
    ]

    pub All-sorted : (xs : List A) → All P xs → All P (sorted le xs)
    unfolding sorted
    All-sorted [] hs = hs
    All-sorted (x ∷ xs) hs = All-insert x (sorted le xs) hs.0 (All-sorted xs hs.1)

module _ (P : EvidenceItem → Type 0) where
  All-ranked :
      (seen : List (Source × String)) (index : ℕ) (xs : List EvidenceItem)
      → All P xs
      → All (λ (_, _, e). P e) (ranked seen index xs)
  All-ranked seen index [] h = tt
  All-ranked seen index (x ∷ xs) h = (h.0, All-ranked _ (suc index) xs h.1)

  All-entries :
      (xs : List (ℕ × ℕ × EvidenceItem))
      → All (λ (_, _, e). P e) xs
      → All P (map (λ (_, _, e). e) xs)
  All-entries [] h = tt
  All-entries (x ∷ xs) h = (h.0, All-entries xs h.1)

  -- What holds of all items holds of the ordered ones.
  pub All-ordered :
      (text_le : String → String → Bool) (recent : Bool) (preferred signaled : List String)
      (xs : List EvidenceItem)
      → All P xs
      → All P (ordered text_le recent preferred signaled xs)
  unfolding ordered
  All-ordered text_le false preferred signaled xs h = All-sorted _ P xs h
  All-ordered text_le true preferred signaled xs h = All-entries _ (
      All-sorted rank_le (λ (_, _, e). P e) _
        (All-ranked [] 0 _ (All-sorted (recent_le text_le signaled preferred) P xs h)))

length-ranked :
    (seen : List (Source × String)) (index : ℕ) (xs : List EvidenceItem)
    → length (ranked seen index xs) ≡ length xs
length-ranked seen index [] = refl
length-ranked seen index (x ∷ xs) =
    omega (arith, length-ranked ((x.source, x.resource) ∷ seen) (suc index) xs)

length-entries : (xs : List (ℕ × ℕ × EvidenceItem)) → length (map (λ (_, _, e). e) xs) ≡ length xs
length-entries [] = refl
length-entries (x ∷ xs) = omega (arith, length-entries xs)

pub length-ordered :
    (text_le : String → String → Bool) (recent : Bool) (preferred signaled : List String)
    (xs : List EvidenceItem)
    → length (ordered text_le recent preferred signaled xs) ≡ length xs
unfolding ordered
length-ordered text_le false preferred signaled xs = length-sorted _ xs
length-ordered text_le true preferred signaled xs =
    let newest = sorted (recent_le text_le signaled preferred) xs in
    omega (
      arith,
      length-entries (sorted rank_le (ranked [] 0 newest)),
      length-sorted rank_le (ranked [] 0 newest),
      length-ranked [] 0 newest,
      length-sorted (recent_le text_le signaled preferred) xs,
    )
