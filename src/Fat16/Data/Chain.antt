-- ===== src/Fat16/Data/Chain.antt =====
-- Chains of clusters of kernel/filesystem/fat16.c.
use calm_os.Base.{
  ℕ, suc, ◌≤◌, ◌≡◌, ◌≢◌, ◌==◌, ◌||◌, Bool, true, false, List, [], ◌∷◌, some, refl, arith, ap, ◌∙◌,
  sym, subst, length, inl, inr, Bool-cases,
}
use calm_os.Disk.{Image, Disk}
use calm_os.Fat16.Clusters.{fat_get_cluster_value}

abbrev pub mem : ℕ → List ℕ → Bool
mem x [] = false
mem x (y ∷ ys) = y == x || mem x ys

module _ (d : Disk) (end : ℕ) where
  -- The clusters from one on, up to the mark of the end
  abbrev pub Chain : Image → ℕ → List ℕ → Type 0
  Chain m c [] = c ≡ end
  Chain m c (x ∷ xs) =
      (c ≡ x)
      × (c ≢ end)
      × (following : ℕ) × (fat_get_cluster_value d c m ≡ some following)
      × Chain m following xs

  -- A chain from a cluster is the only one.
  length-Chain :
      (m : Image) (c : ℕ) (xs ys : List ℕ) → Chain m c xs → Chain m c ys → length xs ≡ length ys
  length-Chain m c [] [] p q = refl
  length-Chain m c [] (y ∷ ys) p (e, ne, n, v, q) = absurd (ne p)
  length-Chain m c (x ∷ xs) [] (e, ne, n, v, p) q = absurd (ne q)
  length-Chain m c (x ∷ xs) (y ∷ ys) (e, ne, n, v, p) (f, nf, k, w, q) =
      let same : n ≡ k = cc in
      ap suc (length-Chain m n xs ys p (subst (λ z. Chain m z ys) (sym same) q))

  -- From a cluster of a chain its rest is a chain.
  rest_of :
      (m : Image) (c x : ℕ) (xs : List ℕ)
      → Chain m c xs
      → mem x xs ≡ true
      → (ys : List ℕ) × (length ys ≤ length xs) × Chain m x ys
  rest_of m c x [] p h = cc
  rest_of m c x (y ∷ ys) (e, ne, n, v, p) h = elim (Bool-cases (y == x)) [
    | inl s ↦ (
      y ∷ ys,
      omega arith,
      subst (λ z. Chain m z (y ∷ ys)) {x = c} (ground (arith, e, s)) (e, ne, n, v, p),
    )
    | inr o ↦ let (zs, l, q) = rest_of m n x ys p (ground (arith, h, o)) in (zs, omega arith, q)
  ]

  -- So no cluster comes twice.
  pub not_again :
      (m : Image) (c : ℕ) (xs : List ℕ) (n : ℕ)
      → c ≢ end
      → fat_get_cluster_value d c m ≡ some n
      → Chain m n xs
      → mem c xs ≡ false
  not_again m c xs n ne v p = elim (Bool-cases (mem c xs)) [
    | inl h ↦
        let (ys, l, q) = rest_of m n c xs p h in
        let same = length-Chain m c ys (c ∷ xs) q (refl, ne, n, v, p) in
        absurd (omega (arith, same, l))
    | inr fresh ↦ fresh
  ]

  -- An update of a cluster that is not on a chain leaves it a chain.
  pub Chain-kept :
      (m t : Image) (c : ℕ) (xs : List ℕ)
      → ((j : ℕ) → mem j xs ≡ true → fat_get_cluster_value d j t ≡ fat_get_cluster_value d j m)
      → Chain m c xs
      → Chain t c xs
  Chain-kept m t c [] k p = p
  Chain-kept m t c (x ∷ xs) k (e, ne, n, v, p) = (
    e,
    ne,
    n,
    k c (ground (arith, e)) ∙ v,
    Chain-kept m t n xs (λ j h. k j (ground (arith, h))) p,
  )
