-- ===== src/ProducerConsumerQueue/Rotation.antt =====
-- A circular array read from its offset on.
use easy_game_server.Prelude.{
  ℕ, zero, suc, ◌+◌, ◌≤◌, ◌<◌, ◌≡◌, refl, ap, ap₂, sym, ◌∙◌, some, List, [], ◌∷◌, ◌++◌, length,
  arith, take, drop, set, get_elem?, length-append, length-take, length-drop, append-nil,
  append_assoc, take_all, drop_all,
}

module _ {ℓ} {A : Type ℓ} where
  -- The array from index `i` to its end, and then up to `i`.
  abbrev pub rotate : ℕ → List A → List A
  rotate i xs = drop i xs ++ take i xs

  pub length-rotate : (i : ℕ) (xs : List A) → length (rotate i xs) ≡ length xs
  length-rotate i xs =
      omega (arith, length-append (drop i xs) (take i xs), length-take i xs, length-drop i xs)

  take-set_le : (n i : ℕ) (xs : List A) (v : A) → n ≤ i → take n (set xs i v) ≡ take n xs
  take-set_le zero i xs v h = refl
  take-set_le (suc n) i [] v h = refl
  take-set_le (suc n) zero (x ∷ xs) v h = absurd (omega arith)
  take-set_le (suc n) (suc i) (x ∷ xs) v h = ap (◌∷◌ x) (take-set_le n i xs v (omega arith))

  take-set_lt : (n i : ℕ) (xs : List A) (v : A) → i < n → take n (set xs i v) ≡ set (take n xs) i v
  take-set_lt zero i xs v h = absurd (omega arith)
  take-set_lt (suc n) i [] v h = refl
  take-set_lt (suc n) zero (x ∷ xs) v h = refl
  take-set_lt (suc n) (suc i) (x ∷ xs) v h = ap (◌∷◌ x) (take-set_lt n i xs v (omega arith))

  drop-set_lt : (n i : ℕ) (xs : List A) (v : A) → i < n → drop n (set xs i v) ≡ drop n xs
  drop-set_lt zero i xs v h = absurd (omega arith)
  drop-set_lt (suc n) i [] v h = refl
  drop-set_lt (suc n) zero (x ∷ xs) v h = refl
  drop-set_lt (suc n) (suc i) (x ∷ xs) v h = drop-set_lt n i xs v (omega arith)

  drop-set_add :
      (n i k : ℕ) (xs : List A) (v : A) → i ≡ n + k → drop n (set xs i v) ≡ set (drop n xs) k v
  drop-set_add zero i k xs v h = ap (λ j. set xs j v) (omega arith)
  drop-set_add (suc n) i k [] v h = refl
  drop-set_add (suc n) zero k (x ∷ xs) v h = absurd (omega arith)
  drop-set_add (suc n) (suc i) k (x ∷ xs) v h = drop-set_add n i k xs v (omega arith)

  set-append_lt :
      (xs ys : List A) (i : ℕ) (v : A) → i < length xs → set (xs ++ ys) i v ≡ set xs i v ++ ys
  set-append_lt [] ys i v h = absurd (omega arith)
  set-append_lt (x ∷ xs) ys zero v h = refl
  set-append_lt (x ∷ xs) ys (suc i) v h = ap (◌∷◌ x) (set-append_lt xs ys i v (omega arith))

  set-append_add :
      (xs ys : List A) (i k : ℕ) (v : A) → i ≡ length xs + k → set (xs ++ ys) i v ≡ xs ++ set ys k v
  set-append_add [] ys i k v h = ap (λ j. set ys j v) (omega arith)
  set-append_add (x ∷ xs) ys zero k v h = absurd (omega arith)
  set-append_add (x ∷ xs) ys (suc i) k v h = ap (◌∷◌ x) (set-append_add xs ys i k v (omega arith))

  -- Writing `k` places past the offset, before the array's end or round it.
  pub rotate-set :
      (o k : ℕ) (xs : List A) (v : A)
      → o + k < length xs
      → rotate o (set xs (o + k) v) ≡ set (rotate o xs) k v
  rotate-set o k xs v h =
      ap₂ ◌++◌ (drop-set_add o (o + k) k xs v refl) (take-set_le o (o + k) xs v (omega arith))
      ∙ sym (set-append_lt (drop o xs) (take o xs) k v (omega (arith, length-drop o xs)))

  pub rotate-set_round :
      (o k i : ℕ) (xs : List A) (v : A)
      → o + k ≡ length xs + i
      → i < o
      → o ≤ length xs
      → rotate o (set xs i v) ≡ set (rotate o xs) k v
  rotate-set_round o k i xs v e h l =
      ap₂ ◌++◌ (drop-set_lt o i xs v h) (take-set_lt o i xs v h)
      ∙ sym (set-append_add (drop o xs) (take o xs) k i v (omega (arith, length-drop o xs)))

  -- Writing just behind the first `k` elements adds one to them.
  pub take-set-suc :
      (k : ℕ) (xs : List A) (v : A)
      → k < length xs
      → take (suc k) (set xs k v) ≡ take k xs ++ (v ∷ [])
  take-set-suc k [] v h = absurd (omega arith)
  take-set-suc zero (x ∷ xs) v h = refl
  take-set-suc (suc k) (x ∷ xs) v h = ap (◌∷◌ x) (take-set-suc k xs v (omega arith))

  split_at :
      (o : ℕ) (xs : List A)
      → o < length xs
      → (x : A) × (get_elem? xs o ≡ some x)
        × (drop o xs ≡ x ∷ drop (suc o) xs)
        × (take (suc o) xs ≡ take o xs ++ (x ∷ []))
  split_at o [] h = absurd (omega arith)
  split_at zero (x ∷ xs) h = (x, refl, refl, refl)
  split_at (suc o) (x ∷ xs) h =
      let (y, e, f, g) = split_at o xs (omega arith) in (y, e, f, ap (◌∷◌ x) g)

  -- The element at the offset is the first, and moving the offset past it moves it to the end.
  pub rotate_first :
      (o : ℕ) (xs : List A)
      → o < length xs
      → (x : A) × (get_elem? xs o ≡ some x)
        × (rotate o xs ≡ x ∷ (drop (suc o) xs ++ take o xs))
        × (rotate (suc o) xs ≡ (drop (suc o) xs ++ take o xs) ++ (x ∷ []))
  rotate_first o xs h =
      let (x, e, f, g) = split_at o xs h in
      (
        x,
        e,
        ap (λ l. l ++ take o xs) f,
        ap (λ l. drop (suc o) xs ++ l) g
            ∙ sym (append_assoc (drop (suc o) xs) (take o xs) (x ∷ [])),
      )

  -- An offset at the array's end is the offset 0.
  pub rotate-length : (o : ℕ) (xs : List A) → o ≡ length xs → rotate o xs ≡ rotate 0 xs
  rotate-length o xs e =
      ap₂ ◌++◌ (drop_all o xs (omega arith)) (take_all o xs (omega arith)) ∙ sym (append-nil xs)
