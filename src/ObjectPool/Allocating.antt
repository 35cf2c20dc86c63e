-- ===== src/ObjectPool/Allocating.antt =====
-- What the pool hands out, and what it takes back.
use easy_game_server.Prelude.{
  ℕ_discrete, Bool-cases, inl, inr, ℕ, zero, suc, ◌+◌, ◌-◌, ◌^◌, ◌<◌, ◌==◌, ◌&&◌, ◌≡◌, refl, sym,
  subst, ap, ◌∙◌, arith, ltb, if◌then◌else◌, true, false, List, [], ◌∷◌, length, Returns,
}
use easy_game_server.ObjectPool.{
  ObjectPool, pointer_size, write, refilled, taken, operator_new, operator_delete,
}
use easy_game_server.ObjectPool.Chains.{member, Chain, Chain-write, addresses, link-Chain}

abbrev pub Distinct : List ℕ → Type 0
Distinct [] = Unit
Distinct (a ∷ xs) = (member a xs ≡ false) × Distinct xs

abbrev pub Apart : List ℕ → List ℕ → Type 0
Apart xs ys = (a : ℕ) → member a xs ≡ true → member a ys ≡ false

-- The objects in use, none twice, are counted and are none of those on the free list.
pub record IsPool (p : ObjectPool) (used free : List ℕ) : Type 0 where
  pub chain : Chain p.memory p.free_list free
  pub apart : Apart used free
  pub once : Distinct used
  pub counted : p.current_use_count ≡ length used
  pub small : length used < 2 ^ 31
  pub nonnull : (a : ℕ) → member a used ≡ true → 0 < a

abbrev pub remove : ℕ → List ℕ → List ℕ
remove a [] = []
remove a (x ∷ xs) = if x == a then xs else x ∷ remove a xs

-- What an object's owner writes into it does no harm.
pub owner-IsPool :
    (p : ObjectPool) (used free : List ℕ) (a pointer : ℕ)
    → IsPool p used free
    → member a used ≡ true
    → IsPool (record p { memory = write p.memory a pointer }) used free
owner-IsPool p used free a pointer v m = record {
  chain = Chain-write p.memory p.free_list a pointer free (v.apart a m) v.chain;
  apart = v.apart;
  once = v.once;
  counted = v.counted;
  small = v.small;
  nonnull = v.nonnull;
}

-- The free objects once there is one: those that there are, or those of the new block.
abbrev pub filled : ℕ → ℕ → ℕ → List ℕ → List ℕ
filled size rounds block [] = addresses size rounds block
filled size rounds block (a ∷ free) = a ∷ free

refilled-IsPool :
    (size rounds block : ℕ) (p : ObjectPool) (used free : List ℕ)
    → IsPool p used free
    → 0 < size
    → 0 < block
    → Apart used (addresses size rounds block)
    → IsPool (refilled size rounds block p) used (filled size rounds block free)
refilled-IsPool size rounds block p used [] v s b fresh = rw (v.chain) (record {
  chain = link-Chain size rounds block p.memory s b;
  apart = fresh;
  once = v.once;
  counted = v.counted;
  small = v.small;
  nonnull = v.nonnull;
})
refilled-IsPool size rounds block p used (a ∷ free) v s b fresh =
    let some_free : (p.free_list == 0) ≡ false = ground (arith, v.chain) in rw some_free v

filled_cons :
    (size rounds block : ℕ) (free : List ℕ)
    → (a : ℕ) × (rest : List ℕ) × (filled size rounds block free ≡ a ∷ rest)
filled_cons size zero block [] = (block, [], refl)
filled_cons size (suc rounds) block [] = (block, addresses size rounds (block + size), refl)
filled_cons size rounds block (a ∷ free) = (a, free, refl)

-- The first free object moves to those in use.
taken-IsPool :
    (p : ObjectPool) (used rest : List ℕ) (a : ℕ)
    → IsPool p used (a ∷ rest)
    → length used < 2 ^ 31 - 1
    → (p.free_list ≡ a) × (0 < a) × (member a used ≡ false) × IsPool (taken p).1 (a ∷ used) rest
taken-IsPool p used rest a v few =
    let out : member a used ≡ false = elim (Bool-cases (member a used)) [
      | inl m ↦ absurd (ground (arith, v.apart a m))
      | inr n ↦ n
    ] in
    (
      v.chain.0,
      v.chain.1,
      out,
      record {
        chain = subst (λ q. Chain p.memory (p.memory q) rest) (sym v.chain.0) v.chain.3;
        apart = λ b m. elim (ℕ_discrete a b) [
          | yes e ↦ subst (λ c. member c rest ≡ false) e v.chain.2
          | no n ↦ ground (arith, n, m, v.apart b)
        ];
        once = (out, v.once);
        counted = omega (arith, v.counted);
        small = omega arith;
        nonnull = λ b m. elim (ℕ_discrete a b) [
          | yes e ↦ subst (λ c. 0 < c) e v.chain.1
          | no n ↦ ground (arith, n, m, v.nonnull b)
        ];
      },
    )

-- `operator new` of a class that is larger than a pointer, on a pool whose free list is a chain of
-- objects apart from those in use, fewer than the counter holds, where a new block is apart from the
-- objects in use: it hands out the first free object, or the first of the block if there is none,
-- which is not null and none of those in use; and the pool is of that kind again.
pub operator_new_lem :
    (size rounds block : ℕ) (p : ObjectPool) (used free : List ℕ)
    → IsPool p used free
    → pointer_size < size
    → 0 < block
    → Apart used (addresses size rounds block)
    → length used < 2 ^ 31 - 1
    → let (a, p') = operator_new size rounds block p in
      (rest : List ℕ) × (filled size rounds block free ≡ a ∷ rest)
      × (0 < a)
      × (member a used ≡ false)
      × IsPool p' (a ∷ used) rest
unfolding operator_new
operator_new_lem size rounds block p used free v s b fresh few =
    let (a, rest, e) = filled_cons size rounds block free in
    let filled_pool =
      subst (IsPool (refilled size rounds block p) used) e
        (refilled-IsPool size rounds block p used free v (omega arith) b fresh) in
    let (f, n, out, w) = taken-IsPool (refilled size rounds block p) used rest a filled_pool few in
    (
      rest,
      e ∙ ap (λ x. x ∷ rest) (sym f),
      subst (λ x. 0 < x) (sym f) n,
      subst (λ x. member x used ≡ false) (sym f) out,
      subst (λ x. IsPool (taken (refilled size rounds block p)).1 (x ∷ used) rest) (sym f) w,
    )

member-remove : (a b : ℕ) (xs : List ℕ) → member b (remove a xs) ≡ true → member b xs ≡ true
member-remove a b [] m = m
member-remove a b (x ∷ xs) m = ground (arith, m, member-remove a b xs)

member-remove_out : (a b : ℕ) (xs : List ℕ) → member b xs ≡ false → member b (remove a xs) ≡ false
member-remove_out a b [] m = m
member-remove_out a b (x ∷ xs) m = ground (arith, m, member-remove_out a b xs)

remove-Distinct : (a : ℕ) (xs : List ℕ) → Distinct xs → Distinct (remove a xs)
remove-Distinct a [] h = tt
remove-Distinct a (x ∷ xs) h =
    ground (arith, h, remove-Distinct a xs h.1, member-remove_out a x xs h.0)

member-remove_self : (a : ℕ) (xs : List ℕ) → Distinct xs → member a (remove a xs) ≡ false
member-remove_self a [] h = refl
member-remove_self a (x ∷ xs) h = elim (ℕ_discrete x a) [
  | yes e ↦ subst (λ c. member c (remove c (x ∷ xs)) ≡ false) e (ground (arith, h))
  | no n ↦ ground (arith, n, member-remove_self a xs h.1)
]

length-remove : (a : ℕ) (xs : List ℕ) → member a xs ≡ true → length xs ≡ suc (length (remove a xs))
length-remove a [] m = cc
length-remove a (x ∷ xs) m = ground (arith, m, length-remove a xs)

-- `operator delete` of an object in use: no assertion fails, the object is the first of the free ones
-- and no longer in use, and the pool stays as it should be.
pub operator_delete_lem :
    (obj : ℕ) (p : ObjectPool) (used free : List ℕ)
    → IsPool p used free
    → member obj used ≡ true
    → Returns (operator_delete obj p) λ p'. IsPool p' (remove obj used) (obj ∷ free)
unfolding operator_delete
operator_delete_lem obj p used free v m = rw (in_use) (record {
  chain = (
    refl,
    v.nonnull obj m,
    v.apart obj m,
    subst (λ q. Chain (write p.memory obj p.free_list) q free) (ground arith)
        (Chain-write p.memory p.free_list obj p.free_list free (v.apart obj m) v.chain),
  );
  apart = λ b n. ground (arith, n, v.apart b (member-remove obj b used n), fresh b n);
  once = remove-Distinct obj used v.once;
  counted = omega (arith, v.counted, length-remove obj used m);
  small = omega (arith, v.small, length-remove obj used m);
  nonnull = λ b n. v.nonnull b (member-remove obj b used n);
})
  where
    in_use : (ltb 0 p.current_use_count && ltb p.current_use_count (2 ^ 31)) ≡ true
    in_use = ground (arith, v.counted, v.small, length-remove obj used m)

    fresh : (b : ℕ) → member b (remove obj used) ≡ true → (obj == b) ≡ false
    fresh b n = elim (ℕ_discrete obj b) [
      | yes e ↦
          absurd
            (cc (n, ap (λ c. member c (remove obj used)) e, member-remove_self obj used v.once))
      | no d ↦ ground (arith, d)
    ]
