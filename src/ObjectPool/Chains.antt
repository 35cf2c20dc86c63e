-- ===== src/ObjectPool/Chains.antt =====
-- The free list as a chain of addresses.
use easy_game_server.Prelude.{
  ℕ_discrete, ℕ, zero, suc, ◌+◌, ◌<◌, ◌==◌, ◌||◌, ◌≡◌, refl, sym, subst, ◌∙◌, ap, arith, Bool, true,
  false, List, [], ◌∷◌,
}
use easy_game_server.ObjectPool.{write, link}

abbrev pub member : ℕ → List ℕ → Bool
member a [] = false
member a (x ∷ xs) = (x == a) || member a xs

-- From `p` the pointers lead through these addresses, none twice, to the null pointer.
abbrev pub Chain : (ℕ → ℕ) → ℕ → List ℕ → Type 0
Chain memory p [] = p ≡ 0
Chain memory p (a ∷ addresses) =
    (p ≡ a) × (0 < a) × (member a addresses ≡ false) × Chain memory (memory a) addresses

-- The objects of a block.
abbrev pub addresses : ℕ → ℕ → ℕ → List ℕ
addresses size zero block = block ∷ []
addresses size (suc rounds) block = block ∷ addresses size rounds (block + size)

-- A chain depends only on what its own cells hold.
pub Chain-same :
    (memory memory' : ℕ → ℕ) (p : ℕ) (free : List ℕ)
    → ((a : ℕ) → member a free ≡ true → memory' a ≡ memory a)
    → Chain memory p free
    → Chain memory' p free
Chain-same memory memory' p [] same h = h
Chain-same memory memory' p (a ∷ free) same (e, n, once, rest) = (
  e,
  n,
  once,
  subst (λ q. Chain memory' q free) (sym (same a (ground arith)))
      (Chain-same memory memory' (memory a) free (λ b m. same b (ground (arith, m))) rest),
)

pub Chain-write :
    (memory : ℕ → ℕ) (p a pointer : ℕ) (free : List ℕ)
    → member a free ≡ false
    → Chain memory p free
    → Chain (write memory a pointer) p free
Chain-write memory p a pointer free out h =
    Chain-same memory (write memory a pointer) p free (λ b m. ground (arith, distinct b m)) h
  where
    distinct : (b : ℕ) → member b free ≡ true → (a == b) ≡ false
    distinct b m = elim (ℕ_discrete a b) [
      | yes e ↦ absurd (cc (out, m, ap (λ x. member x free) e))
      | no n ↦ ground (arith, n)
    ]

link-below :
    (size rounds curr b : ℕ) (memory : ℕ → ℕ) → b < curr → link size rounds curr memory b ≡ memory b
unfolding link
link-below size zero curr b memory h = ground arith
link-below size (suc rounds) curr b memory h =
    ground (arith, h, link-below size rounds (curr + size) b (write memory curr (curr + size)))

pub member-addresses_below :
    (size rounds block b : ℕ) → b < block → member b (addresses size rounds block) ≡ false
member-addresses_below size zero block b h = ground arith
member-addresses_below size (suc rounds) block b h =
    ground (arith, h, member-addresses_below size rounds (block + size) b)

-- A new block is a chain of its objects.
pub link-Chain :
    (size rounds block : ℕ) (memory : ℕ → ℕ)
    → 0 < size
    → 0 < block
    → Chain (link size rounds block memory) block (addresses size rounds block)
unfolding link
link-Chain size zero block memory s h = ground arith
link-Chain size (suc rounds) block memory s h = (
  refl,
  h,
  member-addresses_below size rounds (block + size) block (omega arith),
  subst
      (λ q.
        Chain (link size rounds (block + size) (write memory block (block + size))) q
          (addresses size rounds (block + size)))
      (sym (
        link-below size rounds (block + size) block (write memory block (block + size))
          (omega arith)
        ∙ ground arith))
      (link-Chain size rounds (block + size) (write memory block (block + size)) s (omega arith)),
)
