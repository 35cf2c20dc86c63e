-- ===== src/Prelude/Memory.antt =====
-- Blocks of memory as lists of bytes, with `memcpy` in and out of them, and `size_t` arithmetic.
-- The projects build for Win32, so `size_t` has 32 bits.
use Prim.Native.Nat.{ℕ, zero, suc, ◌+◌, ◌-◌, ◌%◌, ◌^◌, ◌≤◌}
use mathlib.Core.Path.{◌≡◌, refl, ap, subst, ◌∙◌}
use mathlib.Core.List.{List, [], ◌∷◌, ◌++◌}
use native.Mathlib.Omega.{arith}
use easy_game_server.Prelude.Lists.{length, take, drop, length-take, length-drop}

abbrev pub size_mod : ℕ
size_mod = 2 ^ 32

abbrev pub add_size : ℕ → ℕ → ℕ
add_size a b = (a + b) % size_mod

-- `-` on ℕ stops at 0; the program's subtraction wraps.
abbrev pub sub_size : ℕ → ℕ → ℕ
sub_size a b = (a + size_mod - b) % size_mod

-- The `n` bytes at `p`.
abbrev pub region : List ℕ → ℕ → ℕ → List ℕ
region buf p n = take n (drop p buf)

-- `memcpy(buf + p, source, length source)`; what falls past the block's end is not kept.
abbrev pub write_bytes : List ℕ → ℕ → List ℕ → List ℕ
write_bytes [] p source = []
write_bytes (x ∷ buf) zero [] = x ∷ buf
write_bytes (x ∷ buf) zero (s ∷ source) = s ∷ write_bytes buf zero source
write_bytes (x ∷ buf) (suc p) source = x ∷ write_bytes buf p source

pub length-region : (buf : List ℕ) (p n : ℕ) → p + n ≤ length buf → length (region buf p n) ≡ n
length-region buf p n h = omega (arith, length-take n (drop p buf), length-drop p buf)

pub length-write_bytes :
    (buf : List ℕ) (p : ℕ) (source : List ℕ) → length (write_bytes buf p source) ≡ length buf
length-write_bytes [] p source = refl
length-write_bytes (x ∷ buf) zero [] = refl
length-write_bytes (x ∷ buf) zero (s ∷ source) = ap suc (length-write_bytes buf zero source)
length-write_bytes (x ∷ buf) (suc p) source = ap suc (length-write_bytes buf p source)

pub region-zero-write_bytes :
    (buf source : List ℕ) (n : ℕ)
    → n ≡ length source
    → n ≤ length buf
    → region (write_bytes buf zero source) zero n ≡ source
region-zero-write_bytes buf [] zero e h = refl
region-zero-write_bytes buf [] (suc n) e h = absurd (omega arith)
region-zero-write_bytes buf (s ∷ source) zero e h = absurd (omega arith)
region-zero-write_bytes [] (s ∷ source) (suc n) e h = absurd (omega arith)
region-zero-write_bytes (x ∷ buf) (s ∷ source) (suc n) e h =
    ap (◌∷◌ s) (region-zero-write_bytes buf source n (omega arith) (omega arith))

region-nil : (p n : ℕ) → region [] p n ≡ []
region-nil zero zero = refl
region-nil zero (suc n) = refl
region-nil (suc p) zero = refl
region-nil (suc p) (suc n) = refl

-- Writing just behind a region extends it by what is written.
pub region-write_bytes_behind :
    (buf : List ℕ) (p n q m : ℕ) (source : List ℕ)
    → q ≡ p + n
    → m ≡ n + length source
    → q + length source ≤ length buf
    → region (write_bytes buf q source) p m ≡ region buf p n ++ source
region-write_bytes_behind [] p n q m [] e f h = rw (region-nil p m, region-nil p n)
region-write_bytes_behind [] p n q m (s ∷ source) e f h = absurd (omega arith)
region-write_bytes_behind (x ∷ buf) (suc p) n zero m source e f h = absurd (omega arith)
region-write_bytes_behind (x ∷ buf) (suc p) n (suc q) m source e f h =
    region-write_bytes_behind buf p n q m source (omega arith) (omega arith) (omega arith)
region-write_bytes_behind (x ∷ buf) zero zero zero m source e f h =
    region-zero-write_bytes (x ∷ buf) source m (omega arith) (omega arith)
region-write_bytes_behind (x ∷ buf) zero zero (suc q) m source e f h = absurd (omega arith)
region-write_bytes_behind (x ∷ buf) zero (suc n) zero m source e f h = absurd (omega arith)
region-write_bytes_behind (x ∷ buf) zero (suc n) (suc q) zero source e f h = absurd (omega arith)
region-write_bytes_behind (x ∷ buf) zero (suc n) (suc q) (suc m) source e f h =
    ap (◌∷◌ x)
      (region-write_bytes_behind buf zero n q m source (omega arith) (omega arith) (omega arith))

-- A region below what is written keeps its bytes.
pub region-write_bytes_above :
    (buf : List ℕ) (p n q : ℕ) (source : List ℕ)
    → p + n ≤ q
    → region (write_bytes buf q source) p n ≡ region buf p n
region-write_bytes_above [] p n q source h = refl
region-write_bytes_above (x ∷ buf) zero zero q source h = refl
region-write_bytes_above (x ∷ buf) zero (suc n) zero source h = absurd (omega arith)
region-write_bytes_above (x ∷ buf) zero (suc n) (suc q) source h =
    ap (◌∷◌ x) (region-write_bytes_above buf zero n q source (omega arith))
region-write_bytes_above (x ∷ buf) (suc p) n zero source h = absurd (omega arith)
region-write_bytes_above (x ∷ buf) (suc p) n (suc q) source h =
    region-write_bytes_above buf p n q source (omega arith)

-- So does one above it.
pub region-write_bytes_below :
    (buf : List ℕ) (p n q : ℕ) (source : List ℕ)
    → q + length source ≤ p
    → region (write_bytes buf q source) p n ≡ region buf p n
region-write_bytes_below [] p n q source h = refl
region-write_bytes_below (x ∷ buf) p n zero [] h = refl
region-write_bytes_below (x ∷ buf) zero n zero (s ∷ source) h = absurd (omega arith)
region-write_bytes_below (x ∷ buf) (suc p) n zero (s ∷ source) h =
    region-write_bytes_below buf p n zero source (omega arith)
region-write_bytes_below (x ∷ buf) zero n (suc q) source h = absurd (omega arith)
region-write_bytes_below (x ∷ buf) (suc p) n (suc q) source h =
    region-write_bytes_below buf p n q source (omega arith)

pub take-region : (buf : List ℕ) (p n m : ℕ) → m ≤ n → take m (region buf p n) ≡ region buf p m
take-region buf p n m h = go (drop p buf) n m h
  where
    go : (xs : List ℕ) (n m : ℕ) → m ≤ n → take m (take n xs) ≡ take m xs
    go xs n zero h = refl
    go xs zero (suc m) h = absurd (omega arith)
    go [] (suc n) (suc m) h = refl
    go (x ∷ xs) (suc n) (suc m) h = ap (◌∷◌ x) (go xs n m (omega arith))

drop-drop : (xs : List ℕ) (p k q : ℕ) → q ≡ p + k → drop k (drop p xs) ≡ drop q xs
drop-drop xs zero k q e = ap (λ j. drop j xs) (omega arith)
drop-drop [] (suc p) zero zero e = refl
drop-drop [] (suc p) zero (suc q) e = refl
drop-drop [] (suc p) (suc k) zero e = refl
drop-drop [] (suc p) (suc k) (suc q) e = refl
drop-drop (x ∷ xs) (suc p) k zero e = absurd (omega arith)
drop-drop (x ∷ xs) (suc p) k (suc q) e = drop-drop xs p k q (omega arith)

drop-take : (xs : List ℕ) (n m k : ℕ) → n ≡ k + m → drop k (take n xs) ≡ take m (drop k xs)
drop-take xs n m zero e = ap (λ j. take j xs) (omega arith)
drop-take xs zero m (suc k) e = absurd (omega arith)
drop-take [] (suc n) zero (suc k) e = refl
drop-take [] (suc n) (suc m) (suc k) e = refl
drop-take (x ∷ xs) (suc n) m (suc k) e = drop-take xs n m k (omega arith)

pub drop-region :
    (buf : List ℕ) (p n q m k : ℕ)
    → q ≡ p + k
    → n ≡ k + m
    → drop k (region buf p n) ≡ region buf q m
drop-region buf p n q m k e f = drop-take (drop p buf) n m k f ∙ ap (take m) (drop-drop buf p k q e)

-- Regions one behind the other.
pub region-append_region :
    (buf : List ℕ) (p n m : ℕ) → region buf p n ++ region buf (p + n) m ≡ region buf p (n + m)
region-append_region [] p n m = rw (region-nil p n, region-nil (p + n) m, region-nil p (n + m)) refl
region-append_region (x ∷ buf) zero zero m = ground arith
region-append_region (x ∷ buf) zero (suc n) m =
    let long : suc n + m ≡ suc (n + m) = omega arith in
    let behind : 0 + suc n ≡ suc n = omega arith in
    let behind' : 0 + n ≡ n = omega arith in
    rw (long, behind)
      (ap (λ rest. x ∷ rest)
        (subst (λ k. region buf 0 n ++ region buf k m ≡ region buf 0 (n + m)) behind'
          (region-append_region buf zero n m)))
region-append_region (x ∷ buf) (suc p) n m =
    let behind : suc p + n ≡ suc (p + n) = omega arith in rw behind (region-append_region buf p n m)
