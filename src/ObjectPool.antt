-- ===== src/ObjectPool.antt =====
-- EasyServer/EasyServer/ObjectPool.h: `operator new` and `operator delete` of the pooled classes.
--
-- An address is a number, 0 the null pointer. `memory` has the pointer that the first bytes at an
-- address hold. The block that `new uint8_t[]` gives is a parameter; so is the object's size.
pub mod Chains
pub mod Allocating
mod Tests
use easy_game_server.Prelude.{
  ℕ, zero, suc, ◌+◌, ◌-◌, ◌*◌, ◌%◌, ◌^◌, ltb, ◌==◌, ◌&&◌, if◌then◌else◌, Outcome, returns, crashes,
  ◌>>=◌, ◌>>◌, assert,
}

-- The source asks for objects that are larger than a pointer, so that the pointers that the free list
-- writes do not overlap: then a pointer is one cell of `memory`.
abbrev pub pointer_size : ℕ
pointer_size = 4

-- The counters are `int`s, as bit patterns.
pub record ObjectPool : Type 0 where
  pub memory : ℕ → ℕ
  pub free_list : ℕ
  pub total_alloc_count : ℕ
  pub current_use_count : ℕ

abbrev pub write : (ℕ → ℕ) → ℕ → ℕ → ℕ → ℕ
write memory a pointer b = if a == b then pointer else memory b

abbrev pub init : (ℕ → ℕ) → ObjectPool
init memory = record {
  memory = memory;
  free_list = 0;
  total_alloc_count = 0;
  current_use_count = 0;
}

-- The `for` loop, with `rounds` rounds left at `curr`, and the 0 behind it.
unfoldable pub link : ℕ → ℕ → ℕ → (ℕ → ℕ) → ℕ → ℕ
link size zero curr memory = write memory curr 0
link size (suc rounds) curr memory =
    link size rounds (curr + size) (write memory curr (curr + size))

-- `ALLOC_COUNT` is one more than `rounds`.
abbrev pub refilled : ℕ → ℕ → ℕ → ObjectPool → ObjectPool
refilled size rounds block p =
    if p.free_list == 0
    then record p {
      memory = link size rounds block p.memory;
      free_list = block;
      total_alloc_count = (p.total_alloc_count + suc rounds) % 2 ^ 32;
    }
    else p

abbrev pub taken : ObjectPool → ℕ × ObjectPool
taken p = (
  p.free_list,
  record p {
    free_list = p.memory p.free_list;
    current_use_count = (p.current_use_count + 1) % 2 ^ 32;
  },
)

unfoldable pub operator_new : ℕ → ℕ → ℕ → ObjectPool → ℕ × ObjectPool
unfolding link
operator_new size rounds block p = taken (refilled size rounds block p)

unfoldable pub operator_delete : ℕ → ObjectPool → Outcome ObjectPool
operator_delete obj p =
    assert (ltb 0 p.current_use_count && ltb p.current_use_count (2 ^ 31))
    >> returns (record p {
      current_use_count = p.current_use_count - 1;
      memory = write p.memory obj p.free_list;
      free_list = obj;
    })
