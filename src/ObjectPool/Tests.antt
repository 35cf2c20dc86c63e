-- ===== src/ObjectPool/Tests.antt =====
-- A pool of objects of 16 bytes, three to a block: one object in use, at 116.
use easy_game_server.Prelude.{
  ℕ, ◌<◌, ◌≡◌, refl, arith, false, List, [], ◌∷◌, Returns, if◌then◌else◌, ◌==◌,
}
use easy_game_server.ObjectPool.{ObjectPool, operator_new, operator_delete}
use easy_game_server.ObjectPool.Chains.{member, addresses}
use easy_game_server.ObjectPool.Allocating.{IsPool, Apart, operator_new_lem, operator_delete_lem}

abbrev pool : ObjectPool
pool = record {
  memory = λ a. if a == 100 then 132 else 0;
  free_list = 100;
  total_alloc_count = 3;
  current_use_count = 1;
}

pool-IsPool : IsPool pool (116 ∷ []) (100 ∷ 132 ∷ [])
pool-IsPool = record {
  chain = (refl, omega arith, refl, (refl, omega arith, refl, refl));
  apart = λ a m. ground (arith, m);
  once = (refl, tt);
  counted = refl;
  small = omega arith;
  nonnull = λ a m. ground (arith, m);
}

new_block-Apart : Apart (116 ∷ []) (addresses 16 2 200)
new_block-Apart a m = ground (arith, m)

operator_new_lem_example :
    let (a, p') = operator_new 16 2 200 pool in
    (rest : List ℕ) × (◌≡◌ {A = List ℕ} (100 ∷ 132 ∷ []) (a ∷ rest))
    × (0 < a)
    × (member a (116 ∷ []) ≡ false)
    × IsPool p' (a ∷ 116 ∷ []) rest
operator_new_lem_example =
    operator_new_lem 16 2 200 pool (116 ∷ []) (100 ∷ 132 ∷ []) pool-IsPool (omega arith)
      (omega arith) new_block-Apart (omega arith)

operator_delete_lem_example :
    Returns (operator_delete 116 pool) λ p'. IsPool p' [] (116 ∷ 100 ∷ 132 ∷ [])
operator_delete_lem_example =
    operator_delete_lem 116 pool (116 ∷ []) (100 ∷ 132 ∷ []) pool-IsPool refl
