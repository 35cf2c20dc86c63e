-- ===== src/ProducerConsumerQueue/Refine.antt =====
-- The circular array against a bounded first-in first-out queue.
use easy_game_server.Prelude.{
  ℕ, suc, ◌+◌, ◌-◌, ◌%◌, ◌^◌, ◌≤◌, ◌<◌, ◌≡◌, ap, sym, ◌∙◌, some, Bool, List, [], ◌∷◌, ◌++◌, length,
  arith, take, get_elem?, set, add_size, length-append, length-set, length-take, length-replicate,
  take-append_le, dec_lt, ◌==◌, if◌then◌else◌, length-drop, drop,
}
use native.Mathlib.Nat.{mod-eq_of_lt, mod-eq-sub-mod}
use native.Mathlib.Numerals.{add-one}
use easy_game_server.ProducerConsumerQueue.{
  ProducerConsumerQueue, Attempt, sleeps, finishes, init, produce, consume,
}
use easy_game_server.ProducerConsumerQueue.Fifo
use easy_game_server.ProducerConsumerQueue.Rotation.{
  rotate, length-rotate, rotate-set, rotate-set_round, take-set-suc, rotate_first, rotate-length,
}

module _ {A : Type 0} (q_size : ℕ) where
  pub record IsValid (q : ProducerConsumerQueue A) : Type 0 where
    pub array_length : length q.queue_array ≡ q_size
    pub positive : 0 < q_size
    pub small : q_size < 2 ^ 31
    pub offset_in : q.queue_offset < q_size
    pub occupied_in : q.occupied_size ≤ q_size

-- Oldest first.
abbrev pub contents {ℓ} : {A : Type ℓ} → ProducerConsumerQueue A → List A
contents q = take q.occupied_size (rotate q.queue_offset q.queue_array)

-- An attempt seen through the contents.
abbrev pub view {ℓ κ} :
    {A : Type ℓ} {R : Type κ} → Attempt (R × ProducerConsumerQueue A) → Attempt (R × List A)
view sleeps = sleeps
view (finishes (r, q)) = finishes (r, contents q)

abbrev pub After {ℓ κ} :
    {A : Type ℓ} {R : Type κ}
    → (ProducerConsumerQueue A → Type 0)
    → Attempt (R × ProducerConsumerQueue A)
    → Type 0
After P sleeps = Unit
After P (finishes (r, q)) = P q

-- Where the offset stands after a `Consume`.
abbrev next_offset : ℕ → ℕ → ℕ
next_offset q_size o = if add_size o 1 == q_size then 0 else add_size o 1

module _ {A : Type 0} (q_size : ℕ) where
  pub length-contents :
      {q : ProducerConsumerQueue A} → IsValid q_size q → length (contents q) ≡ q.occupied_size
  length-contents {q} v = omega (
    arith,
    length-take q.occupied_size (rotate q.queue_offset q.queue_array),
    length-rotate q.queue_offset q.queue_array,
  )

  -- The element written goes behind the contents, also where the index goes round.
  contents-set :
      (q : ProducerConsumerQueue A) (item : A)
      → IsValid q_size q
      → q.occupied_size < q_size
      → take (q.occupied_size + 1) (
          rotate q.queue_offset
            (set q.queue_array ((q.queue_offset + q.occupied_size) % q_size) item))
        ≡ contents q ++ (item ∷ [])
  contents-set q item v h = elim (dec_lt (q.queue_offset + q.occupied_size) q_size) [
    | yes before ↦ rw (mod-eq_of_lt before) (
        ap (take (q.occupied_size + 1))
          (rotate-set q.queue_offset q.occupied_size q.queue_array item (omega (arith, v)))
        ∙ behind)
    | no round ↦
        ap (take (q.occupied_size + 1)) (
          rotate-set_round q.queue_offset q.occupied_size
            ((q.queue_offset + q.occupied_size) % q_size) q.queue_array item
            (omega (arith, v, wrapped round)) (omega (arith, v, wrapped round)) (omega (arith, v)))
        ∙ behind
  ]
    where
      wrapped :
          ¬ (q.queue_offset + q.occupied_size < q_size)
          → (q.queue_offset + q.occupied_size) % q_size ≡ q.queue_offset + q.occupied_size - q_size
      wrapped round =
          mod-eq-sub-mod {n = q.queue_offset + q.occupied_size} {m = q_size} (omega arith)
          ∙ mod-eq_of_lt (omega (arith, v))

      behind :
          take
            (q.occupied_size + 1)
            (set (rotate q.queue_offset q.queue_array) q.occupied_size item)
          ≡ contents q ++ (item ∷ [])
      behind = rw add-one (
          take-set-suc q.occupied_size (rotate q.queue_offset q.queue_array) item
            (omega (arith, v, length-rotate q.queue_offset q.queue_array)))

  pub init-IsValid :
      (blank : A)
      → 0 < q_size
      → q_size < 2 ^ 31
      → IsValid q_size (init q_size blank) × (contents (init q_size blank) ≡ [])
  unfolding init
  init-IsValid blank h k = ground (arith, length-replicate q_size blank)

  -- An attempt of `Produce` does to the items what it does to a bounded queue: at `q_size` items it
  -- waits or fails, otherwise the item goes to the end. The queue stays valid.
  pub produce_refines :
      {q : ProducerConsumerQueue A} (item : A) (wait : Bool)
      → IsValid q_size q
      → (view (produce q_size q item wait) ≡ Fifo.produce q_size (contents q) item wait)
        × After (IsValid q_size) (produce q_size q item wait)
  unfolding produce
  produce_refines {q} item wait v = ground (
    arith,
    length-contents v,
    contents-set q item v,
    length-set q.queue_array ((q.queue_offset + q.occupied_size) % q_size) item,
  )

  contents-next :
      (q : ProducerConsumerQueue A) (n : ℕ)
      → IsValid q_size q
      → q.occupied_size ≡ suc n
      → (x : A) × (get_elem? q.queue_array q.queue_offset ≡ some x)
        × (contents q ≡ x ∷ take n (rotate (next_offset q_size q.queue_offset) q.queue_array))
  contents-next q n v e =
      let (x, at, first, last) = rotate_first q.queue_offset q.queue_array (omega (arith, v)) in
      (
        x,
        at,
        ap (take q.occupied_size) first
            ∙ ap (λ k. take k (x ∷ rest)) e
            ∙ ap (◌∷◌ x) (sym (moved x last)),
      )
    where
      rest : List A
      rest = drop (suc q.queue_offset) q.queue_array ++ take q.queue_offset q.queue_array

      kept :
          (x : A)
          → rotate (suc q.queue_offset) q.queue_array ≡ rest ++ (x ∷ [])
          → rotate (next_offset q_size q.queue_offset) q.queue_array ≡ rest ++ (x ∷ [])
      kept x last = elim (dec_lt (suc q.queue_offset) q_size) [
        | yes h ↦ ground (arith, v, last)
        | no h ↦ ground (arith, v, last, rotate-length (suc q.queue_offset) q.queue_array)
      ]

      moved :
          (x : A)
          → rotate (suc q.queue_offset) q.queue_array ≡ rest ++ (x ∷ [])
          → take n (rotate (next_offset q_size q.queue_offset) q.queue_array) ≡ take n rest
      moved x last =
          ap (take n) (kept x last)
          ∙ take-append_le n rest (x ∷ []) (
              omega (
                arith,
                v,
                length-append (drop (suc q.queue_offset) q.queue_array)
                    (take q.queue_offset q.queue_array),
                length-drop (suc q.queue_offset) q.queue_array,
                length-take q.queue_offset q.queue_array,
              ))

  -- An attempt of `Consume` does to the items what it does to a bounded queue: with no item it waits
  -- or fails, otherwise it takes the oldest. The queue stays valid.
  pub consume_refines :
      {q : ProducerConsumerQueue A} (wait : Bool)
      → IsValid q_size q
      → (view (consume q_size q wait) ≡ Fifo.consume (contents q) wait)
        × After (IsValid q_size) (consume q_size q wait)
  unfolding consume
  consume_refines {q} wait v = elim (dec_lt 0 q.occupied_size) [
    | yes some_item ↦
        let (x, at, e) = contents-next q (q.occupied_size - 1) v (omega arith) in
        ground (arith, v, at, e)
    | no no_item ↦ ground (arith, v, length-contents v)
  ]
