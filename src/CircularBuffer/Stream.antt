-- ===== src/CircularBuffer/Stream.antt =====
-- A buffer under any sequence of uses, as a stream: what goes in comes out once, in order.
use easy_game_server.Prelude.{
  ℕ, ◌≤◌, ◌≡◌, Option, none, some, List, [], ◌∷◌, ◌++◌, length, arith, take, region, min,
  if◌then◌else◌, Outcome, Returns, Returns->>=, returns, ◌>>=◌, write_bytes, append-nil,
  append_assoc, take-append-drop, length-take, Option-cases, inl, inr, sym, ap, ◌∙◌,
}
use easy_game_server.CircularBuffer.{
  CircularBuffer, read, write, remove, get_free_space_size, get_buffer, commit, get_buffer_start,
  get_contiguous_bytes,
}
use easy_game_server.CircularBuffer.Invariant.{IsValid, contents}
use easy_game_server.CircularBuffer.Reading.{read_refines}
use easy_game_server.CircularBuffer.Removing.{remove_refines}
use easy_game_server.CircularBuffer.Writing.{write_refines, receive_refines}
use easy_game_server.CircularBuffer.Sending.{get_buffer_start-take}

-- `writes` and `reads` are the calls of those names. `receives` is a receive that is offered these
-- bytes and takes as many as there is room for. `sends n` is a send of the contiguous bytes at
-- `GetBufferStart` of which `n` at most are sent, and removed when it completes.
pub data Op : Type 0 where
  writes receives : List ℕ → Op
  reads sends : ℕ → Op

-- What went in, what came out, and the buffer.
abbrev pub Log : Type 0
Log = List ℕ × List ℕ × CircularBuffer

abbrev bytes_of : Option (List ℕ) → List ℕ
bytes_of none = []
bytes_of (some bytes) = bytes

unfoldable pub step : CircularBuffer → Op → Outcome Log
step b (writes source) = let (ok, c) = write b source in returns (if ok then source else [], [], c)
step b (receives offered) =
    let (n, c) = get_free_space_size b in
    let received = take n offered in
    returns (
      received,
      [],
      commit (record c { buffer = write_bytes c.buffer (get_buffer c) received }) (length received),
    )
step b (reads n) = read b n >>= λ (out, c). returns ([], bytes_of out, c)
step b (sends n) = elim (get_buffer_start b) [
  | none ↦ returns ([], [], b)
  | some p ↦
      let k = min n (get_contiguous_bytes b) in
      remove b k >>= λ c. returns ([], region b.buffer p k, c)
]

unfoldable pub run : CircularBuffer → List Op → Outcome Log
run b [] = returns ([], [], b)
run b (op ∷ ops) = step b op >>= λ (in₁, out₁, c).
    run c ops >>= λ (in₂, out₂, d). returns (in₁ ++ in₂, out₁ ++ out₂, d)

abbrev pub Streams : CircularBuffer → Log → Type 0
Streams b (input, output, c) = IsValid c × (contents b ++ input ≡ output ++ contents c)

step-Streams : (b : CircularBuffer) (op : Op) → IsValid b → Returns (step b op) (Streams b)
unfolding step
step-Streams b (writes source) v = ground (arith, write_refines source v, append-nil (contents b))
step-Streams b (receives offered) v =
    let room = (get_free_space_size b).0 in
    let fits : length (take room offered) ≤ room = omega (arith, length-take room offered) in
    ground (arith, receive_refines (take room offered) v fits)
step-Streams b (reads n) v =
    Returns->>= (read b n) _ _ (Streams b) (read_refines n v)
      λ (out, c) d. ground (arith, d, append-nil (contents b), take-append-drop n (contents b))
step-Streams b (sends n) v = elim (Option-cases (get_buffer_start b)) [
  | inl nothing ↦ rw (nothing, step) (ground (arith, append-nil (contents b)))
  | inr (p, e) ↦
      rw (e, step)
        (Returns->>= (remove b (min n (get_contiguous_bytes b))) _ _ (Streams b)
          (remove_refines (min n (get_contiguous_bytes b)) v)
          λ c d. ground (
            arith,
            d,
            append-nil (contents b),
            get_buffer_start-take (min n (get_contiguous_bytes b)) p v (omega arith) e,
            take-append-drop (min n (get_contiguous_bytes b)) (contents b),
          ))
]

Streams-trans :
    (b c d : CircularBuffer) (in₁ out₁ in₂ out₂ : List ℕ)
    → Streams b (in₁, out₁, c)
    → Streams c (in₂, out₂, d)
    → Streams b (in₁ ++ in₂, out₁ ++ out₂, d)
Streams-trans b c d in₁ out₁ in₂ out₂ s t = (t.0, eq)
  where
    eq : contents b ++ (in₁ ++ in₂) ≡ (out₁ ++ out₂) ++ contents d
    eq =
        sym (append_assoc (contents b) in₁ in₂)
        ∙ ap (λ l. l ++ in₂) s.1
        ∙ append_assoc out₁ (contents c) in₂
        ∙ ap (λ l. out₁ ++ l) t.1
        ∙ sym (append_assoc out₁ out₂ (contents d))

-- No sequence of writes, receives, reads and sends stops the process or breaks the buffer; and what
-- it held at first, followed by what went in, is what came out followed by what it holds at last.
pub run-Streams :
    (ops : List Op) (b : CircularBuffer)
    → IsValid b
    → Returns
        (run b ops)
        λ (input, output, c). IsValid c × (contents b ++ input ≡ output ++ contents c)
unfolding run
run-Streams [] b v = (v, append-nil (contents b))
run-Streams (op ∷ ops) b v =
    Returns->>= (step b op) _ (Streams b) (Streams b) (step-Streams b op v) λ (in₁, out₁, c) s.
      Returns->>= (run c ops) _ (Streams c) (Streams b) (run-Streams ops c s.0)
        λ (in₂, out₂, d) t. Streams-trans b c d in₁ out₁ in₂ out₂ s t
