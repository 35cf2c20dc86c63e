-- ===== src/TcpClient/Pieces.antt =====
-- The server's results as they reach the game client: in pieces of any length.
use easy_game_server.Prelude.{
  All, ℕ, ◌+◌, ◌<◌, ◌≤◌, ◌≡◌, ap, refl, sym, subst, ◌∙◌, inl, inr, List, [], ◌∷◌, ◌++◌, length,
  take, drop, arith, length-append, dec_lt, take_all, take-append_le, drop-append_le,
  drop-append_add, take-append-drop,
}
use easy_game_server.PacketType.Words.{size_of_short}
use easy_game_server.PacketType.{header_of_bytes}
use easy_game_server.PacketHandling.Framing.{IsIncomplete}
use easy_game_server.TcpClient.Results.{
  Result, login, chat, move, IsResult, result_bytes, result_header, result_header_lem,
}
use easy_game_server.TcpClient.Receiving.{stream, length-result_bytes}

-- Less than the packet at whose start it stands, and than the longest result.
abbrev pub IsPart : List ℕ → Type 0
IsPart rest = IsIncomplete rest × (length rest < 294)

-- Where `front` ends in the stream: behind whole results, within another.
pub record Cut (rs : List Result) (rest front back : List ℕ) : Type 0 where
  pub before : List Result
  pub after : List Result
  pub left : List ℕ
  pub results : rs ≡ before ++ after
  pub cut : front ≡ stream before left
  pub go_on : left ++ back ≡ stream after rest
  pub good_before : All IsResult before
  pub good_after : All IsResult after
  pub part : IsPart left

take-front : (n : ℕ) (xs ys zs : List ℕ) → xs ++ ys ≡ zs → n ≤ length xs → take n xs ≡ take n zs
take-front n xs ys zs e h = sym (take-append_le n xs ys h) ∙ ap (take n) e

prefix-IsPart : (xs ys rest : List ℕ) → xs ++ ys ≡ rest → IsPart rest → IsPart xs
prefix-IsPart xs ys rest e p =
    let longer : length rest ≡ length xs + length ys = sym (ap length e) ∙ length-append xs ys in
    elim (dec_lt (length xs) 4) [
      | yes few ↦ (inl few, omega arith)
      | no enough ↦ elim p.0 [
        | inl few ↦ absurd (omega arith)
        | inr part ↦ (
          inr (
              subst (λ bytes. length xs < size_of_short (header_of_bytes bytes).size)
                (sym (take-front 4 xs ys rest e (omega arith))) (omega arith)),
          omega arith,
        )
      ]
    ]

size_of_result :
    (r : Result) → IsResult r → size_of_short (result_header r).size ≡ length (result_bytes r)
size_of_result (login p) h = ground (arith, h, length-result_bytes (login p) h)
size_of_result (chat p) h = ground (arith, h, length-result_bytes (chat p) h)
size_of_result (move p) h = ground (arith, h, length-result_bytes (move p) h)

length-result_bytes-bounds :
    (r : Result) → IsResult r → (4 ≤ length (result_bytes r)) × (length (result_bytes r) ≤ 294)
length-result_bytes-bounds (login p) h = ground (arith, length-result_bytes (login p) h)
length-result_bytes-bounds (chat p) h = ground (arith, length-result_bytes (chat p) h)
length-result_bytes-bounds (move p) h = ground (arith, length-result_bytes (move p) h)

short-IsPart :
    (r : Result) (xs ys rest : List ℕ)
    → IsResult r
    → xs ++ ys ≡ result_bytes r ++ rest
    → length xs < length (result_bytes r)
    → IsPart xs
short-IsPart r xs ys rest h e l =
    let bound = length-result_bytes-bounds r h in
    elim (dec_lt (length xs) 4) [
      | yes few ↦ (inl few, omega arith)
      | no enough ↦ (
        inr (
            subst (λ header. length xs < size_of_short header.size)
              (sym (
                ap header_of_bytes (take-front 4 xs ys (result_bytes r ++ rest) e (omega arith))
                ∙ result_header_lem r rest h))
              (subst (λ n. length xs < n) (sym (size_of_result r h)) l)),
        omega arith,
      )
    ]

-- What is left of `front` behind a result that is whole.
rest_of_front :
    (xs ys zs ws : List ℕ)
    → xs ++ ys ≡ zs ++ ws
    → length zs ≤ length xs
    → (drop (length zs) xs ++ ys ≡ ws) × (xs ≡ zs ++ drop (length zs) xs)
rest_of_front xs ys zs ws e l =
    let n = length zs in
    let behind : drop n xs ++ ys ≡ ws =
      sym (drop-append_le n xs ys l) ∙ ap (drop n) e ∙ drop-append_add n 0 zs ws (omega arith) in
    let whole : take n xs ≡ zs =
      take-front n xs ys (zs ++ ws) e l
      ∙ take-append_le n zs ws (omega arith)
      ∙ take_all n zs (omega arith) in
    (behind, sym (take-append-drop n xs) ∙ ap (λ bytes. bytes ++ drop n xs) whole)

pub cuts :
    (rs : List Result) (rest front back : List ℕ)
    → All IsResult rs
    → IsPart rest
    → front ++ back ≡ stream rs rest
    → Cut rs rest front back
cuts [] rest front back h p e = record {
  before = [];
  after = [];
  left = front;
  results = refl;
  cut = refl;
  go_on = e;
  good_before = tt;
  good_after = tt;
  part = prefix-IsPart front back rest e p;
}
cuts (r ∷ rs) rest front back h p e = elim (dec_lt (length front) (length (result_bytes r))) [
  | yes short ↦ record {
    before = [];
    after = r ∷ rs;
    left = front;
    results = refl;
    cut = refl;
    go_on = e;
    good_before = tt;
    good_after = h;
    part = short-IsPart r front back (stream rs rest) h.0 e short;
  }
  | no whole ↦
      let (e', f) = rest_of_front front back (result_bytes r) (stream rs rest) e (omega arith) in
      let c = cuts rs rest (drop (length (result_bytes r)) front) back h.1 p e' in
      record {
        before = r ∷ c.before;
        after = c.after;
        left = c.left;
        results = ap (λ qs. r ∷ qs) c.results;
        cut = f ∙ ap (λ bytes. result_bytes r ++ bytes) c.cut;
        go_on = c.go_on;
        good_before = (h.0, c.good_before);
        good_after = c.good_after;
        part = c.part;
      }
]

-- Behind whole results comes no part of one.
pub whole-not-IsPart : (r : Result) (rest : List ℕ) → IsResult r → ¬ IsPart (result_bytes r ++ rest)
whole-not-IsPart r rest h p =
    let longer = length-append (result_bytes r) rest in
    elim p.0 [
      | inl few ↦ ground (arith, few, longer, length-result_bytes-bounds r h)
      | inr part ↦
          let short : length (result_bytes r ++ rest) < size_of_short (result_header r).size =
            subst (λ header. length (result_bytes r ++ rest) < size_of_short header.size)
              (result_header_lem r rest h) part in
          absurd (ground (arith, short, longer, size_of_result r h))
    ]
