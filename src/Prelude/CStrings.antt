-- ===== src/Prelude/CStrings.antt =====
-- Strings in `char` arrays, which end at their first byte 0.
use Prim.Native.Nat.{ℕ, zero, suc, ◌≤◌, ◌<◌}
use Prim.Native.Char.{code}
use Prim.Native.String.{String}
use mathlib.Core.Path.{◌≡◌, refl, ap, ◌∙◌}
use mathlib.Core.Option.{Option, none, some}
use mathlib.Core.Option
use mathlib.Core.List.{List, [], ◌∷◌, ◌++◌}
use native.Mathlib.Omega.{arith}
use mathlib.Core.Logic.{inl, inr}
use easy_game_server.Prelude.Tests.{Option-cases}
use easy_game_server.Prelude.Lists.{All, length, length-append, take, take_all, take-append_le}
use easy_game_server.Prelude.Outcomes.{Outcome, returns, crashes, Returns}
use easy_game_server.Prelude.Memory.{write_bytes, length-write_bytes}

-- The bytes of an ASCII text, without a final 0.
abbrev pub codes : String → List ℕ
codes String.[] = []
codes (String.◌∷◌ c s) = code c ∷ codes s

-- The index of the first byte 0.
abbrev pub find_nul : List ℕ → Option ℕ
find_nul [] = none
find_nul (zero ∷ bytes) = some 0
find_nul (suc b ∷ bytes) = Option.map suc (find_nul bytes)

-- `strlen` of an array: without a byte 0 it reads on behind the array.
abbrev pub string : List ℕ → Outcome (List ℕ)
string text = elim (find_nul text) [ none ↦ crashes | some n ↦ returns (take n text) ]

abbrev copy_up_to : List ℕ → List ℕ → Option ℕ → Outcome (List ℕ)
copy_up_to destination source none = crashes
copy_up_to destination source (some n) = returns (write_bytes destination 0 (take (suc n) source))

-- `strcpy_s` into an array: it copies up to the byte 0 and with it, and stops the process where there
-- is none within as many bytes as the destination has. Every source in the program that is a shorter
-- array than its destination holds a 0.
pub strcpy_s : List ℕ → List ℕ → Outcome (List ℕ)
strcpy_s destination source =
    copy_up_to destination source (find_nul (take (length destination) source))

pub strcpy_s-crashes :
    (destination source : List ℕ)
    → length source ≡ length destination
    → find_nul source ≡ none
    → strcpy_s destination source ≡ crashes
unfolding strcpy_s
strcpy_s-crashes destination source l h = rw (take_all (length destination) source (omega arith), h)

pub strcpy_s-some :
    (destination source : List ℕ) (n : ℕ)
    → find_nul (take (length destination) source) ≡ some n
    → strcpy_s destination source ≡ returns (write_bytes destination 0 (take (suc n) source))
unfolding strcpy_s
strcpy_s-some destination source n h = rw (h)

pub strcpy_s-long :
    (destination source : List ℕ)
    → find_nul (take (length destination) source) ≡ none
    → strcpy_s destination source ≡ crashes
unfolding strcpy_s
strcpy_s-long destination source h = rw (h)

-- A text without a byte 0, and what `strcpy_s` makes of it and its final 0.
abbrev pub IsText : List ℕ → Type 0
IsText text = All (λ byte. 0 < byte) text

find_nul-take-text :
    (n : ℕ) (text : List ℕ)
    → IsText text
    → length text < n
    → find_nul (take n (text ++ 0 ∷ [])) ≡ some (length text)
find_nul-take-text zero text h l = absurd (omega arith)
find_nul-take-text (suc n) [] h l = refl
find_nul-take-text (suc n) (zero ∷ text) h l = absurd (omega arith)
find_nul-take-text (suc n) (suc b ∷ text) h l =
    ap (Option.map suc) (find_nul-take-text n text h.1 (omega arith))

string-write_text :
    (destination text : List ℕ)
    → IsText text
    → length text < length destination
    → (find_nul (write_bytes destination 0 (text ++ 0 ∷ [])) ≡ some (length text))
      × (take (length text) (write_bytes destination 0 (text ++ 0 ∷ [])) ≡ text)
string-write_text [] text h l = absurd (omega arith)
string-write_text (x ∷ destination) [] h l = (refl, refl)
string-write_text (x ∷ destination) (zero ∷ text) h l = absurd (omega arith)
string-write_text (x ∷ destination) (suc b ∷ text) h l =
    let found = string-write_text destination text h.1 (omega arith) in
    (ap (Option.map suc) found.0, ap (◌∷◌ (suc b)) found.1)

-- A text that is shorter than the destination is copied.
pub strcpy_s-text :
    (destination text : List ℕ)
    → IsText text
    → length text < length destination
    → Returns
        (strcpy_s destination (text ++ 0 ∷ []))
        λ copy. (length copy ≡ length destination) × (string copy ≡ returns text)
strcpy_s-text destination text h l =
    let source = text ++ 0 ∷ [] in
    let found = string-write_text destination text h l in
    let copied : strcpy_s destination source ≡ returns (write_bytes destination 0 source) =
      strcpy_s-some destination source (length text)
        (find_nul-take-text (length destination) text h l)
      ∙ ap (λ copy. returns (write_bytes destination 0 copy))
          (take_all (suc (length text)) source (omega (arith, length-append text (0 ∷ [])))) in
    let read : string (write_bytes destination 0 source) ≡ returns text =
      rw (string, found.0) (ap returns found.1) in
    rw copied (length-write_bytes destination 0 source, read)

find_nul-take-text_long :
    (n : ℕ) (text : List ℕ)
    → IsText text
    → n ≤ length text
    → find_nul (take n (text ++ 0 ∷ [])) ≡ none
find_nul-take-text_long zero text h l = refl
find_nul-take-text_long (suc n) [] h l = absurd (omega arith)
find_nul-take-text_long (suc n) (zero ∷ text) h l = absurd (omega arith)
find_nul-take-text_long (suc n) (suc b ∷ text) h l =
    ap (Option.map suc) (find_nul-take-text_long n text h.1 (omega arith))

-- A text that is longer stops the process.
pub strcpy_s-text_long :
    (destination text : List ℕ)
    → IsText text
    → length destination ≤ length text
    → strcpy_s destination (text ++ 0 ∷ []) ≡ crashes
strcpy_s-text_long destination text h l =
    strcpy_s-long destination (text ++ 0 ∷ [])
      (find_nul-take-text_long (length destination) text h l)

-- The text that was copied ends where it ended.
pub find_nul-write_bytes :
    (destination source : List ℕ) (n : ℕ)
    → find_nul (take (length destination) source) ≡ some n
    → find_nul (write_bytes destination 0 (take (suc n) source)) ≡ some n
find_nul-write_bytes [] source n h = absurd (cc h)
find_nul-write_bytes (x ∷ destination) [] n h = absurd (cc h)
find_nul-write_bytes (x ∷ destination) (zero ∷ source) n h = h
find_nul-write_bytes (x ∷ destination) (suc b ∷ source) n h =
    elim (Option-cases (find_nul (take (length destination) source))) [
      | inl e ↦ absurd (ground (arith, e, h))
      | inr (m, e) ↦
          let same : n ≡ suc m = ground (arith, e, h) in
          rw (same, find_nul-write_bytes destination source m e) refl
    ]

pub take-write_bytes :
    (destination source : List ℕ) (n : ℕ)
    → find_nul (take (length destination) source) ≡ some n
    → take n (write_bytes destination 0 (take (suc n) source)) ≡ take n source
take-write_bytes [] source n h = absurd (cc h)
take-write_bytes (x ∷ destination) [] n h = absurd (cc h)
take-write_bytes (x ∷ destination) (zero ∷ source) n h =
    let first : n ≡ 0 = ground (arith, h) in rw first refl
take-write_bytes (x ∷ destination) (suc b ∷ source) n h =
    elim (Option-cases (find_nul (take (length destination) source))) [
      | inl e ↦ absurd (ground (arith, e, h))
      | inr (m, e) ↦
          let same : n ≡ suc m = ground (arith, e, h) in
          rw same (ap (◌∷◌ (suc b)) (take-write_bytes destination source m e))
    ]

-- A text in an array is not changed by what follows.
pub find_nul-append :
    (xs ys : List ℕ) (n : ℕ)
    → find_nul xs ≡ some n
    → (n ≤ length xs) × (find_nul (xs ++ ys) ≡ some n)
find_nul-append [] ys n h = absurd (cc h)
find_nul-append (zero ∷ xs) ys n h = ground (arith, h)
find_nul-append (suc b ∷ xs) ys n h = elim (Option-cases (find_nul xs)) [
  | inl e ↦ absurd (ground (arith, e, h))
  | inr (m, e) ↦
      let same : n ≡ suc m = ground (arith, e, h) in
      let rest = find_nul-append xs ys m e in (omega arith, rw (rest.1, same) refl)
]

-- What is read of a copy, and of what stands behind it.
pub string-copy :
    (destination source ys : List ℕ) (n : ℕ)
    → find_nul (take (length destination) source) ≡ some n
    → string (write_bytes destination 0 (take (suc n) source) ++ ys) ≡ returns (take n source)
string-copy destination source ys n h =
    let copy = write_bytes destination 0 (take (suc n) source) in
    let found = find_nul-append copy ys n (find_nul-write_bytes destination source n h) in
    rw (string, found.1)
      (ap returns (take-append_le n copy ys found.0 ∙ take-write_bytes destination source n h))
