-- ===== src/TcpClient/Sending.antt =====
-- How much of a packet `send` hands to the socket.
use easy_game_server.Prelude.{
  ℕ, zero, suc, ◌+◌, ◌-◌, ◌*◌, ◌≤◌, ◌<◌, ◌≡◌, refl, ap, sym, ◌∙◌, arith, ltb, Bool, true, false,
  some, List, [], ◌++◌, length, take, region, append-nil, append_assoc, Bool-cases, inl, inr,
  Option-cases, region-append_region,
}
use easy_game_server.TcpClient.{Connection, TcpClient, called, send_loop, send, sends}

-- `send` on a blocking socket takes at least one of the bytes offered, if it does not fail.
abbrev pub IsTaking : Connection → Type 0
IsTaking c = (k m n : ℕ) → c.takes k m ≡ some n → (0 < n) × (n ≤ m)

-- The result of a loop that has `count` bytes behind it.
pub record IsSent (c : Connection) (bytes : List ℕ) (count len : ℕ) (ok : Bool) (c' : Connection)
    : Type 0 where
  pub taken : ℕ
  pub taken_in : taken ≤ len
  pub sent_so : c'.sent ≡ c.sent ++ region bytes count taken
  pub at_least_half : ok ≡ true → length bytes ≤ 2 * (count + taken)
  pub same : c'.takes ≡ c.takes

send_loop_lem :
    (fuel : ℕ) (c : Connection) (bytes : List ℕ) (count len : ℕ)
    → IsTaking c
    → count + len ≡ length bytes
    → len < fuel
    → (ok : Bool) × (c' : Connection) × (send_loop fuel c bytes count len ≡ some (ok, c'))
      × IsSent c bytes count len ok c'
unfolding send_loop
send_loop_lem zero c bytes count len t e h = absurd (omega arith)
send_loop_lem (suc fuel) c bytes count len t e h = elim (Bool-cases (ltb count len)) [
  | inl more ↦ elim (Option-cases (c.takes c.calls len)) [
    | inl failed ↦ (
      false,
      called c [],
      ground (arith, more, failed),
      record {
        taken = 0;
        taken_in = omega arith;
        sent_so = refl;
        at_least_half = λ k. cc;
        same = refl;
      },
    )
    | inr (n, took) ↦
        let (ok, c', f, s) =
          send_loop_lem fuel (called c (region bytes count n)) bytes (count + n) (len - n) t
            (omega (arith, t c.calls len n took)) (omega (arith, t c.calls len n took)) in
        (
          ok,
          c',
          ground (arith, more, took, f),
          record {
            taken = n + s.taken;
            taken_in = omega (arith, s.taken_in, t c.calls len n took);
            sent_so =
                s.sent_so
                ∙ append_assoc c.sent (region bytes count n) (region bytes (count + n) s.taken)
                ∙ ap (λ rest. c.sent ++ rest) (region-append_region bytes count n s.taken);
            at_least_half = λ k. omega (arith, s.at_least_half k);
            same = s.same;
          },
        )
  ]
  | inr last ↦ (
    true,
    c,
    ground (arith, last),
    record {
      taken = 0;
      taken_in = omega arith;
      sent_so = sym (append-nil c.sent);
      at_least_half = λ k. ground (arith, last);
      same = refl;
    },
  )
]

-- On a socket that takes at least one of the bytes offered whenever it does not fail, `send` returns,
-- given more rounds than there are bytes. The bytes taken are a part of the packet from its start; where
-- it returns `true`, they are at least half of it.
pub send_lem :
    (fuel : ℕ) (c : Connection) (bytes : List ℕ)
    → IsTaking c
    → length bytes < fuel
    → (ok : Bool) × (c' : Connection) × (n : ℕ) × (send fuel c bytes ≡ some (ok, c'))
      × (c'.sent ≡ c.sent ++ take n bytes)
      × (n ≤ length bytes)
      × (ok ≡ true → length bytes ≤ 2 * n)
unfolding send
send_lem fuel c bytes t h =
    let (ok, c', e, s) = send_loop_lem fuel c bytes 0 (length bytes) t (omega arith) h in
    (ok, c', s.taken, e, s.sent_so, s.taken_in, λ k. omega (arith, s.at_least_half k))

-- It does return `true` with the rest unsent where the socket's first answer is at least half of the
-- packet and not all of it.
pub send_stops_early :
    (fuel n : ℕ) (c : Connection) (bytes : List ℕ)
    → c.takes c.calls (length bytes) ≡ some n
    → n < length bytes
    → length bytes ≤ 2 * n
    → (c' : Connection) × (send (suc (suc fuel)) c bytes ≡ some (true, c'))
      × (c'.sent ≡ c.sent ++ take n bytes)
unfolding send send_loop
send_stops_early fuel n c bytes took part half =
    (called c (take n bytes), ground (arith, took, part, half), refl)

-- The client after a request has the same socket.
pub sends_lem :
    (fuel : ℕ) (c : TcpClient) (bytes : List ℕ)
    → IsTaking c.sock
    → length bytes < fuel
    → (c' : TcpClient) × (sends fuel c bytes ≡ some c') × (c'.sock.takes ≡ c.sock.takes)
unfolding send
sends_lem fuel c bytes t h =
    let (ok, sock, e, s) = send_loop_lem fuel c.sock bytes 0 (length bytes) t (omega arith) h in
    (record c { sock = sock }, rw (sends, e) refl, s.same)
