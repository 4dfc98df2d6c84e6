-- ===== src/Net/LineTotal.antt =====
-- `recv_json_line` returns when a whole line arrives.
use mathlib.Core.List.{append_assoc, append-nil}
use hybrid_pqc_benchmarking.Prelude.{
  ℕ, zero, suc, ◌+◌, ◌*◌, leb, ◌<◌, ◌≡◌, ◌≢◌, refl, ap, sym, ◌∙◌, Bool, true, false, some, List, [],
  ◌∷◌, ◌++◌, arith, length, length-append, ◌==◌, inl, inr, All, Bool-cases,
}
use hybrid_pqc_benchmarking.Net.{
  Socket, choice, later, sys_read, LineBuffer, grow, store_byte, empty_line, recv_line_loop,
  recv_line,
}
use hybrid_pqc_benchmarking.Net.Recv.{Positive}

choice_one : (ks : List ℕ) → Positive ks → choice ks 1 ≡ 1
choice_one [] p = refl
choice_one (zero ∷ ks) p = absurd (omega (arith, p.0))
choice_one (suc k ∷ ks) p = omega arith

later-Positive : (ks : List ℕ) → Positive ks → Positive (later ks)
later-Positive [] p = tt
later-Positive (k ∷ ks) p = p.1

sys_read_next :
    (s : Socket) (c : ℕ) (cs : List ℕ)
    → Positive s.reads
    → s.inbox ≡ c ∷ cs
    → ((sys_read 1 s).0 ≡ c ∷ []) × ((sys_read 1 s).1.inbox ≡ cs) × Positive (sys_read 1 s).1.reads
unfolding sys_read
sys_read_next s c cs p e =
    (rw (choice_one s.reads p, e) refl, rw (choice_one s.reads p, e) refl, later-Positive s.reads p)

other_byte : (c : ℕ) → c ≢ b'\n' → (c == b'\n') ≡ false
other_byte c h = ground arith

grow-total :
    (ok : ℕ → Bool) (b : LineBuffer)
    → ((n : ℕ) → ok n ≡ true)
    → (g : LineBuffer) × (grow ok b ≡ some g) × (g.bytes ≡ b.bytes)
unfolding grow
grow-total ok b fits = elim (Bool-cases (leb b.cap (b.used + 1))) [
  | inl full ↦ (record b { cap = b.cap * 2 }, rw (full, fits (b.cap * 2)) refl, refl)
  | inr room ↦ (b, rw room refl, refl)
]

recv_line_loop-total :
    (ok : ℕ → Bool) (fuel : ℕ) (b : LineBuffer) (s : Socket) (line rest : List ℕ)
    → ((n : ℕ) → ok n ≡ true)
    → Positive s.reads
    → s.inbox ≡ line ++ (b'\n' ∷ rest)
    → All (λ c. c ≢ b'\n') line
    → length line < fuel
    → (g : LineBuffer) × (s' : Socket) × (recv_line_loop ok fuel b s ≡ (some g, s'))
      × (g.bytes ≡ b.bytes ++ line)
      × (s'.inbox ≡ rest)
unfolding recv_line_loop
recv_line_loop-total ok zero b s line rest fits p e plain f = absurd (omega arith)
recv_line_loop-total ok (suc fuel) b s [] rest fits p e plain f =
    let (g, grown, same) = grow-total ok b fits in
    let (byte, left, _q) = sys_read_next s b'\n' rest p e in
    (
      g,
      (sys_read 1 s).1,
      rw (grown, byte, recv_line_loop) refl,
      same ∙ sym (append-nil b.bytes),
      left,
    )
recv_line_loop-total ok (suc fuel) b s (c ∷ cs) rest fits p e plain f =
    let (g, grown, same) = grow-total ok b fits in
    let (byte, left, q) = sys_read_next s c (cs ++ (b'\n' ∷ rest)) p e in
    let (g', s', done, bytes, left') =
      recv_line_loop-total ok fuel (store_byte g c) (sys_read 1 s).1 cs rest fits q left plain.1
        (omega arith) in
    let other : (c == b'\n') ≡ false = other_byte c plain.0 in
    (
      g',
      s',
      rw (grown, byte, other, recv_line_loop) done,
      bytes ∙ (append_assoc g.bytes (c ∷ []) cs ∙ ap (λ x. x ++ (c ∷ cs)) same),
      left',
    )

-- `recv_json_line` gives any line that arrives whole, for every length, as long as no read fails
-- and the memory suffices; what follows the line's newline is left for the next call.
pub recv_line-total :
    (ok : ℕ → Bool) (s : Socket) (line rest : List ℕ)
    → ((n : ℕ) → ok n ≡ true)
    → Positive s.reads
    → s.inbox ≡ line ++ (b'\n' ∷ rest)
    → All (λ c. c ≢ b'\n') line
    → (b : LineBuffer) × (s' : Socket) × (recv_line ok s ≡ (some b, s'))
      × (b.bytes ≡ line)
      × (s'.inbox ≡ rest)
unfolding recv_line
recv_line-total ok s line rest fits p e plain = rw (fits 4096) (
    recv_line_loop-total ok (suc (length s.inbox)) empty_line s line rest fits p e plain
      (omega (arith, ap length e, length-append line (b'\n' ∷ rest))))
