-- ===== src/Net/Line.antt =====
-- The growing buffer of `recv_json_line`.
use mathlib.Core.Path.{subst, ap₂}
use mathlib.Core.Option.{some-injective}
use mathlib.Core.List.{append_assoc, append-nil}
use hybrid_pqc_benchmarking.Prelude.{
  if◌then◌else◌, ℕ, zero, suc, ◌+◌, ◌≤◌, ◌<◌, ◌≡◌, ◌≢◌, refl, ap, sym, ◌∙◌, Bool, true, false,
  Option, none, some, List, [], ◌∷◌, ◌++◌, arith, length, take, drop, length-append, ◌==◌, ==_iff,
  inl, inr, All, Bool-cases, Option-cases, List-cases,
}
use hybrid_pqc_benchmarking.Net.{
  Socket, choice, sys_read, LineBuffer, grow, store_byte, empty_line, recv_line_loop, recv_line,
}

-- The count is right, and there is room for the byte at `used`: the final NUL.
pub record IsValid (b : LineBuffer) : Type 0 where
  pub counted : b.used ≡ length b.bytes
  pub room : b.used < b.cap

grow-room :
    (ok : ℕ → Bool) (b b' : LineBuffer)
    → IsValid b
    → grow ok b ≡ some b'
    → (b'.bytes ≡ b.bytes) × (b'.used ≡ b.used) × (b'.used + 1 < b'.cap)
unfolding grow
grow-room ok b b' v h = ground arith

-- The front of the stream without the newline, the newline, and what is left of it.
record Read (b : LineBuffer) (s : Socket) (b' : LineBuffer) (s' : Socket) : Type 0 where
  valid : IsValid b'
  line : List ℕ
  bytes : b'.bytes ≡ b.bytes ++ line
  stream : s.inbox ≡ line ++ (b'\n' ∷ s'.inbox)
  plain : All (λ c. c ≢ b'\n') line
  outbox : s'.outbox ≡ s.outbox

closed :
    {s s' : Socket} {b : LineBuffer}
    → ◌≡◌ {A = Option LineBuffer × Socket} (none, s) (some b, s')
    → ⊥
closed h = ground arith

choice-le : (ks : List ℕ) (want : ℕ) → choice ks want ≤ want
choice-le [] want = omega arith
choice-le (k ∷ ks) want = omega arith

sys_read_one :
    (s : Socket) (c : ℕ) (cs : List ℕ)
    → (sys_read 1 s).0 ≡ c ∷ cs
    → (s.inbox ≡ c ∷ (sys_read 1 s).1.inbox) × ((sys_read 1 s).1.outbox ≡ s.outbox)
unfolding sys_read
sys_read_one s c cs e = (one s.inbox (choice s.reads 1) (choice-le s.reads 1) e, refl)
  where
    one : (xs : List ℕ) (n : ℕ) → n ≤ 1 → take n xs ≡ c ∷ cs → xs ≡ c ∷ drop n xs
    one [] zero h e = absurd (ground arith)
    one [] (suc n) h e = absurd (ground arith)
    one (x ∷ xs) zero h e = absurd (ground arith)
    one (x ∷ xs) (suc zero) h e = ground arith
    one (x ∷ xs) (suc (suc n)) h e = absurd (omega arith)

store_byte-IsValid :
    (ok : ℕ → Bool) (b g : LineBuffer) (c : ℕ)
    → IsValid b
    → grow ok b ≡ some g
    → IsValid (store_byte g c)
store_byte-IsValid ok b g c v e =
    let (bytes, used, room) = grow-room ok b g v e in
    record {
      counted = omega (arith, length-append g.bytes (c ∷ []), ap length bytes, v.counted);
      room = room;
    }

ended :
    (ok : ℕ → Bool) (b g : LineBuffer) (s t : Socket) (c : ℕ) (b' : LineBuffer) (s' : Socket)
    → IsValid b
    → grow ok b ≡ some g
    → (s.inbox ≡ c ∷ t.inbox) × (t.outbox ≡ s.outbox)
    → (c == b'\n') ≡ true
    → ◌≡◌ {A = Option LineBuffer × Socket} (some g, t) (some b', s')
    → Read b s b' s'
ended ok b g s t c b' s' v e (stream, out) nl h =
    let (bytes, used, room) = grow-room ok b g v e in
    let same : g ≡ b' = some-injective g b' (ap (λ r. r.0) h) in
    let rest : t ≡ s' = ap (λ r. r.1) h in
    record {
      valid =
          subst IsValid same
            (record { counted = omega (arith, ap length bytes, v.counted); room = omega arith });
      line = [];
      bytes = sym (ap (λ (x : LineBuffer). x.bytes) same) ∙ (bytes ∙ sym (append-nil b.bytes));
      stream =
          stream ∙ ap₂ (λ x y. x ∷ y) ((==_iff c b'\n').0 nl) (ap (λ (x : Socket). x.inbox) rest);
      plain = tt;
      outbox = sym (ap (λ (x : Socket). x.outbox) rest) ∙ out;
    }

went_on :
    (ok : ℕ → Bool) (b g : LineBuffer) (s t : Socket) (c : ℕ) (b' : LineBuffer) (s' : Socket)
    → IsValid b
    → grow ok b ≡ some g
    → (s.inbox ≡ c ∷ t.inbox) × (t.outbox ≡ s.outbox)
    → (c == b'\n') ≡ false
    → Read (store_byte g c) t b' s'
    → Read b s b' s'
went_on ok b g s t c b' s' v e (stream, out) other r =
    let (bytes, used, room) = grow-room ok b g v e in
    record {
      valid = r.valid;
      line = c ∷ r.line;
      bytes = r.bytes ∙ (append_assoc g.bytes (c ∷ []) r.line ∙ ap (λ x. x ++ (c ∷ r.line)) bytes);
      stream = stream ∙ ap (λ x. c ∷ x) r.stream;
      plain = (λ h. absurd (ground arith), r.plain);
      outbox = r.outbox ∙ out;
    }

recv_line_loop-Read :
    (ok : ℕ → Bool) (fuel : ℕ) (b : LineBuffer) (s : Socket) (b' : LineBuffer) (s' : Socket)
    → IsValid b
    → recv_line_loop ok fuel b s ≡ (some b', s')
    → Read b s b' s'
unfolding recv_line_loop
recv_line_loop-Read ok zero b s b' s' v h = absurd (ground arith)
recv_line_loop-Read ok (suc fuel) b s b' s' v h = elim (Option-cases (grow ok b)) [
  | inl full ↦ absurd (closed (rw (full, recv_line_loop) at h))
  | inr (g, e) ↦ elim (List-cases (sys_read 1 s).0) [
    | inl eof ↦ absurd (closed (rw (e, eof, recv_line_loop) at h))
    | inr (c, cs, f) ↦ elim (Bool-cases (c == b'\n')) [
      | inl nl ↦
          ended ok b g s (sys_read 1 s).1 c b' s' v e (sys_read_one s c cs f) nl
            (rw (e, f, nl, recv_line_loop) at h)
      | inr other ↦ went_on ok b g s (sys_read 1 s).1 c b' s' v e (sys_read_one s c cs f) other (
          recv_line_loop-Read ok fuel (store_byte g c) (sys_read 1 s).1 b' s'
            (store_byte-IsValid ok b g c v e) (rw (e, f, other, recv_line_loop) at h))
    ]
  ]
]

-- A line that was read has found its buffer.
given :
    (ok : Bool) (r : Option LineBuffer × Socket) (s : Socket) (b : LineBuffer) (s' : Socket)
    → (if ok then r else (none, s)) ≡ (some b, s')
    → r ≡ (some b, s')
given true r s b s' h = h
given false r s b s' h = ground arith

-- A line that `recv_json_line` hands to the parser is the stream up to the first newline, which is
-- consumed with it; its count is right, and the final NUL is written inside the buffer.
pub recv_line-Read :
    (ok : ℕ → Bool) (s : Socket) (b : LineBuffer) (s' : Socket)
    → recv_line ok s ≡ (some b, s')
    → (b.used ≡ length b.bytes)
      × (b.used < b.cap)
      × (s.inbox ≡ b.bytes ++ (b'\n' ∷ s'.inbox))
      × All (λ c. c ≢ b'\n') b.bytes
unfolding recv_line
recv_line-Read ok s b s' h =
    let r =
      recv_line_loop-Read ok (suc (length s.inbox)) empty_line s b s' (omega arith)
        (given (ok 4096) (recv_line_loop ok (suc (length s.inbox)) empty_line s) s b s' h) in
    (r.valid.counted, r.valid.room, rw r.bytes r.stream, rw r.bytes r.plain)
