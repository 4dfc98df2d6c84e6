-- ===== src/Net/Recv.antt =====
-- `recv_all` gives the next bytes of the stream, however the kernel cuts it up.
use mathlib.Core.Path.{ap₂}
use mathlib.Core.List.{append_assoc}
use hybrid_pqc_benchmarking.Prelude.{
  ℕ, zero, suc, ◌-◌, ◌≤◌, ◌<◌, ◌≡◌, refl, ap, sym, ◌∙◌, Option, none, some, List, [], ◌∷◌, ◌++◌,
  arith, length, All, length-take, length-append, take-append-drop, List-cases, inl, inr,
}
use hybrid_pqc_benchmarking.Net.{Socket, choice, later, sys_read, prepend, recv_loop, recv_all}

-- What a successful read of `n` bytes has done.
pub record Received (n : ℕ) (s : Socket) (bytes : List ℕ) (s' : Socket) : Type 0 where
  pub stream : s.inbox ≡ bytes ++ s'.inbox
  pub size : length bytes ≡ n
  pub outbox : s'.outbox ≡ s.outbox
  pub writes : s'.writes ≡ s.writes

choice-le : (ks : List ℕ) (want : ℕ) → choice ks want ≤ want
choice-le [] want = omega arith
choice-le (k ∷ ks) want = omega arith

length-sys_read : (want : ℕ) (s : Socket) → length (sys_read want s).0 ≤ want
unfolding sys_read
length-sys_read want s =
    omega (arith, length-take (choice s.reads want) s.inbox, choice-le s.reads want)

sys_read-stream :
    (want : ℕ) (s : Socket) → s.inbox ≡ (sys_read want s).0 ++ (sys_read want s).1.inbox
unfolding sys_read
sys_read-stream want s = sym (take-append-drop (choice s.reads want) s.inbox)

sys_read-rest :
    (want : ℕ) (s : Socket)
    → ((sys_read want s).1.outbox ≡ s.outbox) × ((sys_read want s).1.writes ≡ s.writes)
unfolding sys_read
sys_read-rest want s = (refl, refl)

prepend-eq-some :
    (front bytes : List ℕ) (r : Option (List ℕ) × Socket) (s' : Socket)
    → prepend front r ≡ (some bytes, s')
    → (rest : List ℕ) × (r ≡ (some rest, s')) × (bytes ≡ front ++ rest)
prepend-eq-some front bytes (none, s) s' h = absurd (ground arith)
prepend-eq-some front bytes (some rest, s) s' h = (rest, ground arith, ground arith)

closed :
    {s s' : Socket} {bytes : List ℕ}
    → ◌≡◌ {A = Option (List ℕ) × Socket} (none, s) (some bytes, s')
    → ⊥
closed h = ground arith

-- A first read followed by the rest of the loop.
Received-append :
    (m : ℕ) (s : Socket) (b : ℕ) (bs rest bytes : List ℕ) (s' : Socket)
    → (sys_read (suc m) s).0 ≡ b ∷ bs
    → bytes ≡ b ∷ (bs ++ rest)
    → Received (m - length bs) (sys_read (suc m) s).1 rest s'
    → Received (suc m) s bytes s'
Received-append m s b bs rest bytes s' e joined r = record {
  stream =
      sys_read-stream (suc m) s
      ∙ (ap₂ ◌++◌ e r.stream
          ∙ (sym (append_assoc (b ∷ bs) rest s'.inbox) ∙ ap (λ t. t ++ s'.inbox) (sym joined)));
  size = omega (
    arith,
    ap length joined,
    length-append bs rest,
    length-sys_read (suc m) s,
    ap length e,
    r.size,
  );
  outbox = r.outbox ∙ (sys_read-rest (suc m) s).0;
  writes = r.writes ∙ (sys_read-rest (suc m) s).1;
}

recv_loop-Received :
    (fuel n : ℕ) (s : Socket) (bytes : List ℕ) (s' : Socket)
    → recv_loop fuel n s ≡ (some bytes, s')
    → Received n s bytes s'
unfolding recv_loop
recv_loop-Received fuel zero s bytes s' h = ground arith
recv_loop-Received zero (suc m) s bytes s' h = absurd (ground arith)
recv_loop-Received (suc f) (suc m) s bytes s' h = elim (List-cases (sys_read (suc m) s).0) [
  | inl e ↦ absurd (closed (rw (e, recv_loop) at h))
  | inr (b, bs, e) ↦
      let (rest, more, joined) =
        prepend-eq-some (b ∷ bs) bytes (recv_loop f (m - length bs) (sys_read (suc m) s).1) s'
          (rw (e, recv_loop) at h) in
      Received-append m s b bs rest bytes s' e joined
        (recv_loop-Received f (m - length bs) (sys_read (suc m) s).1 rest s' more)
]

-- What `recv_all` returns is the next `len` bytes of the stream, in order and no more, whatever
-- pieces the kernel delivers them in; nothing is written.
pub recv_all-Received :
    (len : ℕ) (s : Socket) (bytes : List ℕ) (s' : Socket)
    → recv_all len s ≡ (some bytes, s')
    → Received len s bytes s'
unfolding recv_all
recv_all-Received len s bytes s' h = recv_loop-Received len len s bytes s' h

prepend-snd : (bytes : List ℕ) (r : Option (List ℕ) × Socket) → (prepend bytes r).1 ≡ r.1
prepend-snd bytes (none, s) = refl
prepend-snd bytes (some rest, s) = refl

recv_loop-outbox : (fuel n : ℕ) (s : Socket) → (recv_loop fuel n s).1.outbox ≡ s.outbox
unfolding recv_loop
recv_loop-outbox fuel zero s = refl
recv_loop-outbox zero (suc m) s = refl
recv_loop-outbox (suc fuel) (suc m) s = elim (List-cases (sys_read (suc m) s).0) [
  | inl e ↦ rw (e, recv_loop) (sys_read-rest (suc m) s).0
  | inr (b, bs, e) ↦
      rw (e, recv_loop)
        (ap (λ (z : Socket). z.outbox)
            (prepend-snd (b ∷ bs) (recv_loop fuel (m - length bs) (sys_read (suc m) s).1))
          ∙ (recv_loop-outbox fuel (m - length bs) (sys_read (suc m) s).1
              ∙ (sys_read-rest (suc m) s).0))
]

-- A read writes nothing, also where it fails.
pub recv_all-outbox : (len : ℕ) (s : Socket) → (recv_all len s).1.outbox ≡ s.outbox
unfolding recv_all
recv_all-outbox len s = recv_loop-outbox len len s

-- No read fails as long as there are bytes.
abbrev pub Positive : List ℕ → Type 0
Positive = All (λ k. 0 < k)

later-Positive : (ks : List ℕ) → Positive ks → Positive (later ks)
later-Positive [] p = tt
later-Positive (k ∷ ks) p = p.1

choice-pos : (ks : List ℕ) (want : ℕ) → Positive ks → 0 < want → 0 < choice ks want
choice-pos [] want p h = h
choice-pos (k ∷ ks) want p h = omega (arith, p.0)

sys_read-pos :
    (m : ℕ) (s : Socket) → Positive s.reads → 0 < length s.inbox → 0 < length (sys_read (suc m) s).0
unfolding sys_read
sys_read-pos m s p h = omega (
  arith,
  length-take (choice s.reads (suc m)) s.inbox,
  choice-pos s.reads (suc m) p (omega arith),
)

sys_read-Positive : (m : ℕ) (s : Socket) → Positive s.reads → Positive (sys_read m s).1.reads
unfolding sys_read
sys_read-Positive m s p = later-Positive s.reads p

left_over :
    (m : ℕ) (s : Socket) (b : ℕ) (bs : List ℕ)
    → (sys_read (suc m) s).0 ≡ b ∷ bs
    → suc m ≤ length s.inbox
    → m - length bs ≤ length (sys_read (suc m) s).1.inbox
left_over m s b bs e h = omega (
  arith,
  ap length (sys_read-stream (suc m) s),
  length-append (sys_read (suc m) s).0 (sys_read (suc m) s).1.inbox,
  ap length e,
)

-- The loop ends with all its bytes.
recv_loop-total :
    (fuel n : ℕ) (s : Socket)
    → n ≤ fuel
    → Positive s.reads
    → n ≤ length s.inbox
    → (bytes : List ℕ) × (s' : Socket) × (recv_loop fuel n s ≡ (some bytes, s')) × Positive s'.reads
unfolding recv_loop
recv_loop-total fuel zero s f p h = ([], s, refl, p)
recv_loop-total zero (suc m) s f p h = absurd (omega arith)
recv_loop-total (suc fuel) (suc m) s f p h = elim (List-cases (sys_read (suc m) s).0) [
  | inl e ↦ absurd (omega (arith, ap length e, sys_read-pos m s p (omega arith)))
  | inr (b, bs, e) ↦
      let (rest, s', done, q) =
        recv_loop-total fuel (m - length bs) (sys_read (suc m) s).1 (omega arith)
          (sys_read-Positive (suc m) s p) (left_over m s b bs e h) in
      (b ∷ (bs ++ rest), s', rw (e, recv_loop, done), q)
]

-- `recv_all` succeeds whenever the stream has enough bytes and no read fails: it loops as long as
-- it must, and its fuel, one round for each byte, is enough.
pub recv_all-total :
    (len : ℕ) (s : Socket)
    → Positive s.reads
    → len ≤ length s.inbox
    → (bytes : List ℕ) × (s' : Socket) × (recv_all len s ≡ (some bytes, s')) × Positive s'.reads
unfolding recv_all
recv_all-total len s p h = recv_loop-total len len s (omega arith) p h
