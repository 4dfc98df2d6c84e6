-- ===== src/Net/Send.antt =====
-- `send_all` writes all its bytes in order, or a front of them.
use mathlib.Core.Path.{subst}
use mathlib.Core.List.{append_assoc, append-nil}
use hybrid_pqc_benchmarking.Prelude.{
  ℕ, zero, suc, ◌≤◌, ◌<◌, ◌≡◌, refl, ap, sym, ◌∙◌, Bool, true, false, List, [], ◌∷◌, ◌++◌, arith,
  length, take, drop, All, length-drop, take-append-drop, ◌⊎◌, inl, inr,
}
use hybrid_pqc_benchmarking.Net.{Socket, choice, later, sys_write, send_loop, send_all}

-- What was written before a call, then these bytes, and no byte read.
pub record Sent (s : Socket) (bytes : List ℕ) (s' : Socket) : Type 0 where
  pub outbox : s'.outbox ≡ s.outbox ++ bytes
  pub inbox : s'.inbox ≡ s.inbox
  pub reads : s'.reads ≡ s.reads

Sent-append : {s t u : Socket} {xs ys : List ℕ} → Sent s xs t → Sent t ys u → Sent s (xs ++ ys) u
Sent-append {s} {xs} {ys} a b = record {
  outbox = b.outbox ∙ (ap (λ t. t ++ ys) a.outbox ∙ append_assoc s.outbox xs ys);
  inbox = b.inbox ∙ a.inbox;
  reads = b.reads ∙ a.reads;
}

sys_write-Sent :
    (bytes : List ℕ) (s : Socket) → Sent s (take (sys_write bytes s).0 bytes) (sys_write bytes s).1
unfolding sys_write
sys_write-Sent bytes s = record { outbox = refl; inbox = refl; reads = refl }

sys_write-at :
    (bytes : List ℕ) (s : Socket) (n : ℕ)
    → (sys_write bytes s).0 ≡ n
    → Sent s (take n bytes) (sys_write bytes s).1
sys_write-at bytes s n e =
    subst (λ k. Sent s (take k bytes) (sys_write bytes s).1) e (sys_write-Sent bytes s)

-- The bytes that went out: all of them if the call succeeds.
abbrev pub Front : List ℕ → Bool → List ℕ → Type 0
Front bytes ok front = (back : List ℕ) × (bytes ≡ front ++ back) × (ok ≡ true → back ≡ [])

Front-append :
    (xs ys bytes front : List ℕ) (ok : Bool)
    → bytes ≡ xs ++ ys
    → Front ys ok front
    → Front bytes ok (xs ++ front)
Front-append xs ys bytes front ok e (back, f, g) =
    (back, e ∙ (ap (λ t. xs ++ t) f ∙ sym (append_assoc xs front back)), g)

abbrev Outcome : Socket → List ℕ → Bool × Socket → Type 0
Outcome s bytes r = (front : List ℕ) × Sent s front r.1 × Front bytes r.0 front

ℕ-cases : (n : ℕ) → (n ≡ 0) ⊎ ((m : ℕ) × (n ≡ suc m))
ℕ-cases zero = inl refl
ℕ-cases (suc m) = inr (m, refl)

stopped : (bytes : List ℕ) (s t : Socket) → Sent s [] t → Outcome s bytes (false, t)
stopped bytes s t sent = ([], sent, (bytes, refl, λ h. cc))

resumed :
    (b : ℕ) (bs : List ℕ) (n : ℕ) (s t : Socket) (r : Bool × Socket)
    → Sent s (take (suc n) (b ∷ bs)) t
    → Outcome t (drop n bs) r
    → Outcome s (b ∷ bs) r
resumed b bs n s t r sent (front, more, rest) = (
  (b ∷ take n bs) ++ front,
  Sent-append sent more,
  Front-append (b ∷ take n bs) (drop n bs) (b ∷ bs) front r.0
      (ap (λ t. b ∷ t) (sym (take-append-drop n bs))) rest,
)

send_loop-Sent : (fuel : ℕ) (bytes : List ℕ) (s : Socket) → Outcome s bytes (send_loop fuel bytes s)
unfolding send_loop
send_loop-Sent fuel [] s = (
  [],
  record { outbox = sym (append-nil s.outbox); inbox = refl; reads = refl },
  ([], refl, λ h. refl),
)
send_loop-Sent zero (b ∷ bs) s =
    stopped (b ∷ bs) s s (record { outbox = sym (append-nil s.outbox); inbox = refl; reads = refl })
send_loop-Sent (suc fuel) (b ∷ bs) s = elim (ℕ-cases (sys_write (b ∷ bs) s).0) [
  | inl e ↦
      rw (e, send_loop) (stopped (b ∷ bs) s (sys_write (b ∷ bs) s).1 (sys_write-at (b ∷ bs) s _ e))
  | inr (n, e) ↦
      rw (e, send_loop)
        (resumed b bs n s (sys_write (b ∷ bs) s).1
          (send_loop fuel (drop n bs) (sys_write (b ∷ bs) s).1) (sys_write-at (b ∷ bs) s _ e)
          (send_loop-Sent fuel (drop n bs) (sys_write (b ∷ bs) s).1))
]

-- `send_all` appends a front of its bytes to what was written, in order, and nothing is read; if
-- it reports success, the front is all of them.
pub send_all-Sent :
    (bytes : List ℕ) (s : Socket)
    → (front : List ℕ) × Sent s front (send_all bytes s).1 × Front bytes (send_all bytes s).0 front
unfolding send_all
send_all-Sent bytes s = send_loop-Sent (length bytes) bytes s

-- The two parts of a success, for the callers.
pub send_all-ok : (bytes : List ℕ) (s s' : Socket) → send_all bytes s ≡ (true, s') → Sent s bytes s'
send_all-ok bytes s s' h =
    let (front, sent, (back, e, all)) = send_all-Sent bytes s in
    let whole : bytes ≡ front =
      e ∙ (ap (λ t. front ++ t) (all (ap (λ r. r.0) h)) ∙ append-nil front) in
    subst (λ t. Sent s bytes t) (ap (λ r. r.1) h)
      (subst (λ t. Sent s t (send_all bytes s).1) (sym whole) sent)

abbrev Positive : List ℕ → Type 0
Positive = All (λ k. 0 < k)

later-Positive : (ks : List ℕ) → Positive ks → Positive (later ks)
later-Positive [] p = tt
later-Positive (k ∷ ks) p = p.1

choice-le : (ks : List ℕ) (want : ℕ) → choice ks want ≤ want
choice-le [] want = omega arith
choice-le (k ∷ ks) want = omega arith

choice-pos : (ks : List ℕ) (want : ℕ) → Positive ks → 0 < want → 0 < choice ks want
choice-pos [] want p h = h
choice-pos (k ∷ ks) want p h = omega (arith, p.0)

sys_write-pos :
    (b : ℕ) (bs : List ℕ) (s : Socket)
    → Positive s.writes
    → (0 < (sys_write (b ∷ bs) s).0) × Positive (sys_write (b ∷ bs) s).1.writes
unfolding sys_write
sys_write-pos b bs s p =
    (choice-pos s.writes (suc (length bs)) p (omega arith), later-Positive s.writes p)

send_loop-total :
    (fuel : ℕ) (bytes : List ℕ) (s : Socket)
    → length bytes ≤ fuel
    → Positive s.writes
    → (send_loop fuel bytes s).0 ≡ true
unfolding send_loop
send_loop-total fuel [] s f p = refl
send_loop-total zero (b ∷ bs) s f p = absurd (omega arith)
send_loop-total (suc fuel) (b ∷ bs) s f p = elim (ℕ-cases (sys_write (b ∷ bs) s).0) [
  | inl e ↦ absurd (omega (arith, (sys_write-pos b bs s p).0))
  | inr (n, e) ↦
      rw (e, send_loop)
        (send_loop-total fuel (drop n bs) (sys_write (b ∷ bs) s).1 (omega (arith, length-drop n bs))
          (sys_write-pos b bs s p).1)
]

-- As long as every `write` takes at least one byte, `send_all` succeeds: short writes are resumed.
pub send_all-total : (bytes : List ℕ) (s : Socket) → Positive s.writes → (send_all bytes s).0 ≡ true
unfolding send_all
send_all-total bytes s p = send_loop-total (length bytes) bytes s (omega arith) p

send_loop-Positive :
    (fuel : ℕ) (bytes : List ℕ) (s : Socket)
    → Positive s.writes
    → Positive (send_loop fuel bytes s).1.writes
unfolding send_loop
send_loop-Positive fuel [] s p = p
send_loop-Positive zero (b ∷ bs) s p = p
send_loop-Positive (suc fuel) (b ∷ bs) s p = elim (ℕ-cases (sys_write (b ∷ bs) s).0) [
  | inl e ↦ rw (e, send_loop) (sys_write-pos b bs s p).1
  | inr (n, e) ↦
      rw (e, send_loop)
        (send_loop-Positive fuel (drop n bs) (sys_write (b ∷ bs) s).1 (sys_write-pos b bs s p).1)
]

-- What is left of the kernel's choices has no failure either.
pub send_all-Positive :
    (bytes : List ℕ) (s : Socket) → Positive s.writes → Positive (send_all bytes s).1.writes
unfolding send_all
send_all-Positive bytes s p = send_loop-Positive (length bytes) bytes s p
