-- ===== src/Handshake/Streams.antt =====
-- What the steps of a handshake read from the connection and write to it.
use mathlib.Core.Path.{subst}
use mathlib.Core.List.{append_assoc, append-nil}
use hybrid_pqc_benchmarking.Prelude.{
  ℕ, ◌≡◌, refl, ap, sym, ◌∙◌, Bool, true, false, ltb, leb, ◌&&◌, ◌==◌, ==_iff, Bool-cases, inl, inr,
  Option, none, some, List, [], ◌++◌, arith, length,
}
use hybrid_pqc_benchmarking.Act.{
  Act, >>=-cases, caught-eq-some, require-eq-some, guard-eq-some, ◌>>◌, pure, attempt, guard,
  require,
}
use hybrid_pqc_benchmarking.External.{Openssl, Liboqs}
use hybrid_pqc_benchmarking.Net.{Socket, recv_all, send_all}
use hybrid_pqc_benchmarking.Net.Recv.{recv_all-Received}
use hybrid_pqc_benchmarking.Net.Send.{Sent, send_all-Sent, send_all-ok}
use hybrid_pqc_benchmarking.Wire.{WireHeader, wire_magic, decode_header}
use hybrid_pqc_benchmarking.Handshake.{
  Party, on_ec, on_kem, put_sock, put_ec, put_kem, reported, recv, send, recv_header, recv_pub,
  max_pub_key_bytes,
}

-- From `s` to `s'` the bytes `inp` were read and the bytes `out` were written.
pub record Io (s : Socket) (inp out : List ℕ) (s' : Socket) : Type 0 where
  pub inbox : s.inbox ≡ inp ++ s'.inbox
  pub outbox : s'.outbox ≡ s.outbox ++ out

pub Io-refl : (s : Socket) → Io s [] [] s
Io-refl s = record { inbox = refl; outbox = sym (append-nil s.outbox) }

-- A read and then a write.
pub Io-answer : {s t u : Socket} {a d : List ℕ} → Io s a [] t → Io t [] d u → Io s a d u
Io-answer {s} {a = a} {d} x y = record {
  inbox = x.inbox ∙ ap (λ z. a ++ z) y.inbox;
  outbox = y.outbox ∙ (ap (λ z. z ++ d) x.outbox ∙ append_assoc s.outbox [] d);
}

pub Io-trans :
    {s t u : Socket} {a b c d : List ℕ} → Io s a b t → Io t c d u → Io s (a ++ c) (b ++ d) u
Io-trans {s} {t} {u} {a} {b} {c} {d} x y = record {
  inbox = x.inbox ∙ (ap (λ z. a ++ z) y.inbox ∙ sym (append_assoc a c u.inbox));
  outbox = y.outbox ∙ (ap (λ z. z ++ d) x.outbox ∙ append_assoc s.outbox b d);
}

-- A step that leaves the connection alone.
pub Io-quiet : {s t u : Socket} {a b : List ℕ} → t ≡ s → Io t a b u → Io s a b u
Io-quiet {b = b} e x = record {
  inbox = ap (λ (z : Socket). z.inbox) (sym e) ∙ x.inbox;
  outbox = x.outbox ∙ ap (λ (z : Socket). z.outbox ++ b) e;
}

both_true : (a b : Bool) → (a && b) ≡ true → (a ≡ true) × (b ≡ true)
both_true true true h = (refl, refl)
both_true true false h = absurd (ground arith)
both_true false b h = absurd (ground arith)

pub some_fst :
    {A B : Type 0} (a a' : A) (b b' : B)
    → ◌≡◌ {A = Option A × B} (some a, b) (some a', b')
    → (a ≡ a') × (b ≡ b')
some_fst a a' b b' h = ground arith

pub none-some :
    {A B : Type 0} (b b' : B) (a : A) → ¬ (◌≡◌ {A = Option A × B} (none, b) (some a, b'))
none-some b b' a h = ground arith

zero_length : (n : ℕ) → ltb 0 n ≡ false → 0 ≡ n
zero_length n e = ground arith

module _ (ssl : Openssl) (oqs : Liboqs) where
  abbrev P : Type 0
  P = Party ssl oqs

  pub put_ec-eq :
      {A : Type 0} (r : A × ssl.World) (p p' : P) (a : A)
      → put_ec ssl oqs p r ≡ (a, p')
      → (r ≡ (a, p'.ec)) × (p'.sock ≡ p.sock)
  put_ec-eq (a', w) p p' a h = (ground arith, ground arith)

  pub put_kem-eq :
      {A : Type 0} (r : A × oqs.World) (p p' : P) (a : A)
      → put_kem ssl oqs p r ≡ (a, p')
      → (r ≡ (a, p'.kem)) × (p'.sock ≡ p.sock)
  put_kem-eq (a', w) p p' a h = (ground arith, ground arith)

  pub put_sock-eq :
      {A : Type 0} (r : A × Socket) (p p' : P) (a : A)
      → put_sock ssl oqs p r ≡ (a, p')
      → r ≡ (a, p'.sock)
  put_sock-eq (a', w) p p' a h = ground arith

  reported-eq-some :
      (r : Bool × Socket) (s : Socket) → reported ssl oqs r ≡ (some tt, s) → r ≡ (true, s)
  reported-eq-some (true, s') s h = ground arith
  reported-eq-some (false, s') s h = absurd (ground arith)

  pub reported-snd : (r : Bool × Socket) → (reported ssl oqs r).1 ≡ r.1
  reported-snd (true, s') = refl
  reported-snd (false, s') = refl

  pub on_ec-eq-some :
      {A : Type 0} (m : Act ssl.World A) (p p' : P) (a : A)
      → on_ec ssl oqs m p ≡ (some a, p')
      → (m p.ec ≡ (some a, p'.ec)) × (p'.sock ≡ p.sock)
  on_ec-eq-some m p p' a h = put_ec-eq (m p.ec) p p' (some a) h

  pub on_kem-eq-some :
      {A : Type 0} (m : Act oqs.World A) (p p' : P) (a : A)
      → on_kem ssl oqs m p ≡ (some a, p')
      → (m p.kem ≡ (some a, p'.kem)) × (p'.sock ≡ p.sock)
  on_kem-eq-some m p p' a h = put_kem-eq (m p.kem) p p' (some a) h

  pub attempt-on_kem-quiet :
      {A : Type 0} (m : Act oqs.World A) (p p' : P) (r : Option A)
      → attempt (on_kem ssl oqs m) p ≡ (some r, p')
      → p'.sock ≡ p.sock
  attempt-on_kem-quiet m p p' r h =
      (put_kem-eq (m p.kem) p p' r (caught-eq-some (on_kem ssl oqs m p) h)).1

  pub recv-Io :
      (n : ℕ) (p p' : P) (bytes : List ℕ)
      → recv ssl oqs n p ≡ (some bytes, p')
      → Io p.sock bytes [] p'.sock × (length bytes ≡ n)
  unfolding recv
  recv-Io n p p' bytes h =
      let r =
        recv_all-Received n p.sock bytes p'.sock
          (put_sock-eq (recv_all n p.sock) p p' (some bytes) h) in
      (record { inbox = r.stream; outbox = r.outbox ∙ sym (append-nil p.sock.outbox) }, r.size)

  pub send-Io :
      (bytes : List ℕ) (p p' : P)
      → send ssl oqs bytes p ≡ (some tt, p')
      → Io p.sock [] bytes p'.sock
  unfolding send
  send-Io bytes p p' h =
      let e = put_sock-eq (reported ssl oqs (send_all bytes p.sock)) p p' (some tt) h in
      let s =
        send_all-ok bytes p.sock p'.sock (reported-eq-some (send_all bytes p.sock) p'.sock e) in
      record { inbox = sym s.inbox; outbox = s.outbox }

  pub attempt-send-Io :
      (bytes : List ℕ) (p p' : P) (r : Option (Unit {0}))
      → attempt (send ssl oqs bytes) p ≡ (some r, p')
      → (front : List ℕ) × (back : List ℕ) × (bytes ≡ front ++ back) × Io p.sock [] front p'.sock
  unfolding send
  attempt-send-Io bytes p p' r h =
      let e =
        put_sock-eq (reported ssl oqs (send_all bytes p.sock)) p p' r
          (caught-eq-some (send ssl oqs bytes p) h) in
      let (front, s, (back, f, _all)) = send_all-Sent bytes p.sock in
      let same : (send_all bytes p.sock).1 ≡ p'.sock =
        sym (reported-snd (send_all bytes p.sock)) ∙ ap (λ x. x.1) e in
      let s' = subst (Sent p.sock front) same s in
      (front, back, f, record { inbox = sym s'.inbox; outbox = s'.outbox })

  checked_header :
      (msg_type : ℕ) (bytes : List ℕ) (h' : WireHeader) (p p1 p2 p' : P) (h : WireHeader)
      → recv ssl oqs 12 p ≡ (some bytes, p1)
      → require (decode_header bytes) p1 ≡ (some h', p2)
      → (guard (h'.magic == wire_magic && h'.msg_type == msg_type) >> pure h') p2 ≡ (some h, p')
      → Io p.sock bytes [] p'.sock
        × (length bytes ≡ 12)
        × (decode_header bytes ≡ some h)
        × (h.magic ≡ wire_magic)
        × (h.msg_type ≡ msg_type)
  checked_header msg_type bytes h' p p1 p2 p' h e1 e2 f2 =
      elim (Bool-cases (h'.magic == wire_magic && h'.msg_type == msg_type)) [
        | inl good ↦
            let (magic, kind) = both_true (h'.magic == wire_magic) (h'.msg_type == msg_type) good in
            let (io, len) = recv-Io 12 p p1 bytes e1 in
            let (dec, s2) = require-eq-some (decode_header bytes) p1 e2 in
            let f : ◌≡◌ {A = Option WireHeader × P} (some h', p2) (some h, p') = rw good at f2 in
            let (s3, s4) = some_fst h' h p2 p' f in
            (
              subst (λ (z : P). Io p.sock bytes [] z.sock) (sym s2 ∙ s4) io,
              len,
              dec ∙ ap some s3,
              ap (λ (z : WireHeader). z.magic) (sym s3) ∙ (==_iff h'.magic wire_magic).0 magic,
              ap (λ (z : WireHeader). z.msg_type) (sym s3) ∙ (==_iff h'.msg_type msg_type).0 kind,
            )
        | inr bad ↦ absurd (none-some p2 p' h (rw bad at f2))
      ]

  -- A header that was accepted: its 12 bytes, and what they say.
  pub recv_header-Io :
      (msg_type : ℕ) (p p' : P) (h : WireHeader)
      → recv_header ssl oqs msg_type p ≡ (some h, p')
      → (bytes : List ℕ) × Io p.sock bytes [] p'.sock
        × (length bytes ≡ 12)
        × (decode_header bytes ≡ some h)
        × (h.magic ≡ wire_magic)
        × (h.msg_type ≡ msg_type)
  unfolding recv_header
  recv_header-Io msg_type p p' h e = >>=-cases (recv ssl oqs 12) _ p e λ bytes p1 e1 f1.
      >>=-cases (require (decode_header bytes)) _ p1 f1 λ h' p2 e2 f2.
        let (io, len, dec, magic, kind) = checked_header msg_type bytes h' p p1 p2 p' h e1 e2 f2 in
        (bytes, io, len, dec, magic, kind)

  pub recv_pub-Io :
      (n : ℕ) (p p' : P) (bytes : List ℕ)
      → recv_pub ssl oqs n p ≡ (some bytes, p')
      → Io p.sock bytes [] p'.sock × (length bytes ≡ n)
  unfolding recv_pub
  recv_pub-Io n p p' bytes h = elim (Bool-cases (ltb 0 n)) [
    | inl e ↦ >>=-cases (guard (leb n max_pub_key_bytes)) _ p (rw e at h) λ _u p1 e1 f1.
        let (_fits, same) = guard-eq-some (leb n max_pub_key_bytes) p e1 in
        recv-Io n p p' bytes (subst (λ z. recv ssl oqs n z ≡ (some bytes, p')) same f1)
    | inr e ↦
        let (b, s) = some_fst [] bytes p p' (rw e at h) in
        (
          subst (λ z. Io p.sock z [] p'.sock) b
              (Io-quiet (ap (λ (z : P). z.sock) (sym s)) (Io-refl p'.sock)),
          ap length (sym b) ∙ zero_length n e,
        )
  ]
