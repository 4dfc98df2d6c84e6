-- ===== src/Handshake/Live.antt =====
-- The steps of a handshake succeed where the libraries do and the connection delivers.
pub mod Libraries
pub mod ClientSteps
pub mod Client
pub mod Server
use mathlib.Core.Path.{subst}
use hybrid_pqc_benchmarking.Prelude.{
  String, ℕ, ◌+◌, ◌^◌, ◌≤◌, ◌<◌, ◌≡◌, refl, ap, ◌∙◌, sym, Bool, true, false, ltb, leb, ◌&&◌, ◌==◌,
  ==_refl, Bool-cases, inl, inr, Option, none, some, List, [], ◌∷◌, ◌++◌, arith, length,
  length-append, append-cancel,
}
use hybrid_pqc_benchmarking.Act.{Act, after, ◌>>=◌, pure, attempt, guard, require}
use hybrid_pqc_benchmarking.External.{Openssl, Liboqs, Nid, OqsKem}
use hybrid_pqc_benchmarking.Net.{Socket, recv_all, send_all}
use hybrid_pqc_benchmarking.Net.Recv.{Positive, recv_all-total, recv_all-Received}
use hybrid_pqc_benchmarking.Net.Send.{send_all-total, send_all-Positive, send_all-ok}
use hybrid_pqc_benchmarking.Wire.{WireHeader, wire_magic, encode_header, decode_header}
use hybrid_pqc_benchmarking.Wire.Codec.{
  HeaderFits, decode_header-encode_header, length-encode_header,
}
use hybrid_pqc_benchmarking.Handshake.{
  recv_header, Party, on_ec, on_kem, put_sock, put_ec, put_kem, reported, recv, send, recv_pub,
  max_pub_key_bytes,
}

-- A call that never fails.
abbrev pub Total : {W A : Type 0} → Act W A → Type 0
Total {W} {A} m = (w : W) → (a : A) × (v : W) × (m w ≡ (some a, v))

-- The calls behind the generation of a key do not fail.
pub record IsUpOpenssl (ssl : Openssl) : Type 0 where
  pub new_from_name : (name : String) → Total (ssl.pkey_ctx_new_from_name name)
  pub new_id_ec : Total ssl.pkey_ctx_new_id_ec
  pub keygen_init : (c : ssl.Ctx) → Total (ssl.keygen_init c)
  pub set_curve : (c : ssl.Ctx) (nid : Nid) → Total (ssl.set_ec_paramgen_curve_nid c nid)
  pub generate : (c : ssl.Ctx) → Total (ssl.generate c)

-- There is memory, and key pairs can be made.
pub record IsUpLiboqs (oqs : Liboqs) : Type 0 where
  pub malloc : (n : ℕ) → Total (oqs.malloc n)
  pub keypair : (kem : OqsKem) → Total (oqs.keypair kem)

pub Total-pure : {W A : Type 0} (a : A) → Total {W = W} (pure a)
Total-pure a w = (a, w, refl)

pub Total->>= :
    {W A B : Type 0} (m : Act W A) (f : A → Act W B)
    → Total m
    → ((a : A) → Total (f a))
    → Total (m >>= f)
Total->>= m f t k w =
    let (a, v, e) = t w in let (b, u, g) = k a v in (b, u, ap (λ r. after r f) e ∙ g)

pub Total-attempt : {W A : Type 0} (m : Act W A) → Total (attempt m)
Total-attempt m w = ((m w).0, (m w).1, refl)

no_bytes : (xs : List ℕ) → length xs ≡ 0 → xs ≡ []
no_bytes [] h = refl
no_bytes (x ∷ xs) h = absurd (omega arith)

zero_bytes : (n : ℕ) → ltb 0 n ≡ false → n ≡ 0
zero_bytes n e = ground arith

-- No call on the connection fails as long as there are bytes.
abbrev pub Flows : Socket → Type 0
Flows s = Positive s.reads × Positive s.writes

-- The connection flows, and these bytes are still to come.
abbrev pub Holds : List ℕ → Socket → Type 0
Holds bytes s = (s.inbox ≡ bytes) × Flows s

module _ (ssl : Openssl) (oqs : Liboqs) where
  abbrev P : Type 0
  P = Party ssl oqs

  -- A run that gives something, with what then holds.
  pub record Gets {A : Type 0} (m : Act P A) (p : P) (Q : A → Socket → Type 0) : Type 0 where
    pub value : A
    pub party : P
    pub runs : m p ≡ (some value, party)
    pub then_holds : Q value party.sock

  pub bind_at :
      {A B : Type 0} {Q : B → Socket → Type 0} (m : Act P A) (f : A → Act P B) (p : P) (a : A)
      (p1 : P)
      → m p ≡ (some a, p1)
      → Gets (f a) p1 Q
      → Gets (m >>= f) p Q
  bind_at m f p a p1 e g = record {
    value = g.value;
    party = g.party;
    runs = ap (λ r. after r f) e ∙ g.runs;
    then_holds = g.then_holds;
  }

  pub Gets->>= :
      {A B : Type 0} {Q : A → Socket → Type 0} {R : B → Socket → Type 0} (m : Act P A)
      (f : A → Act P B) (p : P)
      → Gets m p Q
      → ((a : A) (p1 : P) → Q a p1.sock → Gets (f a) p1 R)
      → Gets (m >>= f) p R
  Gets->>= m f p g k = bind_at m f p g.value g.party g.runs (k g.value g.party g.then_holds)

  pub Gets-pure :
      {A : Type 0} {Q : A → Socket → Type 0} (a : A) (p : P) → Q a p.sock → Gets (pure a) p Q
  Gets-pure a p q = record { value = a; party = p; runs = refl; then_holds = q }

  pub Gets-imp :
      {A : Type 0} {Q R : A → Socket → Type 0} (m : Act P A) (p : P)
      → Gets m p Q
      → ((a : A) (s : Socket) → Q a s → R a s)
      → Gets m p R
  Gets-imp m p g k = record {
    value = g.value;
    party = g.party;
    runs = g.runs;
    then_holds = k g.value g.party.sock g.then_holds;
  }

  -- A library call leaves the connection alone.
  pub Gets-on_ec :
      {A : Type 0} (m : Act ssl.World A) (p : P)
      → Total m
      → Gets (on_ec ssl oqs m) p (λ a s. s ≡ p.sock)
  Gets-on_ec m p t =
      let (a, v, e) = t p.ec in
      record {
        value = a;
        party = record p { ec = v };
        runs = ap (put_ec ssl oqs p) e;
        then_holds = refl;
      }

  pub Gets-on_kem :
      {A : Type 0} (m : Act oqs.World A) (p : P)
      → Total m
      → Gets (on_kem ssl oqs m) p (λ a s. s ≡ p.sock)
  Gets-on_kem m p t =
      let (a, v, e) = t p.kem in
      record {
        value = a;
        party = record p { kem = v };
        runs = ap (put_kem ssl oqs p) e;
        then_holds = refl;
      }

  -- The next bytes are read.
  pub Gets-recv :
      (n : ℕ) (xs ys : List ℕ) (p : P)
      → length xs ≡ n
      → Holds (xs ++ ys) p.sock
      → Gets (recv ssl oqs n) p (λ bytes s. (xs ≡ bytes) × Holds ys s)
  unfolding recv
  Gets-recv n xs ys p l (here, (reads, writes)) =
      let (bytes, s', e, reads') =
        recv_all-total n p.sock reads (omega (arith, ap length here, length-append xs ys)) in
      let r = recv_all-Received n p.sock bytes s' e in
      let (same, rest) =
        append-cancel xs bytes ys s'.inbox (sym here ∙ r.stream) (l ∙ sym r.size) in
      record {
        value = bytes;
        party = record p { sock = s' };
        runs = ap (put_sock ssl oqs p) e;
        then_holds = (same, (sym rest, (reads', subst Positive (sym r.writes) writes)));
      }

  reported-true : (r : Bool × Socket) → r.0 ≡ true → reported ssl oqs r ≡ (some tt, r.1)
  reported-true (true, s) h = refl
  reported-true (false, s) h = absurd (ground arith)

  pair_eq : (r : Bool × Socket) → r.0 ≡ true → r ≡ (true, r.1)
  pair_eq (true, s) h = refl
  pair_eq (false, s) h = absurd (ground arith)

  -- Bytes are sent.
  pub Gets-send :
      (bytes ys : List ℕ) (p : P)
      → Holds ys p.sock
      → Gets (send ssl oqs bytes) p (λ _u s. Holds ys s)
  unfolding send
  Gets-send bytes ys p (here, (reads, writes)) =
      let ok = send_all-total bytes p.sock writes in
      let s' = (send_all bytes p.sock).1 in
      let sent = send_all-ok bytes p.sock s' (pair_eq (send_all bytes p.sock) ok) in
      record {
        value = tt;
        party = record p { sock = s' };
        runs = ap (put_sock ssl oqs p) (reported-true (send_all bytes p.sock) ok);
        then_holds = (
          sent.inbox ∙ here,
          (subst Positive (sym sent.reads) reads, send_all-Positive bytes p.sock writes),
        );
      }

  -- A key that fits its buffer.
  pub Gets-recv_pub :
      (n : ℕ) (xs ys : List ℕ) (p : P)
      → length xs ≡ n
      → n ≤ max_pub_key_bytes
      → Holds (xs ++ ys) p.sock
      → Gets (recv_pub ssl oqs n) p (λ bytes s. (xs ≡ bytes) × Holds ys s)
  unfolding recv_pub
  Gets-recv_pub n xs ys p l fits h = elim (Bool-cases (ltb 0 n)) [
    | inl e ↦
        let small : leb n max_pub_key_bytes ≡ true = ground arith in
        rw (e, small) (Gets-recv n xs ys p l h)
    | inr e ↦
        let empty = no_bytes xs (omega (arith, l, zero_bytes n e)) in
        rw e (record {
          value = [];
          party = p;
          runs = refl;
          then_holds = (empty, subst (λ t. Holds (t ++ ys) p.sock) empty h);
        })
  ]

  -- A header of the expected type.
  pub Gets-recv_header :
      (msg_type : ℕ) (hdr : WireHeader) (ys : List ℕ) (p : P)
      → HeaderFits hdr
      → hdr.magic ≡ wire_magic
      → hdr.msg_type ≡ msg_type
      → Holds (encode_header hdr ++ ys) p.sock
      → Gets (recv_header ssl oqs msg_type) p (λ h s. (hdr ≡ h) × Holds ys s)
  unfolding recv_header
  Gets-recv_header msg_type hdr ys p fits magic kind h =
      Gets->>= (recv ssl oqs 12) _ p
        (Gets-recv 12 (encode_header hdr) ys p (length-encode_header hdr) h)
        λ bytes p1 (same, left).
          let dec : decode_header bytes ≡ some hdr =
            ap decode_header (sym same) ∙ decode_header-encode_header hdr fits in
          let good : (hdr.magic == wire_magic && hdr.msg_type == msg_type) ≡ true =
            rw (magic, kind) (==_refl msg_type) in
          bind_at (require (decode_header bytes)) _ p1 hdr p1
            (ap (λ (o : Option WireHeader). require o p1) dec)
            (bind_at (guard (hdr.magic == wire_magic && hdr.msg_type == msg_type)) _ p1 tt p1
              (ap (λ b. guard b p1) good) (Gets-pure hdr p1 (refl, left)))
