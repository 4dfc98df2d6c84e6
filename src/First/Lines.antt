-- ===== src/First/Lines.antt =====
-- What the two programs of c/ read and write, line by line, over a connection whose writes are whole.
use mathlib.Core.Path.{subst, ap₂}
use mathlib.Core.List.{append_assoc, append-nil}
use hybrid_pqc_benchmarking.Prelude.{
  if-cases, ℕ, zero, suc, ◌≤◌, ◌≡◌, ◌≢◌, refl, ap, sym, ◌∙◌, Bool, false, Option, none, some,
  String, List, [], ◌∷◌, ◌++◌, arith, length, take, take-length_le, ◌==◌, str_eq, All, Bool-cases,
  Option-cases, List-cases, inl, inr,
}
use hybrid_pqc_benchmarking.Prelude.Int.{pos}
use hybrid_pqc_benchmarking.Act.{
  >>=-cases, after, caught-eq-some, require-eq-some, attempt, require,
}
use hybrid_pqc_benchmarking.External.{Openssl, Liboqs, Cjson, json_string, json_number, json_other}
use hybrid_pqc_benchmarking.Net.{
  Socket, sys_read, sys_write, choice, LineBuffer, empty_line, grow, store_byte, recv_line_loop,
  recv_line, send_line,
}
use hybrid_pqc_benchmarking.Net.Line.{recv_line-Read}
use hybrid_pqc_benchmarking.Handshake.{Party, put_sock, reported}
use hybrid_pqc_benchmarking.Handshake.Encaps.{b64_decode}
use hybrid_pqc_benchmarking.Handshake.Json.{c_string, recv_json, send_json}
use hybrid_pqc_benchmarking.Handshake.Streams.{put_sock-eq, reported-snd}

-- Base64 without line breaks, as the OpenSSL manual describes its filter, with memory at hand.
pub record IsLawfulBase64 (ssl : Openssl) : Type 0 where
  pub encoded : List ℕ → List ℕ
  pub writes : (bs : List ℕ) → ssl.bio_b64_write bs ≡ some (encoded bs)
  pub encoded-nil : encoded [] ≡ []
  pub encoded-cons : (b : ℕ) (bs : List ℕ) → (t : ℕ) × (ts : List ℕ) × (encoded (b ∷ bs) ≡ t ∷ ts)
  pub reads :
      (b : ℕ) (bs : List ℕ) (n : ℕ)
      → length (b ∷ bs) ≤ n
      → ssl.bio_b64_read (encoded (b ∷ bs)) n ≡ some (b ∷ bs)
  pub encoded-text : (bs : List ℕ) → c_string (encoded bs) ≡ encoded bs

-- cJSON, with memory at hand: an object is printed on one line, its text is read as an object with
-- the same members, and a member is found under its name.
pub record IsLawfulCjson (json : Cjson) : Type 0 where
  pub printed : json.Object → List ℕ
  pub prints : (o : json.Object) → json.print_unformatted o ≡ some (printed o)
  pub one_line : (o : json.Object) → All (λ c. c ≢ b'\n') (printed o)
  pub is_text : (o : json.Object) → c_string (printed o) ≡ printed o
  pub parse-printed :
      (o o' : json.Object) (name : String)
      → json.parse (printed o) ≡ some o'
      → json.get_object_item o' name ≡ json.get_object_item o name
  pub get-create : (name : String) → json.get_object_item json.create_object name ≡ none
  pub get-add_string :
      (o : json.Object) (name : String) (text : List ℕ)
      → json.get_object_item o name ≡ none
      → c_string text ≡ text
      → json.get_object_item (json.add_string o name text) name ≡ some (json_string text)
  pub get-add_string_other :
      (o : json.Object) (name other : String) (text : List ℕ)
      → str_eq name other ≡ false
      → json.get_object_item (json.add_string o name text) other ≡ json.get_object_item o other
  pub get-add_number :
      (o : json.Object) (name : String) (n : ℕ)
      → json.get_object_item o name ≡ none
      → json.get_object_item (json.add_number o name (json.of_int n)) name
        ≡ some (json_number (pos n))
  pub get-add_number_other :
      (o : json.Object) (name other : String) (n : json.Number)
      → str_eq name other ≡ false
      → json.get_object_item (json.add_number o name n) other ≡ json.get_object_item o other
  pub get-add_null :
      (o : json.Object) (name : String)
      → json.get_object_item o name ≡ none
      → json.get_object_item (json.add_null o name) name ≡ some json_other
  pub get-add_null_other :
      (o : json.Object) (name other : String)
      → str_eq name other ≡ false
      → json.get_object_item (json.add_null o name) other ≡ json.get_object_item o other

abbrev pub line : List ℕ → List ℕ
line text = text ++ (b'\n' ∷ [])

-- From `s` to `s'` the bytes `inp` were read and `out` was written; whole writes stay whole.
pub record Talk (s : Socket) (inp out : List ℕ) (s' : Socket) : Type 0 where
  pub inbox : s.inbox ≡ inp ++ s'.inbox
  pub outbox : s'.outbox ≡ s.outbox ++ out
  pub whole : s.writes ≡ [] → s'.writes ≡ []

pub Talk-quiet : {s s' : Socket} → s' ≡ s → Talk s [] [] s'
Talk-quiet {s} {s'} e = record {
  inbox = ap (λ (z : Socket). z.inbox) (sym e);
  outbox = ap (λ (z : Socket). z.outbox) e ∙ sym (append-nil s.outbox);
  whole = λ h. ap (λ (z : Socket). z.writes) e ∙ h;
}

pub Talk-trans :
    {s t u : Socket} {a b c d : List ℕ} → Talk s a b t → Talk t c d u → Talk s (a ++ c) (b ++ d) u
Talk-trans {s} {t} {u} {a} {b} {c} {d} x y = record {
  inbox = x.inbox ∙ (ap (λ z. a ++ z) y.inbox ∙ sym (append_assoc a c u.inbox));
  outbox = y.outbox ∙ (ap (λ z. z ++ d) x.outbox ∙ append_assoc s.outbox b d);
  whole = λ h. y.whole (x.whole h);
}

-- Where a text without a newline is followed by one, it ends there.
pub line_unique :
    (a b r r' : List ℕ)
    → All (λ c. c ≢ b'\n') a
    → All (λ c. c ≢ b'\n') b
    → a ++ (b'\n' ∷ r) ≡ b ++ (b'\n' ∷ r')
    → (a ≡ b) × (r ≡ r')
line_unique [] [] r r' p q h = (refl, ground arith)
line_unique [] (y ∷ b) r r' p q h = absurd (q.0 (ground arith))
line_unique (x ∷ a) [] r r' p q h = absurd (p.0 (ground arith))
line_unique (x ∷ a) (y ∷ b) r r' p q h =
    let (e, f) = line_unique a b r r' p.1 q.1 (ground arith) in
    (ap₂ (λ u v. u ∷ v) (ground arith) e, f)

recv_line_loop-quiet :
    (ok : ℕ → Bool) (fuel : ℕ) (b : LineBuffer) (s : Socket)
    → ((recv_line_loop ok fuel b s).1.outbox ≡ s.outbox)
      × ((recv_line_loop ok fuel b s).1.writes ≡ s.writes)
unfolding recv_line_loop sys_read
recv_line_loop-quiet ok zero b s = (refl, refl)
recv_line_loop-quiet ok (suc fuel) b s = elim (Option-cases (grow ok b)) [
  | inl full ↦ rw (full, recv_line_loop) (refl, refl)
  | inr (g, e) ↦ elim (List-cases (take (choice s.reads 1) s.inbox)) [
    | inl eof ↦ rw (e, eof, recv_line_loop) (refl, refl)
    | inr (c, cs, f) ↦ elim (Bool-cases (c == b'\n')) [
      | inl nl ↦ rw (e, f, nl, recv_line_loop) (refl, refl)
      | inr other ↦
          rw (e, f, other, recv_line_loop)
            (recv_line_loop-quiet ok fuel (store_byte g c) (sys_read 1 s).1)
    ]
  ]
]

-- Reading writes nothing.
recv_line-quiet :
    (ok : ℕ → Bool) (s : Socket)
    → ((recv_line ok s).1.outbox ≡ s.outbox) × ((recv_line ok s).1.writes ≡ s.writes)
unfolding recv_line
recv_line-quiet ok s =
    if-cases (λ (r : Option LineBuffer × Socket). (r.1.outbox ≡ s.outbox) × (r.1.writes ≡ s.writes))
      (ok 4096) (λ _. recv_line_loop-quiet ok (suc (length s.inbox)) empty_line s)
      (λ _. (refl, refl))

recv_line-Talk :
    (ok : ℕ → Bool) (s : Socket) (b : LineBuffer) (s' : Socket)
    → recv_line ok s ≡ (some b, s')
    → Talk s (line b.bytes) [] s' × All (λ c. c ≢ b'\n') b.bytes
recv_line-Talk ok s b s' h =
    let (_count, _room, stream, plain) = recv_line-Read ok s b s' h in
    let (out, whole) =
      subst (λ (z : Socket). (z.outbox ≡ s.outbox) × (z.writes ≡ s.writes)) (ap (λ r. r.1) h)
        (recv_line-quiet ok s) in
    (
      record {
        inbox = stream ∙ sym (append_assoc b.bytes (b'\n' ∷ []) s'.inbox);
        outbox = out ∙ sym (append-nil s.outbox);
        whole = λ w. whole ∙ w;
      },
      plain,
    )

sys_write_whole :
    (bytes : List ℕ) (s : Socket)
    → s.writes ≡ []
    → sys_write bytes s ≡ (length bytes, record s { outbox = s.outbox ++ bytes })
unfolding sys_write
sys_write_whole bytes s w = rw w (rw (take-length_le (length bytes) bytes (omega arith)) refl)

module _ {ssl : Openssl} (B : IsLawfulBase64 ssl) where
  -- What was encoded is decoded, the empty text included.
  pub b64_decode-encoded :
      (bs : List ℕ) (n : ℕ) → length bs ≤ n → b64_decode ssl (some (B.encoded bs)) n ≡ some bs
  unfolding b64_decode
  b64_decode-encoded [] n h = rw (B.encoded-nil, b64_decode) refl
  b64_decode-encoded (b ∷ bs) n h =
      let (t, ts, e) = B.encoded-cons b bs in rw (e, b64_decode) (rw e at (B.reads b bs n h))

module _ (ssl : Openssl) (oqs : Liboqs) (json : Cjson) (realloc_ok : ℕ → Bool) where
  abbrev P : Type 0
  P = Party ssl oqs

  pub recv_json-Talk :
      (p p' : P) (o : json.Object)
      → recv_json ssl oqs json realloc_ok p ≡ (some o, p')
      → (text : List ℕ) × Talk p.sock (line text) [] p'.sock
        × All (λ c. c ≢ b'\n') text
        × (json.parse (c_string text) ≡ some o)
  unfolding recv_json
  recv_json-Talk p p' o h =
      >>=-cases (λ (q : P). put_sock ssl oqs q (recv_line realloc_ok q.sock)) _ p h
        λ b p1 e1 f1.
          let (parsed, same) = require-eq-some (json.parse (c_string b.bytes)) p1 f1 in
          let (talk, plain) =
            recv_line-Talk realloc_ok p.sock b p1.sock
              (put_sock-eq ssl oqs (recv_line realloc_ok p.sock) p p1 (some b) e1) in
          (
            b.bytes,
            subst (λ (z : P). Talk p.sock (line b.bytes) [] z.sock) (sym same) talk,
            plain,
            parsed,
          )

  put_sock-snd : {A : Type 0} (p : P) (r : A × Socket) → (put_sock ssl oqs p r).1.sock ≡ r.1
  put_sock-snd p (a, s) = refl

  after-require :
      {A B W : Type 0} (r : Option A × W) (g : A → Option B)
      → (after r (λ a. require (g a))).1 ≡ r.1
  after-require (none, w) g = refl
  after-require (some a, w) g = elim (Option-cases (g a)) [
    | inl e ↦ rw e refl
    | inr (b, e) ↦ rw e refl
  ]

  -- Whatever comes, nothing is written.
  pub attempt-recv_json-outbox :
      (p p' : P) (r : Option json.Object)
      → attempt (recv_json ssl oqs json realloc_ok) p ≡ (some r, p')
      → p'.sock.outbox ≡ p.sock.outbox
  unfolding recv_json
  attempt-recv_json-outbox p p' r h =
      let got = recv_line realloc_ok p.sock in
      let same = ap (λ z. z.1) (caught-eq-some (recv_json ssl oqs json realloc_ok p) h) in
      ap (λ (z : P). z.sock.outbox)
        (sym same ∙ after-require (put_sock ssl oqs p got) (λ b. json.parse (c_string b.bytes)))
      ∙ ap (λ (z : Socket). z.outbox) (put_sock-snd p got)
      ∙ (recv_line-quiet realloc_ok p.sock).0

  module _ (J : IsLawfulCjson json) where
    -- A line that is sent goes out whole.
    pub attempt-send_json-Talk :
        (o : json.Object) (p p' : P) (r : Option (Unit {0}))
        → p.sock.writes ≡ []
        → attempt (send_json ssl oqs json realloc_ok o) p ≡ (some r, p')
        → Talk p.sock [] (line (J.printed o)) p'.sock
    unfolding send_json send_line
    attempt-send_json-Talk o p p' r w h =
        let text = J.printed o in
        let sent = send_line text p.sock in
        let e =
          put_sock-eq ssl oqs (reported ssl oqs sent) p p' r
            (caught-eq-some (put_sock ssl oqs p (reported ssl oqs sent)) (rw (J.prints o) at h)) in
        let s : p'.sock ≡ sent.1 = sym (ap (λ z. z.1) e) ∙ reported-snd ssl oqs sent in
        let out : p'.sock ≡ record p.sock { outbox = p.sock.outbox ++ line text } =
          s ∙ ap (λ z. z.1) (sys_write_whole (line text) p.sock w) in
        record {
          inbox = sym (ap (λ (z : Socket). z.inbox) out);
          outbox = ap (λ (z : Socket). z.outbox) out;
          whole = λ _w. ap (λ (z : Socket). z.writes) out ∙ w;
        }
