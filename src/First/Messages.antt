-- ===== src/First/Messages.antt =====
-- What the lines of c/client.c and c/server.c say to the side that reads them.
use hybrid_pqc_benchmarking.Prelude.{
  ℕ, ◌<◌, ◌≡◌, refl, sym, ◌∙◌, Bool, true, false, ltb, lt→ltb, str_eq, none, some, String, List,
  length, codes, Bool-cases, inl, inr,
}
use hybrid_pqc_benchmarking.Prelude.Int.{pos, negsuc}
use hybrid_pqc_benchmarking.External.{Openssl, Liboqs, Cjson, json_string, json_number, json_other}
use hybrid_pqc_benchmarking.Algo.{AlgoCombo}
use hybrid_pqc_benchmarking.Handshake.{static_salt}
use hybrid_pqc_benchmarking.Handshake.Encaps.{PqcKeys}
use hybrid_pqc_benchmarking.Handshake.Json.{
  c_string, b64_encode, add_text, json_get_str, json_get_int,
}
use hybrid_pqc_benchmarking.First.Server.{key_reply}
use hybrid_pqc_benchmarking.First.Client.{use_salt, profile_select, client_hello, ciphertext_line}
use hybrid_pqc_benchmarking.First.Lines.{IsLawfulBase64, IsLawfulCjson}

module _ (ssl : Openssl) (json : Cjson) (B : IsLawfulBase64 ssl) (J : IsLawfulCjson json) where
  -- A line that was read is the object that was printed, member by member.
  pub sent_read :
      (o o' : json.Object) (text : List ℕ) (name : String)
      → text ≡ J.printed o
      → json.parse (c_string text) ≡ some o'
      → json.get_object_item o' name ≡ json.get_object_item o name
  sent_read o o' text name e parsed = J.parse-printed o o' name (rw (e, J.is_text o) at parsed)

  get_str-eq :
      (o : json.Object) (name : String) (text : List ℕ)
      → json.get_object_item o name ≡ some (json_string text)
      → json_get_str json o name ≡ some text
  unfolding json_get_str
  get_str-eq o name text e = rw (e, json_get_str) refl

  get-add_text :
      (o : json.Object) (name : String) (bytes : List ℕ)
      → json.get_object_item o name ≡ none
      → json.get_object_item (add_text json o name (b64_encode ssl bytes)) name
        ≡ some (json_string (B.encoded bytes))
  unfolding b64_encode
  get-add_text o name bytes e =
      rw (B.writes bytes) (J.get-add_string o name (B.encoded bytes) e (B.encoded-text bytes))

  get-add_text_other :
      (o : json.Object) (name other : String) (bytes : List ℕ)
      → str_eq name other ≡ false
      → json.get_object_item (add_text json o name (b64_encode ssl bytes)) other
        ≡ json.get_object_item o other
  unfolding b64_encode
  get-add_text_other o name other bytes e =
      rw (B.writes bytes) (J.get-add_string_other o name other (B.encoded bytes) e)

  pub client_hello-c_pub :
      (bytes text : List ℕ) (o' : json.Object)
      → text ≡ J.printed (client_hello ssl json bytes)
      → json.parse (c_string text) ≡ some o'
      → json_get_str json o' "c_pub" ≡ some (B.encoded bytes)
  unfolding client_hello
  client_hello-c_pub bytes text o' e parsed = get_str-eq o' "c_pub" (B.encoded bytes) (
      sent_read (client_hello ssl json bytes) o' text "c_pub" e parsed
      ∙ get-add_text _ "c_pub" bytes (
          J.get-add_string_other json.create_object "type" "c_pub" (codes "ClientHello") refl
          ∙ J.get-create "c_pub"))

  pub ciphertext_line-ct :
      (bytes text : List ℕ) (o' : json.Object)
      → text ≡ J.printed (ciphertext_line ssl json bytes)
      → json.parse (c_string text) ≡ some o'
      → json_get_str json o' "ct" ≡ some (B.encoded bytes)
  unfolding ciphertext_line
  ciphertext_line-ct bytes text o' e parsed = get_str-eq o' "ct" (B.encoded bytes) (
      sent_read (ciphertext_line ssl json bytes) o' text "ct" e parsed
      ∙ get-add_text _ "ct" bytes (
          J.get-add_string_other json.create_object "type" "ct" (codes "PQCCiphertext") refl
          ∙ J.get-create "ct"))

  module _ (oqs : Liboqs) (realloc_ok : ℕ → Bool) where
    pub key_reply-keys :
        (srv_pub text : List ℕ) (k : PqcKeys) (o' : json.Object)
        → 0 < length srv_pub
        → text ≡ J.printed (key_reply ssl oqs json realloc_ok srv_pub k)
        → json.parse (c_string text) ≡ some o'
        → (json_get_str json o' "c_pub" ≡ some (B.encoded srv_pub))
          × (json_get_str json o' "q_pk" ≡ some (B.encoded k.q_pk))
    unfolding key_reply
    key_reply-keys srv_pub text k o' h e parsed =
        let o1 = add_text json json.create_object "c_pub" (b64_encode ssl srv_pub) in
        let o2 = add_text json o1 "q_pk" (b64_encode ssl k.q_pk) in
        let e' : text ≡ J.printed o2 = rw (lt→ltb 0 (length srv_pub) h, key_reply) at e in
        (
          get_str-eq o' "c_pub" (B.encoded srv_pub) (
              sent_read o2 o' text "c_pub" e' parsed
              ∙ (get-add_text_other o1 "q_pk" "c_pub" k.q_pk refl
                  ∙ get-add_text json.create_object "c_pub" srv_pub (J.get-create "c_pub"))),
          get_str-eq o' "q_pk" (B.encoded k.q_pk) (
              sent_read o2 o' text "q_pk" e' parsed
              ∙ get-add_text o1 "q_pk" k.q_pk (
                  get-add_text_other json.create_object "c_pub" "q_pk" srv_pub refl
                  ∙ J.get-create "q_pk")),
        )

    -- A key that is empty is not sent.
    pub key_reply-no_c_pub :
        (srv_pub text : List ℕ) (k : PqcKeys) (o' : json.Object)
        → ltb 0 (length srv_pub) ≡ false
        → text ≡ J.printed (key_reply ssl oqs json realloc_ok srv_pub k)
        → json.parse (c_string text) ≡ some o'
        → json_get_str json o' "c_pub" ≡ none
    unfolding key_reply json_get_str
    key_reply-no_c_pub srv_pub text k o' h e parsed =
        let o2 = add_text json json.create_object "q_pk" (b64_encode ssl k.q_pk) in
        let e' : text ≡ J.printed o2 = rw (h, key_reply) at e in
        rw
          (
            sent_read o2 o' text "c_pub" e' parsed
                ∙ (get-add_text_other json.create_object "q_pk" "c_pub" k.q_pk refl
                    ∙ J.get-create "c_pub"),
            json_get_str,
          )
          refl

  -- The members of the first line, with the salt where it is used.
  pub record Selected (combo : AlgoCombo) (kdf_type : String) (o' : json.Object) : Type 0 where
    pub id : json_get_int json o' "combo_id" (negsuc 0) ≡ pos combo.id
    pub kdf : json_get_str json o' "kdf_type" ≡ some (codes kdf_type)
    pub salt :
        use_salt combo kdf_type ≡ true → json_get_str json o' "salt" ≡ some (B.encoded static_salt)
    pub no_salt : use_salt combo kdf_type ≡ false → json_get_str json o' "salt" ≡ none

  get_int-eq :
      (o : json.Object) (n : ℕ)
      → json.get_object_item o "combo_id" ≡ some (json_number (pos n))
      → json_get_int json o "combo_id" (negsuc 0) ≡ pos n
  unfolding json_get_int
  get_int-eq o n e = rw (e, json_get_int) refl

  get_str-none :
      (o : json.Object) (name : String)
      → json.get_object_item o name ≡ some json_other
      → json_get_str json o name ≡ none
  unfolding json_get_str
  get_str-none o name e = rw (e, json_get_str) refl

  pub profile_select-Selected :
      (combo : AlgoCombo) (kdf_type : String) (text : List ℕ) (o' : json.Object)
      → c_string (codes kdf_type) ≡ codes kdf_type
      → text ≡ J.printed (profile_select ssl json combo kdf_type)
      → json.parse (c_string text) ≡ some o'
      → Selected combo kdf_type o'
  unfolding profile_select
  profile_select-Selected combo kdf_type text o' plain e parsed =
      let o1 = json.add_string json.create_object "type" (codes "ProfileSelect") in
      let o2 = json.add_number o1 "combo_id" (json.of_int combo.id) in
      let o3 = json.add_string o2 "kdf_type" (codes kdf_type) in
      let got = λ (name : String).
        sent_read (profile_select ssl json combo kdf_type) o' text name e parsed in
      let id3 : json.get_object_item o3 "combo_id" ≡ some (json_number (pos combo.id)) =
        J.get-add_string_other o2 "kdf_type" "combo_id" (codes kdf_type) refl
        ∙ J.get-add_number o1 "combo_id" combo.id (
            J.get-add_string_other json.create_object "type" "combo_id" (codes "ProfileSelect") refl
            ∙ J.get-create "combo_id") in
      let new =
        λ (name : String) (a : str_eq "type" name ≡ false) (b : str_eq "combo_id" name ≡ false).
          J.get-add_number_other o1 "combo_id" name (json.of_int combo.id) b
          ∙ (J.get-add_string_other json.create_object "type" name (codes "ProfileSelect") a
              ∙ J.get-create name) in
      let kdf3 : json.get_object_item o3 "kdf_type" ≡ some (json_string (codes kdf_type)) =
        J.get-add_string o2 "kdf_type" (codes kdf_type) (new "kdf_type" refl refl) plain in
      let salt3 : json.get_object_item o3 "salt" ≡ none =
        J.get-add_string_other o2 "kdf_type" "salt" (codes kdf_type) refl ∙ new "salt" refl refl in
      elim (Bool-cases (use_salt combo kdf_type)) [
        | inl u ↦
            let o4 = add_text json o3 "salt" (b64_encode ssl static_salt) in
            let got4 = λ (name : String). rw (u, profile_select) at (got name) in
            record {
              id = get_int-eq o' combo.id (
                  got4 "combo_id"
                  ∙ (get-add_text_other o3 "salt" "combo_id" static_salt refl ∙ id3));
              kdf = get_str-eq o' "kdf_type" (codes kdf_type) (
                  got4 "kdf_type"
                  ∙ (get-add_text_other o3 "salt" "kdf_type" static_salt refl ∙ kdf3));
              salt = λ _u.
                  get_str-eq o' "salt" (B.encoded static_salt)
                    (got4 "salt" ∙ get-add_text o3 "salt" static_salt salt3);
              no_salt = λ n. absurd (both (sym u ∙ n));
            }
        | inr n ↦
            let got4 = λ (name : String). rw (n, profile_select) at (got name) in
            record {
              id =
                  get_int-eq o' combo.id
                    (got4 "combo_id" ∙ (J.get-add_null_other o3 "salt" "combo_id" refl ∙ id3));
              kdf =
                  get_str-eq o' "kdf_type" (codes kdf_type)
                    (got4 "kdf_type" ∙ (J.get-add_null_other o3 "salt" "kdf_type" refl ∙ kdf3));
              salt = λ u. absurd (both (sym u ∙ n));
              no_salt = λ _n. get_str-none o' "salt" (got4 "salt" ∙ J.get-add_null o3 "salt" salt3);
            }
      ]
    where
      both : ¬ (true ≡ false)
      both h = cc
