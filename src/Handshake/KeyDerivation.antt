-- ===== src/Handshake/KeyDerivation.antt =====
-- The session key of `handle_client` in c_dispatch/server.c, on both protocols: which derivation
-- makes it, from what.
use hybrid_pqc_benchmarking.Prelude.{
  ℕ, ◌≡◌, refl, sym, Bool, true, false, Option, some, List, codes,
}
use hybrid_pqc_benchmarking.Act.{>>=-cases, attempt}
use hybrid_pqc_benchmarking.External.{Openssl, Blake3}
use hybrid_pqc_benchmarking.Algo.{AlgoCombo}
use hybrid_pqc_benchmarking.Crypto.{crypto_hkdf_sha256, crypto_blake3_kdf}
use hybrid_pqc_benchmarking.Handshake.{
  Secret, Session, static_salt, key_material, derive_session_key, finish_session,
}
use hybrid_pqc_benchmarking.Handshake.Json.{json_session_key}
use hybrid_pqc_benchmarking.Handshake.Streams.{some_fst}

module _ (ssl : Openssl) (b3 : Blake3) (combo : AlgoCombo) where
  -- The key from this salt and this key material: by BLAKE3 if that is asked for, and by HKDF with
  -- SHA-256 otherwise, where it may fail.
  pub data DerivedKey (salt : Option (List ℕ)) (ikm : List ℕ) (asked : Bool) (key : Option (List ℕ))
      : Type 0 where
    by_blake3 :
        asked ≡ true
        → key ≡ some (crypto_blake3_kdf b3 ikm (codes combo.info))
        → DerivedKey salt ikm asked key
    by_hkdf :
        (w w' : ssl.World)
        → asked ≡ false
        → attempt (crypto_hkdf_sha256 ssl ikm salt (codes combo.info)) w ≡ (some key, w')
        → DerivedKey salt ikm asked key

  derive_session_key-DerivedKey :
      (asked : Bool) (ikm : List ℕ) (w w' : ssl.World) (key : Option (List ℕ))
      → derive_session_key ssl b3 combo asked ikm w ≡ (some key, w')
      → DerivedKey (some static_salt) ikm asked key
  unfolding derive_session_key
  derive_session_key-DerivedKey true ikm w w' key h = by_blake3 refl (sym (some_fst _ key w w' h).0)
  derive_session_key-DerivedKey false ikm w w' key h = by_hkdf w w' refl h

  pub json_session_key-DerivedKey :
      (asked : Bool) (salt : Option (List ℕ)) (ikm : List ℕ) (w w' : ssl.World)
      (key : Option (List ℕ))
      → json_session_key ssl b3 combo asked salt ikm w ≡ (some key, w')
      → DerivedKey salt ikm asked key
  unfolding json_session_key
  json_session_key-DerivedKey true salt ikm w w' key h =
      by_blake3 refl (sym (some_fst _ key w w' h).0)
  json_session_key-DerivedKey false salt ikm w w' key h = by_hkdf w w' refl h

  pub finish_session-DerivedKey :
      (asked : Bool) (c q : Secret) (w w' : ssl.World) (s : Session)
      → finish_session ssl b3 combo asked c q w ≡ (some s, w')
      → DerivedKey (some static_salt) (key_material ssl c q) asked s.session_key
  unfolding finish_session
  finish_session-DerivedKey asked c q w w' s h =
      >>=-cases (derive_session_key ssl b3 combo asked (key_material ssl c q)) _ w h λ k w1 e1 f1.
        rw (← (some_fst _ s w1 w' f1).0)
          (derive_session_key-DerivedKey asked (key_material ssl c q) w w1 k e1)
