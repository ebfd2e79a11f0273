-- ===== src/Odoh/Rotation.antt =====
-- The keys of Oblivious DoH behind rotations, and the queries that they read.
use doh_server.Prelude.{
  ◌≡◌, ◌≢◌, refl, subst, ◌⊎◌, inl, inr, true, false, List, [], ◌∷◌, Option, none, some, Bool-cases,
  Outcome, ok, err, panic, out_of_fuel, ensure, Ends, Ends-bind, >>=-eq-ok,
}
use doh_server.Bytes.{Bytes}
use doh_server.Errors.{DohError, invalid_data, stale_key}
use doh_server.Msg.Answers.{same_bytes, same_bytes_iff}
use doh_server.Odoh.{
  OdohRs, OdohPublicKey, OdohQueryContext, or_invalid, or_config_error, new_public_key,
  decrypt_query, encrypt_response, rotated, rotate,
}

module _ {X : Type 0} (rs : OdohRs X) where
  -- The published configurations are those of the key pair.
  abbrev pub IsMade : OdohPublicKey rs → Type 0
  IsMade key = rs.serialize_configs key.key_pair ≡ ok key.serialized_configs

  or_config_error-eq-ok : (m : Outcome X Bytes) (b : Bytes) → or_config_error m ≡ ok b → m ≡ ok b
  or_config_error-eq-ok (ok c) b h = cc
  or_config_error-eq-ok (err e) b h = cc
  or_config_error-eq-ok panic b h = cc
  or_config_error-eq-ok out_of_fuel b h = cc

  new_public_key-IsMade :
      (key_pair : rs.KeyPair) (key : OdohPublicKey rs)
      → new_public_key rs key_pair ≡ ok key
      → IsMade key
  unfolding new_public_key
  new_public_key-IsMade key_pair key h =
      let (c, e, k) = >>=-eq-ok (or_config_error (rs.serialize_configs key_pair)) _ h in
      let made : OdohPublicKey rs = record { key_pair = key_pair; serialized_configs = c } in
      let same : made ≡ key = cc in
      subst IsMade same (or_config_error-eq-ok (rs.serialize_configs key_pair) c e)

  rotated-IsMade :
      (key : OdohPublicKey rs) (made : Outcome (DohError X) (OdohPublicKey rs))
      → ((new : OdohPublicKey rs) → made ≡ ok new → IsMade new)
      → IsMade key
      → IsMade (rotated rs key made)
  rotated-IsMade key (ok new) h k = h new refl
  rotated-IsMade key (err e) h k = k
  rotated-IsMade key panic h k = k
  rotated-IsMade key out_of_fuel h k = k

  -- Behind any rotations, those that fail included, the published configurations are those of the
  -- key pair that queries are read with, where they were so at first.
  pub rotate-IsMade :
      (key : OdohPublicKey rs) (key_pairs : List rs.KeyPair)
      → IsMade key
      → IsMade (rotate rs key key_pairs)
  unfolding rotate
  rotate-IsMade key [] h = h
  rotate-IsMade key (p ∷ ps) h =
      rotate-IsMade (rotated rs key (new_public_key rs p)) ps
        (rotated-IsMade key (new_public_key rs p) (λ new e. new_public_key-IsMade p new e) h)

  -- The query is for the key with another identifier.
  abbrev pub IsStale : OdohPublicKey rs → Bytes → Type 0
  IsStale key q =
      (m : rs.Message) × (id : Bytes) × (rs.deserialize q ≡ some m)
      × (rs.identifier key.key_pair ≡ some id)
      × (id ≢ rs.key_id m)

  -- The query is for this key, which opens it.
  abbrev pub IsOpened : OdohPublicKey rs → Bytes → Bytes × OdohQueryContext rs → Type 0
  IsOpened key q r =
      (m : rs.Message) × (rs.deserialize q ≡ some m)
      × (rs.identifier key.key_pair ≡ some (rs.key_id m))
      × (rs.decrypt m key.key_pair ≡ some (r.1.query, r.1.server_secret))
      × (r.0 ≡ rs.into_msg r.1.query)

  -- A call of the library fails: the query cannot be read, the key has no identifier, or the query is
  -- for this key, which does not open it.
  abbrev pub IsUnreadable : OdohPublicKey rs → Bytes → Type 0
  IsUnreadable key q =
      (rs.deserialize q ≡ none)
      ⊎ ((rs.identifier key.key_pair ≡ none)
          ⊎ ((m : rs.Message) × (rs.deserialize q ≡ some m)
              × (rs.identifier key.key_pair ≡ some (rs.key_id m))
              × (rs.decrypt m key.key_pair ≡ none)))

  abbrev pub IsRefusal : OdohPublicKey rs → Bytes → DohError X → Type 0
  IsRefusal key q e = ((e ≡ invalid_data) × IsUnreadable key q) ⊎ ((e ≡ stale_key) × IsStale key q)

  -- What is known of a call of the library that succeeds.
  or_invalid-Ends :
      {A : Type 0} (Q : DohError X → Type 0) (a : Option A)
      → (a ≡ none → Q invalid_data)
      → Ends Q (λ x. a ≡ some x) (or_invalid a)
  or_invalid-Ends Q none h = h refl
  or_invalid-Ends Q (some a) h = refl

  -- The reading of a query returns a value or an error. What it returns is the query that the current
  -- key opens, with its context; it fails with `StaleKey` only where the query is for a key with another
  -- identifier, and with `InvalidData` only where the query cannot be read, the key has no
  -- identifier, or the query is for the key, which does not open it.
  pub decrypt_query-Ends :
      (key : OdohPublicKey rs) (q : Bytes)
      → Ends (IsRefusal key q) (IsOpened key q) (decrypt_query rs key q)
  unfolding decrypt_query
  decrypt_query-Ends key q =
      Ends-bind (IsRefusal key q) (λ m. rs.deserialize q ≡ some m) (IsOpened key q)
        (or_invalid (rs.deserialize q)) _
        (or_invalid-Ends (IsRefusal key q) (rs.deserialize q) (λ n. inl (refl, inl n)))
        (λ m e.
          Ends-bind (IsRefusal key q) (λ id. rs.identifier key.key_pair ≡ some id) (IsOpened key q)
            (or_invalid (rs.identifier key.key_pair)) _
            (or_invalid-Ends (IsRefusal key q) (rs.identifier key.key_pair)
              (λ n. inl (refl, inr (inl n))))
            (λ id f.
              Ends-bind (IsRefusal key q) (λ _. id ≡ rs.key_id m) (IsOpened key q)
                (ensure (same_bytes id (rs.key_id m)) stale_key) _
                (by_id m id e f (Bool-cases (same_bytes id (rs.key_id m))))
                (λ _ g.
                  Ends-bind (IsRefusal key q) (λ r. rs.decrypt m key.key_pair ≡ some r)
                    (IsOpened key q) (or_invalid (rs.decrypt m key.key_pair)) _
                    (or_invalid-Ends (IsRefusal key q) (rs.decrypt m key.key_pair)
                      (λ n. inl (refl, inr (inr (m, e, cc, n)))))
                    (λ (r : rs.Plaintext × rs.Secret) h. (m, e, cc, h, refl)))))
    where
      by_id :
          (m : rs.Message) (id : Bytes)
          → rs.deserialize q ≡ some m
          → rs.identifier key.key_pair ≡ some id
          → (same_bytes id (rs.key_id m) ≡ true) ⊎ (same_bytes id (rs.key_id m) ≡ false)
          → Ends
              (IsRefusal key q)
              (λ _. id ≡ rs.key_id m)
              (ensure (same_bytes id (rs.key_id m)) stale_key)
      by_id m id e f (inl s) = rw s ((same_bytes_iff id (rs.key_id m)).0 s)
      by_id m id e f (inr n) = rw n (
          inr (
            refl,
            (
              m,
              id,
              e,
              f,
              λ g.
                  let t : same_bytes id (rs.key_id m) ≡ true =
                    (same_bytes_iff id (rs.key_id m)).1 g in
                  cc,
            ),
          ))

  pub encrypt_response-returns :
      (context : OdohQueryContext rs) (nonce : rs.Nonce) (p : Bytes)
      → Ends (λ e. e ≡ invalid_data) (λ _. Unit {0}) (encrypt_response rs context nonce p)
  unfolding encrypt_response
  encrypt_response-returns context nonce p =
      Ends-bind (λ e. e ≡ invalid_data) (λ m. encrypted ≡ some m) (λ _. Unit {0})
        (or_invalid encrypted) _ (or_invalid-Ends (λ e. e ≡ invalid_data) encrypted (λ _. refl))
        (λ m _. returned (rs.serialize m))
    where
      encrypted : Option rs.Message
      encrypted = rs.encrypt context.query (rs.new_plaintext p 0) context.server_secret nonce

      returned :
          (a : Option Bytes)
          → Ends {E = DohError X} (λ e. e ≡ invalid_data) (λ _. Unit {0}) (or_invalid a)
      returned none = refl
      returned (some a) = tt
