-- ===== src/Odoh.antt =====
-- src/libdoh/src/odoh.rs: the key of Oblivious DoH, its rotation, and what is done with it. The
-- library odoh-rs is a parameter.
pub mod Rotation
use doh_server.Prelude.{
  ℕ, Bool, true, false, List, [], ◌∷◌, Option, none, some, Outcome, ok, err, panic, out_of_fuel,
  ◌>>=◌, ◌>>◌, ensure,
}
use doh_server.Bytes.{Bytes}
use doh_server.Errors.{DohError, invalid_data, stale_key, odoh_config_error}
use doh_server.Msg.Answers.{same_bytes}

-- What odoh-rs offers. A call that can fail gives an `Option`, as the code drops each error but
-- that of the configurations.
pub record OdohRs (X : Type 0) : Type 1 where
  pub KeyPair : Type 0
  pub Message : Type 0
  pub Plaintext : Type 0
  pub Secret : Type 0
  pub Nonce : Type 0
  pub serialize_configs : KeyPair → Outcome X Bytes
  pub identifier : KeyPair → Option Bytes
  pub deserialize : Bytes → Option Message
  pub key_id : Message → Bytes
  pub decrypt : Message → KeyPair → Option (Plaintext × Secret)
  pub into_msg : Plaintext → Bytes
  pub new_plaintext : Bytes → ℕ → Plaintext
  pub encrypt : Plaintext → Plaintext → Secret → Nonce → Option Message
  pub serialize : Message → Option Bytes

module _ {X : Type 0} where
  -- `map_err(|_| DoHError::InvalidData)`
  abbrev pub or_invalid : {A : Type 0} → Option A → Outcome (DohError X) A
  or_invalid none = err invalid_data
  or_invalid (some a) = ok a

  -- `map_err(|e| DoHError::ODoHConfigError(e.into()))`
  abbrev pub or_config_error : Outcome X Bytes → Outcome (DohError X) Bytes
  or_config_error (ok b) = ok b
  or_config_error (err e) = err (odoh_config_error e)
  or_config_error panic = panic
  or_config_error out_of_fuel = out_of_fuel

module _ {X : Type 0} (rs : OdohRs X) where
  pub record OdohPublicKey : Type 0 where
    pub key_pair : rs.KeyPair
    pub serialized_configs : Bytes

  pub record OdohQueryContext : Type 0 where
    pub query : rs.Plaintext
    pub server_secret : rs.Secret

  -- `ODoHPublicKey::new` for the key pair that was drawn.
  unfoldable pub new_public_key : rs.KeyPair → Outcome (DohError X) OdohPublicKey
  new_public_key key_pair = do
    configs ← or_config_error (rs.serialize_configs key_pair)
    ok (record { key_pair = key_pair; serialized_configs = configs })

  abbrev pub into_config : OdohPublicKey → Bytes
  into_config key = key.serialized_configs

  unfoldable pub decrypt_query :
      OdohPublicKey → Bytes → Outcome (DohError X) (Bytes × OdohQueryContext)
  decrypt_query key encrypted_query = do
    odoh_query ← or_invalid (rs.deserialize encrypted_query)
    key_id ← or_invalid (rs.identifier key.key_pair)
    ensure (same_bytes key_id (rs.key_id odoh_query)) stale_key
    (query, server_secret) ← or_invalid (rs.decrypt odoh_query key.key_pair)
    ok (rs.into_msg query, record { query = query; server_secret = server_secret })

  -- `encrypt_response` for the nonce that was drawn.
  unfoldable pub encrypt_response : OdohQueryContext → rs.Nonce → Bytes → Outcome (DohError X) Bytes
  encrypt_response context nonce response_body = do
    encrypted_response ←
        or_invalid
          (rs.encrypt context.query (rs.new_plaintext response_body 0) context.server_secret nonce)
    or_invalid (rs.serialize encrypted_response)

  -- `ODoHRotator::new`: the first key. Without one the server panics.
  unfoldable pub new_rotator : rs.KeyPair → Outcome (DohError X) OdohPublicKey
  new_rotator key_pair = elim (new_public_key key_pair) [
    | ok key ↦ ok key
    | err e ↦ panic
    | panic ↦ panic
    | out_of_fuel ↦ out_of_fuel
  ]

  -- A round of the loop: the key is replaced unless a new one cannot be made.
  abbrev pub rotated : OdohPublicKey → Outcome (DohError X) OdohPublicKey → OdohPublicKey
  rotated current (ok key) = key
  rotated current _ = current

  -- The key behind rounds with the key pairs that they drew.
  unfoldable pub rotate : OdohPublicKey → List rs.KeyPair → OdohPublicKey
  rotate current [] = current
  rotate current (key_pair ∷ key_pairs) =
      rotate (rotated current (new_public_key key_pair)) key_pairs
