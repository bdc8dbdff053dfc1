-- ===== src/MqttCrypto/Session.antt =====
-- Setting up and wiping the key material of a session.
use veetee_vuqb.Base.{
  ℕ, suc, ◌≡◌, ◌≢◌, ◌↔◌, refl, ap, ◌∙◌, ap₂, true, false, arith, List, [], ◌∷◌, ◌++◌, length,
  get_or, take, replicate, take-all, drop-all, append-nil,
}
use veetee_vuqb.Base.Buffer.{copy_at, copy_at-zero}
use veetee_vuqb.MqttWire.{UdpFrame, packet_type}
use veetee_vuqb.MqttCrypto.{
  Crypto, Psa, ok, err_state, key_bytes, nonce_bytes, wipe_bytes, reset, init, encrypt, decrypt,
}

-- The two arrays have their declared sizes.
pub record IsSession (c : Crypto) : Type 0 where
  pub key_size : length c.key ≡ key_bytes
  pub nonce_size : length c.nonce ≡ nonce_bytes

wipe_bytes_lem : (xs : List ℕ) → wipe_bytes xs ≡ replicate (length xs) 0
unfolding wipe_bytes
wipe_bytes_lem [] = refl
wipe_bytes_lem (x ∷ xs) = ap (◌∷◌ 0) (wipe_bytes_lem xs)

length-wipe_bytes : (xs : List ℕ) → length (wipe_bytes xs) ≡ length xs
unfolding wipe_bytes
length-wipe_bytes [] = refl
length-wipe_bytes (x ∷ xs) = ap suc (length-wipe_bytes xs)

-- A whole array of 16 bytes written over by 16 others.
overwrite :
    (old new : List ℕ)
    → length old ≡ 16
    → length new ≡ 16
    → copy_at (wipe_bytes old) 0 (take 16 new) ≡ new
overwrite old new h k =
    let whole : take 16 new ≡ new = take-all 16 new (omega (arith, k)) in
    let size = length-wipe_bytes old in
    ap (λ (xs : List ℕ). copy_at (wipe_bytes old) 0 xs) whole
    ∙ copy_at-zero (wipe_bytes old) new (omega (arith, size, h, k))
    ∙ ap (λ (xs : List ℕ). new ++ xs)
        (drop-all (length new) (wipe_bytes old) (omega (arith, size, h, k)))
    ∙ append-nil new

-- After vt_mqtt_udp_crypto_reset all bytes of the key and of the nonce are 0, in arrays of the same
-- sizes, the sequence is 0, and neither encryption nor decryption does anything but report the state.
reset_lem :
    (c : Crypto) (psa : Psa) (xs output : List ℕ) (timestamp ssrc capacity n : ℕ) (frame : UdpFrame)
    → (reset c ≡ record {
      key = replicate (length c.key) 0;
      nonce = replicate (length c.nonce) 0;
      send_sequence = 0;
      ready = false;
    })
      × (encrypt psa (reset c) xs timestamp ssrc output capacity n
          ≡ (err_state, reset c, output, n))
      × (decrypt psa (reset c) xs output capacity frame ≡ (err_state, output, frame))
unfolding reset encrypt decrypt
reset_lem c psa xs output timestamp ssrc capacity n frame = (
  ap₂ (λ (k m : List ℕ). record { key = k; nonce = m; send_sequence = 0; ready = false })
      (wipe_bytes_lem c.key) (wipe_bytes_lem c.nonce),
  refl,
  refl,
)

-- vt_mqtt_udp_crypto_init accepts exactly a 16-byte key and a 16-byte nonce that starts with the
-- packet type. What it accepts becomes the material of a ready session that has sent nothing;
-- anything else leaves the session as it was.
init_iff :
    (c : Crypto) (key nonce : List ℕ)
    → IsSession c
    → ((init c key nonce).0 ≡ ok ↔ (
        (length key ≡ key_bytes) × (length nonce ≡ nonce_bytes) × (get_or nonce 0 0 ≡ packet_type)))
      × ((init c key nonce).0 ≡ ok
          → (init c key nonce).1
            ≡ record { key = key; nonce = nonce; send_sequence = 0; ready = true })
      × ((init c key nonce).0 ≢ ok → (init c key nonce).1 ≡ c)
unfolding init
init_iff c key nonce v =
    let k = overwrite c.key key v.key_size in
    let m = overwrite c.nonce nonce v.nonce_size in
    ((λ h. ground arith, λ h. ground arith), λ h. ground (arith, k, m), λ h. ground arith)
