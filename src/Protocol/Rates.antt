-- ===== src/Protocol/Rates.antt =====
-- Which sample rates veetee_protocol.c lets a server advertise.
use veetee_vuqb.Base.{ℕ, ◌≤◌, ◌≡◌, ◌↔◌, ◌⊎◌, true, arith}
use veetee_vuqb.Protocol.{
  ws_v1_compat, ws_v3, is_supported_opus_sample_rate, server_sample_rate_compatible,
}

-- A server rate is compatible exactly when the profile is known, both rates are Opus rates, and they
-- are equal or the profile is the v1 compatibility profile.
pub server_sample_rate_compatible_iff :
    (profile advertised configured : ℕ)
    → (server_sample_rate_compatible profile advertised configured ≡ true) ↔ (
        (ws_v1_compat ≤ profile)
        × (profile ≤ ws_v3)
        × (is_supported_opus_sample_rate advertised ≡ true)
        × (is_supported_opus_sample_rate configured ≡ true)
        × ((profile ≡ ws_v1_compat) ⊎ (advertised ≡ configured)))
unfolding server_sample_rate_compatible
server_sample_rate_compatible_iff profile a c = (λ h. ground arith, λ h. ground arith)
