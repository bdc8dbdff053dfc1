-- ===== src/Provisioning/Names.antt =====
-- The DNS responder of the provisioning: which queries are answered, and the bytes of the answer.
use veetee_vuqb.Base.{
  ℕ, ◌≤◌, ◌<◌, ◌≡◌, refl, false, ltb, none, some, List, [], ◌∷◌, ◌++◌, length, take, drop,
  length-append, arith,
}
use veetee_vuqb.Provisioning.{dns_response}

-- The fields of the response behind the id: a response without error and its two counts, and the answer
-- record, the address 192.168.4.1 of the name in the question, for a minute.
abbrev pub response_fields : List ℕ
response_fields = 129 ∷ 128 ∷ 0 ∷ 1 ∷ 0 ∷ 1 ∷ []

abbrev pub portal_record : List ℕ
portal_record = 192 ∷ 12 ∷ 0 ∷ 1 ∷ 0 ∷ 1 ∷ 0 ∷ 0 ∷ 0 ∷ 60 ∷ 0 ∷ 4 ∷ 192 ∷ 168 ∷ 4 ∷ 1 ∷ []

dns_response-answers :
    (query : List ℕ)
    → 12 ≤ length query
    → length query ≤ 496
    → (dns_response query
        ≡ some (take 2 query ++ (response_fields ++ (drop 8 query ++ portal_record))))
      × (length (take 2 query ++ (response_fields ++ (drop 8 query ++ portal_record))) ≤ 512)
unfolding dns_response
dns_response-answers [] low high = absurd (omega arith)
dns_response-answers (a ∷ []) low high = absurd (omega arith)
dns_response-answers (a ∷ b ∷ []) low high = absurd (omega arith)
dns_response-answers (a ∷ b ∷ c ∷ []) low high = absurd (omega arith)
dns_response-answers (a ∷ b ∷ c ∷ d ∷ []) low high = absurd (omega arith)
dns_response-answers (a ∷ b ∷ c ∷ d ∷ e ∷ []) low high = absurd (omega arith)
dns_response-answers (a ∷ b ∷ c ∷ d ∷ e ∷ f ∷ []) low high = absurd (omega arith)
dns_response-answers (a ∷ b ∷ c ∷ d ∷ e ∷ f ∷ g ∷ []) low high = absurd (omega arith)
dns_response-answers (a ∷ b ∷ c ∷ d ∷ e ∷ f ∷ g ∷ h ∷ rest) low high =
    let query = a ∷ b ∷ c ∷ d ∷ e ∷ f ∷ g ∷ h ∷ rest in
    let no_less : ltb (length query) 12 ≡ false = ground (arith, low) in
    let no_more : ltb 496 (length query) ≡ false = ground (arith, high) in
    (rw (no_less, no_more) refl, omega (arith, length-append rest portal_record))

-- A query of 12 to 496 bytes is answered with its own id, the fields of a response, the rest of the query as
-- it is, and the record of the portal at the end, within 512 bytes; a shorter or longer one is passed over.
dns_response-frames :
    (query : List ℕ)
    → ((12 ≤ length query) × (length query ≤ 496)
        → (dns_response query
            ≡ some (take 2 query ++ (response_fields ++ (drop 8 query ++ portal_record))))
          × (length (take 2 query ++ (response_fields ++ (drop 8 query ++ portal_record))) ≤ 512))
      × (length query < 12 → dns_response query ≡ none)
      × (496 < length query → dns_response query ≡ none)
unfolding dns_response
dns_response-frames query =
    (λ h. dns_response-answers query h.0 h.1, λ h. ground arith, λ h. ground arith)
