-- ===== src/BoardTools/Requests.antt =====
-- The bounds of what invoke_output reads from its arguments.
use veetee_vuqb.Base.{
  ℕ, ◌≤◌, ◌≡◌, Bool, true, false, ◌&&◌, if◌then◌else◌, leb, Option, none, some, arith, leb→le,
  subst, ◌⊎◌, Option-cases, Bool-cases, inl, inr,
}
use veetee_vuqb.Base.Int.{ℤ, pos, negsuc}
use veetee_vuqb.Base.Text.{codes}
use veetee_vuqb.Json.{CJson, integer_of}
use veetee_vuqb.BoardTools.{
  Output, Request, unchanged, Channel, red, green, blue, ◌>>=◌, in_range, max, store_channel,
  channel_name, valid_integer, channel_level, read_enabled, read_brightness, read_channel,
  read_channels, transition_valid, read_request,
}

-- The bounds of a request.
pub record IsRequest (r : Request) : Type 0 where
  pub bright : r.brightness ≤ 100
  pub channel : r.channel ≤ 255

-- A predicate of the value, where there is one.
abbrev pub Holds {ℓ κ} : {A : Type ℓ} → (A → Type κ) → Option A → Type κ
Holds P none = Unit
Holds P (some a) = P a

bind-Holds {ℓ} :
    {A B : Type ℓ} (P : A → Type 0) (Q : B → Type 0) (m : Option A) (f : A → Option B)
    → Holds P m
    → ((a : A) → P a → Holds Q (f a))
    → Holds Q (m >>= f)
bind-Holds P Q none f h k = tt
bind-Holds P Q (some a) f h k = k a h

in_range-le : (maximum : ℕ) (o : Option ℤ) → Holds (λ n. n ≤ maximum) (in_range maximum o)
unfolding in_range
in_range-le maximum none = tt
in_range-le maximum (some (pos n)) = elim (Bool-cases (leb n maximum)) [
  | inl e ↦ rw e (leb→le n maximum e)
  | inr e ↦ rw e tt
]
in_range-le maximum (some (negsuc n)) = tt

store_channel-IsRequest :
    (channel : Channel) (n : ℕ) (r : Request)
    → n ≤ 255
    → IsRequest r
    → IsRequest
        (record (store_channel channel n r) { channel = max r.channel n; channel_present = true })
store_channel-IsRequest red n r h v = record {
  bright = v.bright;
  channel = ground (arith, v.channel);
}
store_channel-IsRequest green n r h v = record {
  bright = v.bright;
  channel = ground (arith, v.channel);
}
store_channel-IsRequest blue n r h v = record {
  bright = v.bright;
  channel = ground (arith, v.channel);
}

if-IsRequest :
    (b : Bool) (x y : Request) → IsRequest x → IsRequest y → IsRequest (if b then x else y)
if-IsRequest true x y h k = h
if-IsRequest false x y h k = k

channel_level-IsRequest : (r : Request) → IsRequest r → IsRequest (channel_level r)
channel_level-IsRequest r v =
    if-IsRequest r.channel_present _ r
      (record { bright = omega (arith, v.channel); channel = v.channel }) v

module _ (j : CJson) where
  read_enabled-IsRequest :
      (arguments : j.Value) (r : Request)
      → IsRequest r
      → Holds IsRequest (read_enabled j arguments r)
  unfolding read_enabled
  read_enabled-IsRequest arguments r v = elim (Option-cases (j.item arguments (codes "enabled"))) [
    | inl e ↦ rw (read_enabled, e) v
    | inr (value, e) ↦ elim (Bool-cases (j.is_bool value)) [
      | inr f ↦ rw (read_enabled, e, f) tt
      | inl f ↦ rw (read_enabled, e, f) (record { bright = ground arith; channel = v.channel })
    ]
  ]

  valid_integer-cases :
      (value : j.Value) (maximum : ℕ)
      → (valid_integer j value maximum ≡ none)
        ⊎ ((n : ℕ) × (valid_integer j value maximum ≡ some n) × (n ≤ maximum))
  unfolding valid_integer
  valid_integer-cases value maximum = elim (Option-cases (valid_integer j value maximum)) [
    | inl e ↦ inl e
    | inr (n, e) ↦
        inr (
          n,
          e,
          subst (Holds (λ m. m ≤ maximum)) e (in_range-le maximum (integer_of j (some value))),
        )
  ]

  read_brightness-IsRequest :
      (arguments : j.Value) (r : Request)
      → IsRequest r
      → Holds IsRequest (read_brightness j arguments r)
  unfolding read_brightness
  read_brightness-IsRequest arguments r v =
      elim (Option-cases (j.item arguments (codes "brightness"))) [
        | inl e ↦ rw (read_brightness, e) v
        | inr (value, e) ↦ elim (valid_integer-cases value 100) [
          | inl f ↦ rw (read_brightness, e, f) tt
          | inr (n, f, h) ↦
              rw (read_brightness, e, f) (record { bright = omega (arith, h); channel = v.channel })
        ]
      ]

  read_channel-IsRequest :
      (arguments : j.Value) (channel : Channel) (r : Request)
      → IsRequest r
      → Holds IsRequest (read_channel j arguments channel r)
  unfolding read_channel
  read_channel-IsRequest arguments channel r v =
      elim (Option-cases (j.item arguments (channel_name channel))) [
        | inl e ↦ rw (read_channel, e) v
        | inr (value, e) ↦ elim (valid_integer-cases value 255) [
          | inl f ↦ rw (read_channel, e, f) tt
          | inr (n, f, h) ↦ rw (read_channel, e, f) (store_channel-IsRequest channel n r h v)
        ]
      ]

  read_channels-IsRequest :
      (arguments : j.Value) (r : Request)
      → IsRequest r
      → Holds IsRequest (read_channels j arguments r)
  unfolding read_channels
  read_channels-IsRequest arguments r v =
      bind-Holds IsRequest IsRequest (read_channel j arguments red r) _
        (read_channel-IsRequest arguments red r v)
        (λ a va.
          bind-Holds IsRequest IsRequest (read_channel j arguments green a) _
            (read_channel-IsRequest arguments green a va)
            (λ b vb. read_channel-IsRequest arguments blue b vb))

  pub read_request-IsRequest :
      (arguments : j.Value) (output : Output)
      → output.brightness ≤ 100
      → Holds IsRequest (read_request j arguments output)
  unfolding read_request
  read_request-IsRequest arguments output h =
      bind-Holds IsRequest IsRequest (read_enabled j arguments (unchanged output)) _
        (read_enabled-IsRequest arguments (unchanged output)
          (record { bright = h; channel = omega arith }))
        (λ a va.
          bind-Holds IsRequest IsRequest (read_brightness j arguments a) _
            (read_brightness-IsRequest arguments a va)
            (λ b vb.
              bind-Holds IsRequest IsRequest (read_channels j arguments b) _
                (read_channels-IsRequest arguments b vb)
                (λ c vc.
                  kept (transition_valid j arguments && (channel_level c).present) (channel_level c)
                    (channel_level-IsRequest c vc))))
    where
      kept : (b : Bool) (r : Request) → IsRequest r → Holds IsRequest (if b then some r else none)
      kept true r v = v
      kept false r v = tt
