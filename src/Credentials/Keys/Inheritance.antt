-- ===== src/Credentials/Keys/Inheritance.antt =====
-- What a rotated API key has from the old one: its limits, and when it ends.
use purge_api_gateway.Base.{
  true, ◌||◌, ◌⊎◌, ◌+◌, ◌*◌, zero, suc, ℕ, ◌≡◌, refl, Option, none, some, Str, inl, inr,
}
use purge_api_gateway.Policy.Types.{PolicyDocument}
use purge_api_gateway.Credentials.Keys.{
  ApiKey, RotateOverrides, new_key, rotation_request, inherited_limits, expiry, is_some,
}

-- When a key that is created now for a number of days ends: never without one, or with 0 days.
abbrev pub end_of : ℕ → Option ℕ → Option ℕ
end_of now none = none
end_of now (some zero) = none
end_of now (some (suc d)) = some (now + suc d * 86400000)

abbrev pub Expires : ℕ → Option ℕ → Option ℕ → Type 0
Expires now days at = at ≡ end_of now days

-- The limits that a rotated key passes on: its rates, and its bucket sizes where it has a rate.
abbrev pub PassesOn : ApiKey → ApiKey → Type 0
PassesOn old key =
    (key.bulk_rate ≡ old.bulk_rate)
    × (key.single_rate ≡ old.single_rate)
    × (((is_some old.bulk_rate || is_some old.single_rate ≡ true)
          × (key.bulk_bucket ≡ old.bulk_bucket)
          × (key.single_bucket ≡ old.single_bucket))
        ⊎ ((old.bulk_rate ≡ none)
            × (old.single_rate ≡ none)
            × (key.bulk_bucket ≡ none)
            × (key.single_bucket ≡ none)))

pub expiry-end_of : (now : ℕ) (days : Option ℕ) → expiry now days ≡ end_of now days
unfolding expiry
expiry-end_of now none = refl
expiry-end_of now (some zero) = refl
expiry-end_of now (some (suc d)) = refl

pub new_key-PassesOn :
    (stringify : PolicyDocument → Str) (fresh : Str) (now : ℕ) (old : ApiKey)
    (policy : PolicyDocument) (overrides : RotateOverrides)
    → PassesOn old (new_key stringify fresh now (rotation_request old policy overrides))
unfolding new_key rotation_request inherited_limits
new_key-PassesOn stringify fresh now old policy overrides =
    cases old.bulk_rate refl old.single_rate refl
  where
    cases :
        (b : Option ℕ)
        → old.bulk_rate ≡ b
        → (s : Option ℕ) → old.single_rate ≡ s
        → PassesOn old (new_key stringify fresh now (rotation_request old policy overrides))
    cases none b none s =
        rw (b, s, new_key, rotation_request, inherited_limits)
          (refl, refl, inr (refl, refl, refl, refl))
    cases none b (some y) s =
        rw (b, s, new_key, rotation_request, inherited_limits) (refl, refl, inl (refl, refl, refl))
    cases (some x) b s e =
        rw (b, new_key, rotation_request, inherited_limits) (refl, refl, inl (refl, refl, refl))
