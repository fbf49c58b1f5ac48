-- ===== src/Market/Audit.antt =====
-- The audit of an offer against the gate that stands before a commitment.
use lumi_observatory.Base.{
  Bool, true, false, ◌≡◌, refl, Option, none, some, if◌then◌else◌, is_nil, arith, ◌⊎◌, inl, inr,
  Bool-cases,
}
use lumi_observatory.Base.Int.{ℤ, pos, leb_ℤ}
use lumi_observatory.Market.Offer.{Frame, offer_spec, amount_of, offer_expired}
use lumi_observatory.Market.Gate.{
  Reason, not_in_capabilities, payee_side, offer_is_expired, Risk, safe, watch, risky, Config, fine,
  Audit, accept, skip, rail_refusal, cap_of, offer_allows, is_payee, allows_capped, allows_amount,
  allows_railed, audit_capped, audit_amount, audit_railed, audit_open, allows_open, audit_offer,
}

-- what an accepting audit found besides what the gate checks
abbrev pub Extra : Frame → ℤ → Risk → Type 0
Extra f now r =
    (is_payee f ≡ false)
    × (offer_expired f now ≡ false)
    × (r ≡ (if is_nil (offer_spec f) then watch else safe))

capped_accepts :
    (c : Config) (f : Frame) (now amount : ℤ) (cap : Option ℤ) (r : Risk)
    → audit_capped c f now amount cap ≡ accept r
    → (allows_capped c f amount cap ≡ fine)
      × (offer_expired f now ≡ false)
      × (r ≡ (if is_nil (offer_spec f) then watch else safe))
capped_accepts c f now amount none r h = absurd (cc)
capped_accepts c f now amount (some cap) r h = ground arith

amount_accepts :
    (c : Config) (f : Frame) (now : ℤ) (amount : Option ℤ) (r : Risk)
    → audit_amount c f now amount ≡ accept r
    → (allows_amount c f amount ≡ fine)
      × (offer_expired f now ≡ false)
      × (r ≡ (if is_nil (offer_spec f) then watch else safe))
amount_accepts c f now none r = λ h. absurd (cc)
amount_accepts c f now (some amount) r = elim (Bool-cases (leb_ℤ amount (pos 0))) [
  | inl e ↦ rw e (λ h. absurd (cc))
  | inr e ↦ rw e (λ h. capped_accepts c f now amount (cap_of c) r h)
]

railed_accepts :
    (c : Config) (f : Frame) (now : ℤ) (q : Option Reason) (r : Risk)
    → audit_railed c f now q ≡ accept r
    → (allows_railed c f q ≡ fine) × Extra f now r
railed_accepts c f now (some q) r = λ h. absurd (cc)
railed_accepts c f now none r = elim (Bool-cases (is_payee f)) [
  | inl e ↦ rw e (λ h. absurd (cc))
  | inr e ↦ rw e (λ h. let a = amount_accepts c f now (amount_of f) r h in (a.0, (refl, a.1, a.2)))
]

-- An offer that the audit accepts passes every check of `offer_allows` under the same configuration; its
-- sender does not take the payee's side, it has not expired, and its risk is `watch` exactly when it
-- states no task and `safe` otherwise.
pub audit_accepts :
    (c : Config) (f : Frame) (now : ℤ) (r : Risk)
    → audit_offer c f now ≡ accept r
    → (offer_allows c f ≡ fine) × Extra f now r
unfolding offer_allows audit_offer
audit_accepts c f now r h = open_accepts f.is_offer f.signed h
  where
    open_accepts :
        (o s : Bool)
        → audit_open c f now o s ≡ accept r
        → (allows_open c f o s ≡ fine) × Extra f now r
    open_accepts false s h = absurd (cc)
    open_accepts true false h = absurd (cc)
    open_accepts true true h = railed_accepts c f now (rail_refusal c f) r h

abbrev pub is_accepted : Audit → Bool
is_accepted (accept r) = true
is_accepted _ = false

-- what the audit answers where the gate would let the offer pass
abbrev pub AtMostStricter : Audit → Type 0
AtMostStricter a =
    (is_accepted a ≡ true)
    ⊎ ((a ≡ skip risky payee_side)
        ⊎ ((a ≡ skip risky offer_is_expired) ⊎ (a ≡ skip risky not_in_capabilities)))

capped_stricter :
    (c : Config) (f : Frame) (now amount : ℤ) (cap : Option ℤ)
    → allows_capped c f amount cap ≡ fine
    → AtMostStricter (audit_capped c f now amount cap)
capped_stricter c f now amount none h = absurd (cc)
capped_stricter c f now amount (some cap) h = ground arith

-- Where `offer_allows` lets an offer pass, the audit under the same configuration accepts it, or skips it
-- because the sender takes the payee's side, because it has expired, or because its task is outside the
-- capabilities; so the two gates differ in nothing else.
pub audit_stricter :
    (c : Config) (f : Frame) (now : ℤ)
    → offer_allows c f ≡ fine
    → AtMostStricter (audit_offer c f now)
unfolding offer_allows audit_offer
audit_stricter c f now h = open_stricter f.is_offer f.signed h
  where
    amount_stricter :
        (amount : Option ℤ)
        → allows_amount c f amount ≡ fine
        → AtMostStricter (audit_amount c f now amount)
    amount_stricter none = λ h. absurd (cc)
    amount_stricter (some amount) = elim (Bool-cases (leb_ℤ amount (pos 0))) [
      | inl e ↦ rw e (λ h. absurd (cc))
      | inr e ↦ rw e (λ h. capped_stricter c f now amount (cap_of c) h)
    ]

    railed_stricter :
        (q : Option Reason) → allows_railed c f q ≡ fine → AtMostStricter (audit_railed c f now q)
    railed_stricter (some q) = λ h. absurd (cc)
    railed_stricter none = elim (Bool-cases (is_payee f)) [
      | inl e ↦ rw e (λ h. inr (inl refl))
      | inr e ↦ rw e (λ h. amount_stricter (amount_of f) h)
    ]

    open_stricter :
        (o s : Bool) → allows_open c f o s ≡ fine → AtMostStricter (audit_open c f now o s)
    open_stricter false s h = absurd (cc)
    open_stricter true false h = absurd (cc)
    open_stricter true true h = railed_stricter (rail_refusal c f) h
