-- ===== src/Ssrf/Pinned.antt =====
-- What the checks of packages/connectors/ssrf.py promise of the socket: the DNS pin and the connection.
use lumi_observatory.Base.{
  ℕ, ◌+◌, ◌<◌, ltb, ltb→lt, Bool, true, false, List, [], ◌∷◌, Option, none, some, if◌then◌else◌,
  is_nil, All, ◌≡◌, refl, sym, ap, ◌∙◌, arith, Bool-cases, inl, inr, ◌⊎◌,
}
use lumi_observatory.Base.Text.{codes_eq}
use lumi_observatory.Ssrf.Address.{Ip, Text, ip_is_blocked}
use lumi_observatory.Ssrf.Host.{
  Answer, dns_error, bad_name, addresses, Pin, Pins, Refused, Checked, Res, done, raised, clean,
  find_pin, set_pin, sorted_set, resolve_now, resolve_pinned, resolve_all, check_ips,
}
use lumi_observatory.Ssrf.Connect.{unblocked, open_first, connect_resolved, connect_tcp}

codes_eq_refl : (t : Text) → codes_eq t t ≡ true
codes_eq_refl [] = refl
codes_eq_refl (c ∷ cs) = ground (arith, codes_eq_refl cs)

-- every pin holds an address, as `resolve_all` leaves it
abbrev pub Pinned : Pins → Type 0
Pinned pins = All (λ p. is_nil p.pinned_ips ≡ false) pins

abbrev pub Unblocked : (Text → Option Ip) → List Text → Type 0
Unblocked address ips = All (λ ip. ip_is_blocked address ip ≡ false) ips

-- the addresses of an unexpired pin for the host
abbrev pub Holds : Text → ℕ → List Text → Pins → Type 0
Holds host now ips pins =
    (p : Pin) × (find_pin (clean host) pins ≡ some p) × (p.pinned_ips ≡ ips) × (now < p.expiry)

pub guard_done :
    (b : Bool) (e : Refused) (pins after : Pins) (r : Checked)
    → (if b then raised e pins else r) ≡ done tt after
    → (b ≡ false) × (r ≡ done tt after)
guard_done true e pins after r h = absurd (cc)
guard_done false e pins after r h = (refl, h)

pub done_value :
    (ips more : List Text) (pins after : Pins) → Res.done ips pins ≡ done more after → ips ≡ more
done_value ips more pins after h = cc

done_pins :
    (ips more : List Text) (pins after : Pins) → Res.done ips pins ≡ done more after → pins ≡ after
done_pins ips more pins after h = cc

first_value : (ip i : Text) (pins after : Pins) → Res.done ip pins ≡ done i after → ip ≡ i
first_value ip i pins after h = cc

pub if_done {ℓ} :
    {A : Type ℓ} (b : Bool) (x y r : A)
    → (if b then x else y) ≡ r
    → ((b ≡ true) × (x ≡ r)) ⊎ (y ≡ r)
if_done true x y r h = inl (refl, h)
if_done false x y r h = inr h

pub check_ips-Unblocked :
    (address : Text → Option Ip) (ips : List Text) (pins after : Pins)
    → check_ips address ips pins ≡ done tt after
    → Unblocked address ips × (pins ≡ after)
unfolding check_ips
check_ips-Unblocked address [] pins after h = (tt, cc)
check_ips-Unblocked address (ip ∷ ips) pins after h =
    let split = guard_done (ip_is_blocked address ip) _ pins after (check_ips address ips pins) h in
    let rest = check_ips-Unblocked address ips pins after (split.1) in ((split.0, rest.0), rest.1)

unblocked_all :
    (address : Text → Option Ip) (ips : List Text)
    → Unblocked address ips
    → unblocked address ips ≡ ips
unfolding unblocked
unblocked_all address [] h = refl
unblocked_all address (ip ∷ ips) h = rw (h.0) (ap (ip ∷◌) (unblocked_all address ips (h.1)))

unblocked-Unblocked :
    (address : Text → Option Ip) (ips : List Text) → Unblocked address (unblocked address ips)
unfolding unblocked
unblocked-Unblocked address [] = tt
unblocked-Unblocked address (ip ∷ ips) =
    let rest = unblocked-Unblocked address ips in
    elim (Bool-cases (ip_is_blocked address ip)) [ inl e ↦ rw e rest | inr e ↦ rw e (e, rest) ]

find_set : (p : Pin) (pins : Pins) → find_pin p.pinned_host (set_pin p pins) ≡ some p
unfolding find_pin set_pin
find_set p pins = rw (codes_eq_refl p.pinned_host) refl

resolve_now-Holds :
    (answer : Answer) (now : ℕ) (host : Text) (pins : Pins) (ips : List Text) (after : Pins)
    → resolve_now answer now host pins ≡ done ips after
    → (p : Pin) × (find_pin host after ≡ some p) × (p.pinned_ips ≡ ips) × (now < p.expiry)
resolve_now-Holds dns_error now host pins ips after h = absurd (cc)
resolve_now-Holds bad_name now host pins ips after h = absurd (cc)
resolve_now-Holds (addresses []) now host pins ips after h = absurd (cc)
resolve_now-Holds (addresses (ip ∷ more)) now host pins ips after h =
    let p : Pin = record {
      pinned_host = host;
      pinned_ips = sorted_set (ip ∷ more);
      expiry = now + 300;
    } in
    (
      p,
      ap (find_pin host) (sym (done_pins _ _ _ _ h)) ∙ find_set p pins,
      done_value _ _ _ _ h,
      omega arith,
    )

resolve_pinned-Holds :
    (found : Option Pin) (answer : Answer) (now : ℕ) (host : Text) (pins : Pins) (ips : List Text)
    (after : Pins)
    → find_pin host pins ≡ found
    → resolve_pinned found answer now host pins ≡ done ips after
    → (p : Pin) × (find_pin host after ≡ some p) × (p.pinned_ips ≡ ips) × (now < p.expiry)
resolve_pinned-Holds none answer now host pins ips after e h =
    resolve_now-Holds answer now host pins ips after h
resolve_pinned-Holds (some p) answer now host pins ips after e h =
    elim (if_done (ltb now p.expiry) _ _ _ h) [
      | inl (live, d) ↦ (
        p,
        ap (find_pin host) (sym (done_pins _ _ _ _ d)) ∙ e,
        done_value _ _ _ _ d,
        ltb→lt now p.expiry live,
      )
      | inr d ↦ resolve_now-Holds answer now host pins ips after d
    ]

-- what a resolution returns is pinned for its host and has not expired
pub resolve_all-Holds :
    (answer : Answer) (now : ℕ) (host : Text) (pins : Pins) (ips : List Text) (after : Pins)
    → resolve_all answer now host pins ≡ done ips after
    → Holds host now ips after
unfolding resolve_all
resolve_all-Holds answer now host pins ips after h =
    resolve_pinned-Holds (find_pin (clean host) pins) answer now (clean host) pins ips after refl h

-- an unexpired pin answers whatever the resolver would say
resolve_held :
    (answer : Answer) (later : ℕ) (host : Text) (pins : Pins) (p : Pin)
    → find_pin (clean host) pins ≡ some p
    → ltb later p.expiry ≡ true
    → resolve_all answer later host pins ≡ done p.pinned_ips pins
unfolding resolve_all
resolve_held answer later host pins p h live = rw h (rw live refl)

pub connect_held :
    (address : Text → Option Ip) (answer : Answer) (later : ℕ) (host : Text) (pins : Pins) (p : Pin)
    → find_pin (clean host) pins ≡ some p
    → later < p.expiry
    → Unblocked address p.pinned_ips
    → connect_tcp address answer later host pins ≡ open_first p.pinned_ips pins
unfolding connect_tcp
connect_held address answer later host pins p h live ok =
    ap (connect_resolved address) (resolve_held answer later host pins p h (ground (arith, live)))
    ∙ ap (λ ips. open_first ips pins) (unblocked_all address p.pinned_ips ok)

open_first-Unblocked :
    (address : Text → Option Ip) (ips : List Text) (pins : Pins) (ip : Text) (after : Pins)
    → Unblocked address ips
    → open_first ips pins ≡ done ip after
    → ip_is_blocked address ip ≡ false
open_first-Unblocked address [] pins ip after ok h = absurd (cc)
open_first-Unblocked address (i ∷ is) pins ip after ok h =
    ap (ip_is_blocked address) (sym (first_value _ _ _ _ h)) ∙ ok.0

connected-Unblocked :
    (address : Text → Option Ip) (r : Res (List Text)) (ip : Text) (after : Pins)
    → connect_resolved address r ≡ done ip after
    → ip_is_blocked address ip ≡ false
connected-Unblocked address (done ips pins) ip after h =
    open_first-Unblocked address (unblocked address ips) pins ip after
      (unblocked-Unblocked address ips) h
connected-Unblocked address (raised e pins) ip after h = absurd (ground (arith, h))

-- Whatever the resolver answers and the pins hold, a connection goes to an address that is not blocked.
pub connect_tcp-unblocked :
    (address : Text → Option Ip) (answer : Answer) (now : ℕ) (host : Text) (pins : Pins) (ip : Text)
    (after : Pins)
    → connect_tcp address answer now host pins ≡ done ip after
    → ip_is_blocked address ip ≡ false
unfolding connect_tcp
connect_tcp-unblocked address answer now host pins ip after h =
    connected-Unblocked address (resolve_all answer now host pins) ip after h
