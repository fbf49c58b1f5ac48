-- ===== src/Auth/Window.antt =====
-- The sliding window that RateLimiter keeps in memory, packages/observability/auth.py.
use lumi_observatory.Base.{
  ℕ, ◌+◌, ◌≤◌, ltb, leb, false, String, List, [], ◌∷◌, ◌++◌, if◌then◌else◌, length, ◌≡◌, refl, sym,
  ap, ◌∙◌, arith, Bool-cases, inl, inr,
}
use lumi_observatory.Base.Text.{◌=ₛ◌, eq_iff}
use mathlib.Core.Path.{subst}
use lumi_observatory.Auth.Limiter.{
  Call, step, allowed_times, Mem, times_of, set_times, recent, check,
}

-- how many of the times are within the window before `now`
unfoldable pub count_recent : ℕ → ℕ → List ℕ → ℕ
count_recent now window [] = 0
count_recent now window (t ∷ ts) =
    (if ltb now (t + window) then 1 else 0) + count_recent now window ts

times_of-set_times :
    (key j : String) (ts : List ℕ) (mem : Mem)
    → times_of key (set_times j ts mem) ≡ (if j =ₛ key then ts else times_of key mem)
unfolding times_of set_times
times_of-set_times key j ts [] = refl
times_of-set_times key j ts ((k, us) ∷ mem) =
    ground (arith, times_of-set_times key j ts mem, eq_iff k j, eq_iff k key, eq_iff j key)

set_own : (key : String) (ts : List ℕ) (mem : Mem) → times_of key (set_times key ts mem) ≡ ts
set_own key ts mem = ground (arith, times_of-set_times key key ts mem, eq_iff key key)

length-recent :
    (now window : ℕ) (ts : List ℕ) → length (recent now window ts) ≡ count_recent now window ts
unfolding recent count_recent
length-recent now window [] = refl
length-recent now window (t ∷ ts) = ground (arith, length-recent now window ts)

-- what the filter drops stays outside the window later
count_recent-recent :
    (later now window : ℕ) (ts : List ℕ)
    → now ≤ later
    → count_recent later window (recent now window ts) ≡ count_recent later window ts
unfolding recent count_recent
count_recent-recent later now window [] h = refl
count_recent-recent later now window (t ∷ ts) h =
    ground (arith, count_recent-recent later now window ts)

count_recent-append :
    (now window : ℕ) (ts : List ℕ) (t : ℕ)
    → count_recent now window (ts ++ t ∷ []) ≡ count_recent now window (t ∷ ts)
unfolding count_recent
count_recent-append now window [] t = refl
count_recent-append now window (u ∷ ts) t = ground (arith, count_recent-append now window ts t)

-- the counts of the allowed times and of the kept times agree from `now` on
abbrev Agrees : ℕ → ℕ → List ℕ → List ℕ → Type 0
Agrees now w h ts = (later : ℕ) → now ≤ later → count_recent later w h ≡ count_recent later w ts

kept-Agrees :
    (now next w : ℕ) (h ts : List ℕ)
    → now ≤ next
    → Agrees now w h ts
    → Agrees next w h (recent next w ts)
kept-Agrees now next w h ts le a later l =
    a later (omega (arith, le, l)) ∙ sym (count_recent-recent later next w ts l)

added-Agrees :
    (now next w : ℕ) (h ts : List ℕ)
    → now ≤ next
    → Agrees now w h ts
    → Agrees next w (next ∷ h) (recent next w ts ++ next ∷ [])
unfolding count_recent
added-Agrees now next w h ts le a later l =
    ap (λ n. (if ltb later (next + w) then 1 else 0) + n) (kept-Agrees now next w h ts le a later l)
    ∙ sym (count_recent-append later w (recent next w ts) next)

-- an allowed call found room
room_left :
    (now next w l : ℕ) (h ts : List ℕ)
    → now ≤ next
    → Agrees now w h ts
    → leb l (length (recent next w ts)) ≡ false
    → count_recent next w (next ∷ h) ≤ l
unfolding count_recent
room_left now next w l h ts le a free =
    ground (arith, length-recent next w ts, a next le, count_recent-recent next next w ts)

-- from `now` on, the times do not decrease
abbrev pub Ordered : ℕ → List Call → Type 0
Ordered now [] = Unit
Ordered now (c ∷ cs) = (now ≤ c.at) × Ordered c.at cs

-- each allowed call found fewer than the limit before it in its window
abbrev pub WithinLimit : ℕ → ℕ → List ℕ → Type 0
WithinLimit l w [] = Unit
WithinLimit l w (t ∷ h) = (count_recent t w (t ∷ h) ≤ l) × WithinLimit l w h

module _ (limit window : String → ℕ) where
  abbrev Sound : String → ℕ → List ℕ → Mem → Type 0
  Sound key now h mem =
      Agrees now (window key) h (times_of key mem) × WithinLimit (limit key) (window key) h

  own_Sound :
      (c : Call) (now : ℕ) (mem : Mem) (h : List ℕ)
      → now ≤ c.at
      → Sound c.call_key now h mem
      → Sound c.call_key c.at
          (if (step limit window c mem).0 then c.at ∷ h else h)
          (step limit window c mem).1
  unfolding step check
  own_Sound c now mem h le (a, w) =
      let key = c.call_key in
      let kept = recent c.at (window key) (times_of key mem) in
      elim (Bool-cases (leb (limit key) (length kept))) [
        | inl full ↦ rw full (
          (λ later l.
              kept-Agrees now c.at (window key) h (times_of key mem) le a later l
              ∙ ap (count_recent later (window key)) (sym (set_own key kept mem))),
          w,
        )
        | inr free ↦ rw free (
          (λ later l.
              added-Agrees now c.at (window key) h (times_of key mem) le a later l
              ∙ ap (count_recent later (window key)) (sym (set_own key (kept ++ c.at ∷ []) mem))),
          (room_left now c.at (window key) (limit key) h (times_of key mem) le a free, w),
        )
      ]

  other_times :
      (c : Call) (key : String) (mem : Mem)
      → (c.call_key =ₛ key) ≡ false
      → times_of key (step limit window c mem).1 ≡ times_of key mem
  unfolding step check
  other_times c key mem e =
      let kept = recent c.at (window c.call_key) (times_of c.call_key mem) in
      ground (
        arith,
        e,
        times_of-set_times key c.call_key kept mem,
        times_of-set_times key c.call_key (kept ++ c.at ∷ []) mem,
      )

  allowed_times-WithinLimit :
      (key : String) (cs : List Call) (now : ℕ) (mem : Mem) (h : List ℕ)
      → Ordered now cs
      → Sound key now h mem
      → WithinLimit (limit key) (window key) (allowed_times limit window key cs mem h)
  unfolding allowed_times
  allowed_times-WithinLimit key [] now mem h o (a, w) = w
  allowed_times-WithinLimit key (c ∷ cs) now mem h (le, o) (a, w) =
      elim (Bool-cases (c.call_key =ₛ key)) [
        | inl e ↦ rw e (
            allowed_times-WithinLimit key cs c.at _ _ o (
              subst
                (λ k.
                  Sound k now h mem
                  → Sound k c.at (if (step limit window c mem).0 then c.at ∷ h else h)
                      (step limit window c mem).1)
                ((eq_iff c.call_key key).0 e) (own_Sound c now mem h le) (a, w)))
        | inr e ↦ rw e (
            allowed_times-WithinLimit key cs c.at _ h o (
              (λ later l.
                  a later (omega (arith, le, l))
                  ∙ ap (count_recent later (window key)) (sym (other_times c key mem e))),
              w,
            ))
      ]

  -- the limiter that remembers every allowed time and counts those in the window
  unfoldable pub ideal_times : String → List Call → List ℕ → List ℕ
  ideal_times key [] h = h
  ideal_times key (c ∷ cs) h = ideal_times key cs (
      if c.call_key =ₛ key
      then (if ltb (count_recent c.at (window key) h) (limit key) then c.at ∷ h else h)
      else h)

  own_answer :
      (c : Call) (now : ℕ) (mem : Mem) (h : List ℕ)
      → now ≤ c.at
      → Sound c.call_key now h mem
      → (step limit window c mem).0
        ≡ ltb (count_recent c.at (window c.call_key) h) (limit c.call_key)
  unfolding step check
  own_answer c now mem h le (a, w) = ground (
    arith,
    a c.at le,
    length-recent c.at (window c.call_key) (times_of c.call_key mem),
    count_recent-recent c.at c.at (window c.call_key) (times_of c.call_key mem),
  )

  allowed_times-ideal_times :
      (key : String) (cs : List Call) (now : ℕ) (mem : Mem) (h : List ℕ)
      → Ordered now cs
      → Sound key now h mem
      → allowed_times limit window key cs mem h ≡ ideal_times key cs h
  unfolding allowed_times ideal_times
  allowed_times-ideal_times key [] now mem h o s = refl
  allowed_times-ideal_times key (c ∷ cs) now mem h (le, o) s =
      elim (Bool-cases (c.call_key =ₛ key)) [
        | inl e ↦
            let same = (eq_iff c.call_key key).0 e in
            rw e (
              allowed_times-ideal_times key cs c.at _ _ o (
                subst
                  (λ k.
                    Sound k now h mem
                    → Sound k c.at (if (step limit window c mem).0 then c.at ∷ h else h)
                        (step limit window c mem).1)
                  same (own_Sound c now mem h le) s)
              ∙ ap (λ b. ideal_times key cs (if b then c.at ∷ h else h))
                  (subst
                    (λ k.
                      Sound k now h mem
                      → (step limit window c mem).0
                        ≡ ltb (count_recent c.at (window k) h) (limit k))
                    same (own_answer c now mem h le) s))
        | inr e ↦ rw e (
            allowed_times-ideal_times key cs c.at _ h o (
              (λ later l.
                  s.0 later (omega (arith, le, l))
                  ∙ ap (count_recent later (window key)) (sym (other_times c key mem e))),
              s.1,
            ))
      ]

  -- With Redis unavailable, for calls at times that do not decrease, each key with its own limit and window: a key's
  -- allowed calls are those of the limiter that remembers every allowed time, whatever other keys do, and at most
  -- the limit of them lie in the window that ends at any of them.
  pub limiter-WithinLimit :
      (key : String) (cs : List Call)
      → Ordered 0 cs
      → (allowed_times limit window key cs [] [] ≡ ideal_times key cs [])
        × WithinLimit (limit key) (window key) (allowed_times limit window key cs [] [])
  unfolding times_of
  limiter-WithinLimit key cs o = (
    allowed_times-ideal_times key cs 0 [] [] o ((λ later l. refl), tt),
    allowed_times-WithinLimit key cs 0 [] [] o ((λ later l. refl), tt),
  )
