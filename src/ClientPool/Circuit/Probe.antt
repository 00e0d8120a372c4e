-- ===== src/ClientPool/Circuit/Probe.antt =====
-- app/client_pool.py: the requests through one exit as sequences of steps. At most one probes a failed
-- exit at a time, an exit opens after enough failures and stays closed to all until the cooldown is over.
use mathlib.Core.Path.{subst}
use zcode2api.Prelude.{
  ℕ, suc, ◌+◌, ◌≤◌, ◌<◌, ◌≡◌, ◌⊎◌, inl, refl, Bool, true, false, not, ◌&&◌, ◌||◌, Option, none,
  some, leb, ltb, if◌then◌else◌, arith,
}
use zcode2api.ClientPool.Circuit.{
  closed, opened, half_open, state_eq, Breaker, new_breaker, threshold, recorded, quarantined,
  begun, ended,
}

-- The breaker, and how many requests in flight are plain and how many are probes.
pub record Traffic : Type 0 where
  pub breaker : Option Breaker
  pub plain : ℕ
  pub probes : ℕ

abbrev pub idle : Traffic
idle = record { breaker = none; plain = 0; probes = 0 }

abbrev pub counted : Option Breaker → Bool → ℕ → ℕ → Traffic
counted st true plain probes = record { breaker = st; plain = plain; probes = suc probes }
counted st false plain probes = record { breaker = st; plain = suc plain; probes = probes }

module _ (cooldown : ℕ) where
  -- What may happen at time `now`: a request is let through, or one in flight ends, with a result or
  -- without one.
  pub data Step (now : ℕ) : Traffic → Traffic → Type 0 where
    starts :
        (t : Traffic)
        → quarantined now t.breaker ≡ false
        → Step now t (counted (begun t.breaker).0 (begun t.breaker).1 t.plain t.probes)
    plain_ends :
        (t : Traffic) (n : ℕ) (success : Option Bool) (waf : Bool)
        → t.plain ≡ suc n
        → Step now t
            (record t { breaker = ended cooldown now false success waf t.breaker; plain = n })
    probe_ends :
        (t : Traffic) (n : ℕ) (success : Option Bool) (waf : Bool)
        → t.probes ≡ suc n
        → Step now t
            (record t { breaker = ended cooldown now true success waf t.breaker; probes = n })

  -- The traffic that some sequence of steps, at any times, leads to.
  pub data Reaches : Traffic → Type 0 where
    initially : Reaches idle
    then_at : (now : ℕ) (t t' : Traffic) → Reaches t → Step now t t' → Reaches t'

  -- What holds of a breaker and its probes whatever happened.
  abbrev Sound : Option Breaker → ℕ → Type 0
  Sound none probes = probes ≡ 0
  Sound (some st) probes =
      (probes ≡ (if st.half_open_active then 1 else 0))
      × ((st.half_open_active && not (state_eq st.state half_open)) ≡ false)
      × ((state_eq st.state closed && leb 3 st.fails) ≡ false)

  starts-Sound :
      (now : ℕ) (b : Option Breaker) (plain probes : ℕ)
      → quarantined now b ≡ false
      → Sound b probes
      → Sound
          (counted (begun b).0 (begun b).1 plain probes).breaker
          (counted (begun b).0 (begun b).1 plain probes).probes
  unfolding begun quarantined
  starts-Sound now none plain probes h s = ground arith
  starts-Sound now (some st) plain probes h s = ground arith

  plain_ends-Sound :
      (now : ℕ) (b : Option Breaker) (probes : ℕ) (success : Option Bool) (waf : Bool)
      → Sound b probes
      → Sound (ended cooldown now false success waf b) probes
  unfolding ended recorded
  plain_ends-Sound now none probes none waf s = ground arith
  plain_ends-Sound now none probes (some r) waf s = ground arith
  plain_ends-Sound now (some st) probes none waf s = ground arith
  plain_ends-Sound now (some st) probes (some r) waf s = ground arith

  probe_ends-Sound :
      (now : ℕ) (b : Option Breaker) (n : ℕ) (success : Option Bool) (waf : Bool)
      → Sound b (suc n)
      → Sound (ended cooldown now true success waf b) n
  unfolding ended recorded
  probe_ends-Sound now none n success waf s = absurd (ground arith)
  probe_ends-Sound now (some st) n none waf s = ground arith
  probe_ends-Sound now (some st) n (some r) waf s = ground arith

  Step-Sound :
      (now : ℕ) (t t' : Traffic)
      → Step now t t'
      → Sound t.breaker t.probes
      → Sound t'.breaker t'.probes
  Step-Sound now _ _ (starts t h) s = starts-Sound now t.breaker t.plain t.probes h s
  Step-Sound now _ _ (plain_ends t n success waf h) s =
      plain_ends-Sound now t.breaker t.probes success waf s
  Step-Sound now _ _ (probe_ends t n success waf h) s =
      probe_ends-Sound now t.breaker n success waf (subst (Sound t.breaker) h s)

  Reaches-Sound : (t : Traffic) → Reaches t → Sound t.breaker t.probes
  Reaches-Sound _ initially = refl
  Reaches-Sound _ (then_at now t t' before step) = Step-Sound now t t' step (Reaches-Sound t before)

  Sound-quarantined :
      (now : ℕ) (b : Option Breaker) (probes : ℕ)
      → Sound b probes
      → (probes ≡ 0) ⊎ ((probes ≡ 1) × (quarantined now b ≡ true))
  unfolding quarantined
  Sound-quarantined now none probes s = inl s
  Sound-quarantined now (some st) probes s = ground arith

  -- Whatever requests ran through an exit, in whatever order they ended, either no probe is in flight,
  -- or exactly one is and the exit lets no other request through, at any time.
  pub Reaches-quarantined :
      (now : ℕ) (t : Traffic)
      → Reaches t
      → (t.probes ≡ 0) ⊎ ((t.probes ≡ 1) × (quarantined now t.breaker ≡ true))
  Reaches-quarantined now t r = Sound-quarantined now t.breaker t.probes (Reaches-Sound t r)

  opened-Step :
      (now : ℕ) (t t' : Traffic) (st : Breaker)
      → Step now t t'
      → Sound t.breaker t.probes
      → t.breaker ≡ some st
      → st.state ≡ opened
      → now < st.quarantine_until
      → t'.breaker ≡ some st
  unfolding begun ended quarantined
  opened-Step now _ _ st (starts t h) s e o l = absurd (ground arith)
  opened-Step now _ _ st (plain_ends t n success waf h) s e o l = ground arith
  opened-Step now _ _ st (probe_ends t n success waf h) s e o l = absurd (ground arith)

  -- No step before the end of its quarantine changes the breaker of an open exit: no request is let
  -- through, and the result of a request that began earlier does not count.
  pub Reaches-opened :
      (now : ℕ) (t t' : Traffic) (st : Breaker)
      → Reaches t
      → Step now t t'
      → t.breaker ≡ some st
      → st.state ≡ opened
      → now < st.quarantine_until
      → t'.breaker ≡ some st
  Reaches-opened now t t' st r step e o l = opened-Step now t t' st step (Reaches-Sound t r) e o l

  -- A failure opens an exit whose probe it is, or whose failures reach the threshold with it: three, or
  -- one if it is a block by the firewall. The exit then lets nothing through for the cooldown.
  pub quarantined-recorded :
      (now later : ℕ) (waf : Bool) (st : Breaker)
      → (state_eq st.state half_open || leb (threshold waf) (st.fails + 1)) ≡ true
      → later < now + cooldown
      → quarantined later (some (recorded cooldown now false waf st)) ≡ true
  unfolding quarantined recorded
  quarantined-recorded now later waf st h l = ground arith

  -- Once the quarantine of an open exit is over, the next request is let through as its probe, and if
  -- the probe succeeds the breaker is as new; if it fails the exit is open again for the cooldown.
  pub ended-begun :
      (now later : ℕ) (waf : Bool) (st : Breaker)
      → st.state ≡ opened
      → st.quarantine_until ≤ now
      → (quarantined now (some st) ≡ false)
        × ((begun (some st)).1 ≡ true)
        × (ended cooldown later true (some true) waf (begun (some st)).0 ≡ some new_breaker)
        × (quarantined later (ended cooldown later true (some false) waf (begun (some st)).0)
            ≡ ltb later (later + cooldown))
  unfolding quarantined begun ended recorded
  ended-begun now later waf st o l = ground arith
