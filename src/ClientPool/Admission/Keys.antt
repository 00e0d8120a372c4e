-- ===== src/ClientPool/Admission/Keys.antt =====
-- app/client_pool.py: the breaker of one key, while the breakers of others change.
use mathlib.Core.Path.{subst}
use zcode2api.Prelude.{
  ◌≡◌, refl, sym, ap, ◌∙◌, true, false, Option, none, some, [], ◌∷◌, String, arith, eq_iff, ==_iff,
  Bool-cases, inl, inr,
}
use zcode2api.Egress.{Identity, same_identity}
use zcode2api.ClientPool.{
  same_text, same_exit, BreakerKey, same_key, Breakers, breaker_at, set_breaker,
}
use zcode2api.ClientPool.Circuit.{Breaker, half_open}
use zcode2api.ClientPool.Admission.Laws.{breaker_at-set_breaker}

same_text-path : (a b : Option String) → same_text a b ≡ true → a ≡ b
same_text-path none none h = refl
same_text-path none (some b) h = absurd (cc)
same_text-path (some a) none h = absurd (cc)
same_text-path (some a) (some b) h = ap some ((eq_iff a b).0 h)

same_identity-path : (a b : Identity) → same_identity a b ≡ true → a ≡ b
same_identity-path a b h =
    let port : a.port ≡ b.port = (==_iff a.port b.port).0 (ground arith) in
    let node : a.node_id ≡ b.node_id = (eq_iff a.node_id b.node_id).0 (ground arith) in
    let epoch : a.epoch ≡ b.epoch = (==_iff a.epoch b.epoch).0 (ground arith) in
    ap (λ x. record a { port = x }) port
    ∙ ap (λ x. record b { node_id = x; epoch = a.epoch }) node
    ∙ ap (λ x. record b { epoch = x }) epoch

same_exit-path : (a b : Option Identity) → same_exit a b ≡ true → a ≡ b
same_exit-path none none h = refl
same_exit-path none (some b) h = absurd (cc)
same_exit-path (some a) none h = absurd (cc)
same_exit-path (some a) (some b) h = ap some (same_identity-path a b h)

same_key-path : (a b : BreakerKey) → same_key a b ≡ true → a ≡ b
same_key-path a b h =
    let purpose : a.purpose ≡ b.purpose = (eq_iff a.purpose b.purpose).0 (ground arith) in
    let proxy : a.proxy ≡ b.proxy = same_text-path a.proxy b.proxy (ground arith) in
    let identity : a.identity ≡ b.identity = same_exit-path a.identity b.identity (ground arith) in
    ap (λ x. record a { purpose = x }) purpose
    ∙ ap (λ x. record b { proxy = x; identity = a.identity }) proxy
    ∙ ap (λ x. record b { identity = x }) identity

breaker_at-other :
    (k key : BreakerKey) (b : Breaker) (l : Breakers)
    → same_key key k ≡ false
    → breaker_at k (set_breaker key b l) ≡ breaker_at k l
unfolding breaker_at set_breaker
breaker_at-other k key b [] h = ground (arith, h)
breaker_at-other k key b ((j, c) ∷ l) h = elim (Bool-cases (same_key j key)) [
  | inl e ↦
      let other : same_key j k ≡ false =
        subst (λ x. same_key x k ≡ false) (sym (same_key-path j key e)) h in
      ground (arith, e, other)
  | inr e ↦ ground (arith, e, breaker_at-other k key b l h)
]

-- A probe of the key is in flight.
pub record Occupied (k : BreakerKey) (l : Breakers) : Type 0 where
  pub breaker : Breaker
  pub found : breaker_at k l ≡ some breaker
  pub half : breaker.state ≡ half_open
  pub taken : breaker.half_open_active ≡ true

-- The breakers after one of them was put, if there is one to put.
abbrev pub put : BreakerKey → Option Breaker → Breakers → Breakers
put key none l = l
put key (some b) l = set_breaker key b l

-- What leaves the breaker of a probe in flight as it is, or makes it one.
abbrev pub Keeps : (Option Breaker → Option Breaker) → Type 0
Keeps f =
    (b : Breaker)
    → b.state ≡ half_open
    → b.half_open_active ≡ true
    → (d : Breaker) × (f (some b) ≡ some d) × (d.state ≡ half_open) × (d.half_open_active ≡ true)

pub Occupied-other :
    (k key : BreakerKey) (o : Option Breaker) (l : Breakers)
    → same_key key k ≡ false
    → Occupied k l
    → Occupied k (put key o l)
Occupied-other k key none l h p = p
Occupied-other k key (some b) l h p = record {
  breaker = p.breaker;
  found = breaker_at-other k key b l h ∙ p.found;
  half = p.half;
  taken = p.taken;
}

put-Occupied :
    (k : BreakerKey) (f : Option Breaker → Option Breaker) (l : Breakers)
    → Keeps f
    → Occupied k l
    → Occupied k (put k (f (breaker_at k l)) l)
put-Occupied k f l keeps p =
    let (d, now, half, taken) = keeps p.breaker p.half p.taken in
    subst (λ o. Occupied k (put k o l)) (sym (ap f p.found ∙ now))
      (record { breaker = d; found = breaker_at-set_breaker k d l; half = half; taken = taken })

-- Such a change of any key's breaker leaves the probe in flight.
pub Occupied-put :
    (k key : BreakerKey) (f : Option Breaker → Option Breaker) (l : Breakers)
    → Keeps f
    → Occupied k l
    → Occupied k (put key (f (breaker_at key l)) l)
Occupied-put k key f l keeps p = elim (Bool-cases (same_key key k)) [
  | inl e ↦
      subst (λ x. Occupied k (put x (f (breaker_at x l)) l)) (sym (same_key-path key k e))
        (put-Occupied k f l keeps p)
  | inr e ↦ Occupied-other k key (f (breaker_at key l)) l e p
]
