-- ===== src/ClientPool/Clients/Held.antt =====
-- app/client_pool.py: a client that an operation holds is not closed: the invariant, and the parts of
-- the methods that keep it.
use zcode2api.Prelude.{
  ℕ, suc, ◌<◌, ◌≡◌, refl, sym, ap, ◌∙◌, String, Bool, true, false, not, Option, none, some, List,
  [], ◌∷◌, ◌++◌, ◌==◌, if◌then◌else◌, any, keep_if, find_first, map, All, All-map, All-append,
  All-keep_if, All-Among, All-append_last, Among, Among-find_first, arith, Bool-cases, ==_iff, inl,
  inr,
}
use zcode2api.Account.{Account}
use zcode2api.Egress.{Identity}
use zcode2api.ClientPool.{Pool, Cached, Operation, Known}
use zcode2api.ClientPool.Clients.{is_closed, is_held, touch, touched, evict, added, close_retired}

abbrev pub is_in : ℕ → List ℕ → Bool
is_in c l = any (λ n. n == c) l

-- The clients of the pool's operations are open, and every client was numbered by the pool.
pub record Sound (pool : Pool) : Type 0 where
  pub held : All (λ o. (is_closed pool o.client ≡ false) × (o.client < pool.next)) pool.operations
  pub cached : All (λ k. k.client < pool.next) pool.clients
  pub waiting : All (λ c. c < pool.next) pool.retired
  pub numbered : All (λ c. c < pool.next) pool.closed

is_in-keep_if : (p : ℕ → Bool) (c : ℕ) (l : List ℕ) → p c ≡ false → is_in c (keep_if p l) ≡ false
is_in-keep_if p c [] h = refl
is_in-keep_if p c (n ∷ l) h = elim (Bool-cases (p n)) [
  | inl e ↦ elim (Bool-cases (n == c)) [
    | inl same ↦ absurd (ground (arith, sym e ∙ ap p ((==_iff n c).0 same) ∙ h))
    | inr other ↦ ground (arith, is_in-keep_if p c l h, e, other)
  ]
  | inr e ↦ ground (arith, is_in-keep_if p c l h, e)
]

is_in-append :
    (c : ℕ) (l m : List ℕ) → is_in c l ≡ false → is_in c m ≡ false → is_in c (l ++ m) ≡ false
is_in-append c [] m h k = k
is_in-append c (n ∷ l) m h k = ground (arith, is_in-append c l m)

All-of :
    (P : Operation → Type 0) (l : List Operation) → ((o : Operation) → Among o l → P o) → All P l
All-of P [] f = tt
All-of P (o ∷ l) f = (f o (inl refl), All-of P l (λ q m. f q (inr m)))

is_held-Among : (ops : List Operation) (o : Operation) → Among o ops → is_held ops o.client ≡ true
is_held-Among [] o m = absurd m
is_held-Among (q ∷ ops) o m = ground (arith, is_held-Among ops o)

All-clients :
    (n : ℕ) (l : List Cached) → All (λ k. k.client < n) l → All (λ c. c < n) (map (λ k. k.client) l)
All-clients n [] h = tt
All-clients n (k ∷ l) h = (h.0, All-clients n l h.1)

pub close_retired-Sound : (pool : Pool) → Sound pool → Sound (close_retired pool)
unfolding close_retired
close_retired-Sound pool s =
    let waits : ℕ → Bool = λ c. is_held pool.operations c in
    record {
      held =
          All-of (λ o. (is_closed (close_retired pool) o.client ≡ false) × (o.client < pool.next))
            pool.operations
            (λ o m.
              let was =
                All-Among (λ q. (is_closed pool q.client ≡ false) × (q.client < pool.next))
                  pool.operations o s.held m in
              (
                is_in-append o.client (keep_if (λ c. not (waits c)) pool.retired) pool.closed
                    (is_in-keep_if (λ c. not (waits c)) o.client pool.retired
                      (ap not (is_held-Among pool.operations o m)))
                    was.0,
                was.1,
              ));
      cached = s.cached;
      waiting = All-keep_if (λ c. c < pool.next) waits pool.retired s.waiting;
      numbered =
          All-append (λ c. c < pool.next) (keep_if (λ c. not (waits c)) pool.retired) pool.closed
            (All-keep_if (λ c. c < pool.next) (λ c. not (waits c)) pool.retired s.waiting)
            s.numbered;
    }

pub evict-Sound : (gone : Cached → Bool) (pool : Pool) → Sound pool → Sound (evict gone pool)
evict-Sound gone pool s = record {
  held = s.held;
  cached = All-keep_if (λ k. k.client < pool.next) (λ k. not (gone k)) pool.clients s.cached;
  waiting =
      All-append (λ c. c < pool.next) (map (λ k. k.client) (keep_if gone pool.clients)) pool.retired
        (All-clients pool.next (keep_if gone pool.clients)
          (All-keep_if (λ k. k.client < pool.next) gone pool.clients s.cached))
        s.waiting;
  numbered = s.numbered;
}

touch-All :
    (now c n : ℕ) (l : List Cached)
    → All (λ k. k.client < n) l
    → All (λ k. k.client < n) (touch now c l)
touch-All now c n [] h = tt
touch-All now c n (k ∷ l) h =
    elim (k.client == c)
      as (λ b.
        All (λ k. k.client < n)
          (if b then record k { last_active = now } ∷ touch now c l else k ∷ touch now c l)) [
            | true ↦ (h.0, touch-All now c n l h.1)
            | false ↦ (h.0, touch-All now c n l h.1)
          ]

pub touched-Sound : (now c : ℕ) (pool : Pool) → Sound pool → Sound (touched now c pool)
touched-Sound now c pool s = record {
  held = s.held;
  cached = touch-All now c pool.next pool.clients s.cached;
  waiting = s.waiting;
  numbered = s.numbered;
}

pub All-grows : (n : ℕ) (l : List ℕ) → All (λ c. c < n) l → All (λ c. c < suc n) l
All-grows n l h = All-map (λ c. c < n) (λ c. c < suc n) (λ c k. omega (arith, k)) l h

-- Whatever else the pool has, a pool with the same clients and a greater count is sound.
pub counted-Sound :
    (pool : Pool) (known : List Known)
    → Sound pool
    → Sound (record pool { known = known; next = suc pool.next })
counted-Sound pool known s = record {
  held =
      All-map (λ o. (is_closed pool o.client ≡ false) × (o.client < pool.next))
        (λ o. (is_closed pool o.client ≡ false) × (o.client < suc pool.next))
        (λ o h. (h.0, omega (arith, h.1))) pool.operations s.held;
  cached =
      All-map (λ k. k.client < pool.next) (λ k. k.client < suc pool.next) (λ k h. omega (arith, h))
        pool.clients s.cached;
  waiting = All-grows pool.next pool.retired s.waiting;
  numbered = All-grows pool.next pool.closed s.numbered;
}

is_in-fresh : (n : ℕ) (l : List ℕ) → All (λ c. c < n) l → is_in n l ≡ false
is_in-fresh n [] h = refl
is_in-fresh n (c ∷ l) h = ground (arith, is_in-fresh n l h.1, h.0)

-- A client is open and was numbered by the pool.
abbrev pub Open : Pool → Option ℕ → Type 0
Open pool none = Unit
Open pool (some c) = (is_closed pool c ≡ false) × (c < pool.next)

-- The pool after a call, and the client that it gives.
abbrev pub Good : Pool × Option ℕ → Type 0
Good r = Sound r.0 × Open r.0 r.1

pub Good-if : (b : Bool) (r q : Pool × Option ℕ) → Good r → Good q → Good (if b then r else q)
Good-if true r q h k = h
Good-if false r q h k = k

pub added-Good :
    (now : ℕ) (a : Account) (purpose actual : Option String) (identity : Option Identity)
    (pool : Pool)
    → Sound pool
    → Good (added now a purpose actual identity pool, some pool.next)
added-Good now a purpose actual identity pool s =
    let grown = counted-Sound pool pool.known s in
    (
      record {
        held = grown.held;
        cached =
            All-append_last (λ k. k.client < suc pool.next) pool.clients _ grown.cached
              (omega arith);
        waiting = grown.waiting;
        numbered = grown.numbered;
      },
      (is_in-fresh pool.next pool.closed s.numbered, omega arith),
    )

Sound-if : (b : Bool) (p q : Pool × Bool) → Sound p.0 → Sound q.0 → Sound (if b then p else q).0
Sound-if true p q h k = h
Sound-if false p q h k = k

pub found-Open :
    (now : ℕ) (p : Cached → Bool) (pool : Pool) (k : Cached)
    → Sound pool
    → find_first p pool.clients ≡ some k
    → is_closed pool k.client ≡ false
    → Good (touched now k.client pool, some k.client)
found-Open now p pool k s found is_open = (
  touched-Sound now k.client pool s,
  (
    is_open,
    All-Among (λ c. c.client < pool.next) pool.clients k s.cached
        (Among-find_first p pool.clients k found),
  ),
)
