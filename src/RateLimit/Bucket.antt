-- ===== src/RateLimit/Bucket.antt =====
-- dhcpkit/ipv6/server/extensions/rate_limit/manager.py: how many requests are allowed in a time.
use dhcpkit.Prelude.{
  ℕ, suc, ◌+◌, ◌-◌, ◌*◌, ◌≤◌, ◌≡◌, refl, sym, ap, ◌∙◌, subst, true, false, List, [], ◌∷◌, ltb, ◌&&◌,
  if◌then◌else◌, Bool-cases, inl, inr, ltb→le, arith,
}
use dhcpkit.Utf8.{Text}
use dhcpkit.Element.Validate.{equal_bytes}
use dhcpkit.Element.Iaids.{equal_bytes_iff}
use dhcpkit.RateLimit.{RateLimitCounters, stored, store, refilled, check_request}

-- How many of the requests, each with its time and its key, have the key and are allowed.
unfoldable pub allowed : Text → List (ℕ × Text) → RateLimitCounters → ℕ
unfolding check_request
allowed key [] c = 0
allowed key ((now, k) ∷ more) c =
    let later = allowed key more (check_request now k c).1 in
    if equal_bytes key k && (check_request now k c).0 then suc later else later

-- Requests from one time to another, in the order of their times.
abbrev pub Between : ℕ → List (ℕ × Text) → ℕ → Type 0
Between start [] stop = start ≤ stop
Between start ((now, k) ∷ more) stop = (start ≤ now) × Between now more stop

-- What is stored for a key at a time, with the default of check_request.
abbrev pub current : Text → ℕ → RateLimitCounters → ℕ × ℕ
current key now c = stored key (c.burst, now) c.counters

Between-le :
    (start : ℕ) (more : List (ℕ × Text)) (stop : ℕ) → Between start more stop → start ≤ stop
Between-le start [] stop h = h
Between-le start ((now, k) ∷ more) stop (h, hs) = let r = Between-le now more stop hs in omega arith

times-add : (a b n : ℕ) → (a + b) * n ≡ a * n + b * n
times-add a b n = grind arith

elapsed-split :
    (start now stop rate : ℕ)
    → start ≤ now
    → now ≤ stop
    → (stop - start) * rate ≡ (now - start) * rate + (stop - now) * rate
elapsed-split start now stop rate h k =
    ap (λ (n : ℕ). n * rate) (omega arith) ∙ times-add (now - start) (stop - now) rate

stored-store_self :
    (key : Text) (d v : ℕ × ℕ) (cs : List (Text × (ℕ × ℕ))) → stored key d (store key v cs) ≡ v
stored-store_self key d v [] = rw ((equal_bytes_iff key key).1 refl) refl
stored-store_self key d v ((k, w) ∷ cs) = elim (Bool-cases (equal_bytes key k)) [
  | inl e ↦ rw e (rw e refl)
  | inr e ↦ rw e (rw e (stored-store_self key d v cs))
]

stored-store_other :
    (key k : Text) (d v : ℕ × ℕ) (cs : List (Text × (ℕ × ℕ)))
    → equal_bytes key k ≡ false
    → stored key d (store k v cs) ≡ stored key d cs
stored-store_other key k d v [] h = rw h refl
stored-store_other key k d v ((j, w) ∷ cs) h = elim (Bool-cases (equal_bytes k j)) [
  | inl e ↦
      let same = (equal_bytes_iff k j).0 e in
      let other : equal_bytes key j ≡ false = subst (λ x. equal_bytes key x ≡ false) same h in
      rw (e, other) refl
  | inr e ↦ elim (Bool-cases (equal_bytes key j)) [
    | inl f ↦ rw (e, f) refl
    | inr f ↦ rw (e, f) (stored-store_other key k d v cs h)
  ]
]

-- The allowance grows by the rate at most.
refilled-later :
    (c : RateLimitCounters) (start now allowance last : ℕ)
    → last ≤ start
    → start ≤ now
    → refilled c now (allowance, last) ≤ refilled c start (allowance, last) + (now - start) * c.rate
refilled-later c start now allowance last h k =
    let e = elapsed-split last start now c.rate h k in omega arith

current-later :
    (key : Text) (c : RateLimitCounters) (start now : ℕ) (cs : List (Text × (ℕ × ℕ)))
    → (stored key (c.burst, start) cs).1 ≤ start
    → start ≤ now
    → refilled c now (stored key (c.burst, now) cs)
      ≤ refilled c start (stored key (c.burst, start) cs) + (now - start) * c.rate
current-later key c start now [] h k = omega arith
current-later key c start now ((j, (a, last)) ∷ cs) h k = elim (Bool-cases (equal_bytes key j)) [
  | inl e ↦ rw e (refilled-later c start now a last (rw e at h) k)
  | inr e ↦ rw e (current-later key c start now cs (rw e at h) k)
]

stored-store_same :
    (key k : Text) (d v : ℕ × ℕ) (cs : List (Text × (ℕ × ℕ)))
    → equal_bytes key k ≡ true
    → stored key d (store k v cs) ≡ v
stored-store_same key k d v cs h =
    subst (λ x. stored key d (store x v cs) ≡ v) ((equal_bytes_iff key k).0 h)
      (stored-store_self key d v cs)

refilled-now : (c : RateLimitCounters) (now x : ℕ) → refilled c now (x, now) ≤ x
refilled-now c now x = let none_passed : now - now ≡ 0 = omega arith in rw none_passed (omega arith)

suc-times : (n parts : ℕ) → suc n * parts ≡ parts + n * parts
suc-times n parts = grind arith

-- The counters with another state for a key.
abbrev storing : Text → ℕ → ℕ → RateLimitCounters → RateLimitCounters
storing k x now c = record c { counters = store k (x, now) c.counters }

-- The requests from a time on, by the allowance then.
abbrev Bounded : Text → List (ℕ × Text) → RateLimitCounters → ℕ → ℕ → Type 0
Bounded key more c now stop =
    (current key now c).1 ≤ now
    → allowed key more c * c.parts ≤ refilled c now (current key now c) + (stop - now) * c.rate

Bounded-same :
    (key k : Text) (more : List (ℕ × Text)) (c : RateLimitCounters) (x now stop : ℕ)
    → equal_bytes key k ≡ true
    → Bounded key more (storing k x now c) now stop
    → allowed key more (storing k x now c) * c.parts ≤ x + (stop - now) * c.rate
Bounded-same key k more c x now stop h r =
    let e = stored-store_same key k (c.burst, now) (x, now) c.counters h in
    let s : allowed key more (storing k x now c) * c.parts
        ≤ refilled (storing k x now c) now (x, now) + (stop - now) * c.rate =
      subst
        (λ v.
          allowed key more (storing k x now c) * c.parts
          ≤ refilled (storing k x now c) now v + (stop - now) * c.rate)
        e (r (subst (λ (v : ℕ × ℕ). v.1 ≤ now) (sym e) (omega arith))) in
    let last = refilled-now (storing k x now c) now x in omega arith

Bounded-other :
    (key k : Text) (more : List (ℕ × Text)) (c : RateLimitCounters) (x now stop : ℕ)
    → equal_bytes key k ≡ false
    → (current key now c).1 ≤ now
    → Bounded key more (storing k x now c) now stop
    → allowed key more (storing k x now c) * c.parts
      ≤ refilled c now (current key now c) + (stop - now) * c.rate
Bounded-other key k more c x now stop h l r =
    let e = stored-store_other key k (c.burst, now) (x, now) c.counters h in
    subst
      (λ v.
        allowed key more (storing k x now c) * c.parts
        ≤ refilled (storing k x now c) now v + (stop - now) * c.rate)
      e (r (subst (λ (v : ℕ × ℕ). v.1 ≤ now) (sym e) l))

current-le :
    (key : Text) (burst start now : ℕ) (cs : List (Text × (ℕ × ℕ)))
    → (stored key (burst, start) cs).1 ≤ start
    → start ≤ now
    → (stored key (burst, now) cs).1 ≤ now
current-le key burst start now [] h k = omega arith
current-le key burst start now ((j, (a, last)) ∷ cs) h k = elim (Bool-cases (equal_bytes key j)) [
  | inl e ↦ (let l = rw e at h in rw e (omega (arith, l, k)))
  | inr e ↦ rw e (current-le key burst start now cs (rw e at h) k)
]

same_key :
    (key k : Text) (c : RateLimitCounters) (now : ℕ)
    → equal_bytes key k ≡ true
    → refilled c now (current k now c) ≡ refilled c now (current key now c)
same_key key k c now h =
    ap (λ x. refilled c now (current x now c)) (sym ((equal_bytes_iff key k).0 h))

-- The requests that are allowed take no more than the allowance at the start and what is added to it.
allowed-refilled :
    (key : Text) (events : List (ℕ × Text)) (c : RateLimitCounters) (start stop : ℕ)
    → Between start events stop
    → (current key start c).1 ≤ start
    → allowed key events c * c.parts
      ≤ refilled c start (current key start c) + (stop - start) * c.rate
unfolding allowed check_request
allowed-refilled key [] c start stop h k = omega arith
allowed-refilled key ((now, j) ∷ more) c start stop (h, hs) k =
    let x = refilled c now (current j now c) in
    let split = elapsed-split start now stop c.rate h (Between-le now more stop hs) in
    let grown = current-later key c start now c.counters k h in
    let ahead = λ (y : ℕ). allowed-refilled key more (storing j y now c) now stop hs in
    let later = current-le key c.burst start now c.counters k h in
    elim (Bool-cases (ltb x c.parts)) [
      | inl few ↦ elim (Bool-cases (equal_bytes key j)) [
        | inl e ↦
            let n = Bounded-same key j more c x now stop e (ahead x) in
            rw (few, e)
              (let xe : x ≡ refilled c now (current key now c) = same_key key j c now e in
                omega (arith, xe, n, split, grown))
        | inr e ↦
            let n = Bounded-other key j more c x now stop e later (ahead x) in
            rw (few, e) (omega arith)
      ]
      | inr enough ↦ elim (Bool-cases (equal_bytes key j)) [
        | inl e ↦
            let n = Bounded-same key j more c (x - c.parts) now stop e (ahead (x - c.parts)) in
            rw (enough, e)
              (let xe : x ≡ refilled c now (current key now c) = same_key key j c now e in
                omega (
                  arith,
                  xe,
                  n,
                  split,
                  grown,
                  ltb→le x c.parts enough,
                  suc-times (allowed key more (storing j (x - c.parts) now c)) c.parts,
                ))
        | inr e ↦
            let n =
              Bounded-other key j more c (x - c.parts) now stop e later (ahead (x - c.parts)) in
            rw (enough, e) (omega arith)
      ]
    ]

-- Of requests in the order of their times, from a time at which the key of a client has no later
-- check behind it, no more are allowed with that key than take the burst and what the rate adds
-- from the start to the stop, each of them taking the parts of one request.
pub allowed-burst :
    (key : Text) (events : List (ℕ × Text)) (c : RateLimitCounters) (start stop : ℕ)
    → Between start events stop
    → (current key start c).1 ≤ start
    → allowed key events c * c.parts ≤ c.burst + (stop - start) * c.rate
allowed-burst key events c start stop h k =
    let r = allowed-refilled key events c start stop h k in omega arith
