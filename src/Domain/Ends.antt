-- ===== src/Domain/Ends.antt =====
-- dhcpkit/utils.py: the parsers of domain names end on every input, and stop within what they may read.
use dhcpkit.Prelude.{
  ℕ, zero, suc, ◌+◌, ◌-◌, ◌<◌, ◌≤◌, ◌≡◌, Bool, false, Option, some, ◌++◌, ◌∷◌, [], length, drop,
  arith, leb, ltb, ◌==◌, leb→le, ltb→lt, ltb→le, Bool-cases, inl, inr,
}
use dhcpkit.Wire.{Bytes}
use dhcpkit.Wire.Ends.{Ends, returns, raises, Any, Ends-bind, Ends-require, Ends-first}
use dhcpkit.Header.{available, available-some}
use dhcpkit.Domain.{
  Idna, dot, join, parse_labels, parse_domain_bytes, parse_names, parse_domain_list_bytes,
}

-- Where a loop from `start` to `stop` ends: not before its start, behind it if there is a round, and
-- within `stop`.
abbrev Advances : ℕ → ℕ → ℕ → Type 0
Advances start stop reached =
    (start ≤ reached) × (start < stop → start < reached) × (start ≤ stop → reached ≤ stop)

Ends-parse_labels :
    (fuel : ℕ) (view : Bytes) (stop start : ℕ)
    → stop - start < fuel
    → Ends (λ r. Advances start stop r.2) (parse_labels fuel view stop start)
unfolding parse_labels
Ends-parse_labels zero view stop start enough = absurd (omega arith)
Ends-parse_labels (suc fuel) view stop start enough = elim (Bool-cases (ltb start stop)) [
  | inl more ↦
      let left = ltb→lt start stop more in
      rw more (
        Ends-bind (Ends-first (drop start view)) λ n _. elim (Bool-cases (n == 0)) [
          | inl end ↦ rw end (returns (omega arith, (λ _. omega arith), (λ _. omega (arith, left))))
          | inr label ↦ rw label (
              Ends-bind (Ends-require (leb n 63)) λ _ _.
                Ends-bind (Ends-require (leb (start + 1 + n) stop)) λ _ room.
                  let within = leb→le (start + 1 + n) stop room in
                  Ends-bind (Ends-parse_labels fuel view stop (start + 1 + n) (omega (arith, left)))
                    λ r p.
                      let (low, next, high) = p in
                      returns (omega (arith, low), (λ _. omega (arith, low)), (λ _. high within)))
        ])
  | inr done ↦ rw done (
      let past = ltb→le start stop done in
      returns (omega arith, (λ f. absurd (omega (arith, past, f))), (λ h. h)))
]

module _ (idna : Idna) (decodes : (bs : Bytes) → Ends Any (idna.decode bs)) where
  -- The length that is given, if it is not zero, bounds what is used; a name takes a byte at least.
  pub Ends-parse_domain_bytes :
      (view : Bytes) (len : Option ℕ) (allow_relative : Bool)
      → Ends
          (λ r. (r.0 ≤ available len view) × (0 < available len view → 0 < r.0))
          (parse_domain_bytes idna view len allow_relative)
  unfolding parse_domain_bytes
  Ends-parse_domain_bytes view len ar =
      Ends-bind
        (Ends-parse_labels (suc (available len view)) view (available len view) 0 (omega arith))
        λ (labels, ended, reached) p. elim (Bool-cases ended) [
          | inl full ↦ rw full (
              Ends-bind (decodes (join labels ++ (dot ∷ []))) λ name _.
                Ends-bind (Ends-require (leb (length name) 254))
                  λ _ _. returns (p.2 (omega arith), p.1))
          | inr part ↦ rw part (elim (Bool-cases ar) [
            | inl r ↦ rw r (
                Ends-bind (decodes (join labels)) λ name _.
                  Ends-bind (Ends-require (leb (length name) 253))
                    λ _ _. returns (p.2 (omega arith), p.1))
            | inr r ↦ rw r (raises (λ e. cc))
          ])
        ]

  Ends-parse_names :
      (fuel : ℕ) (view : Bytes) (stop start : ℕ)
      → stop - start < fuel
      → start ≤ stop
      → Ends (λ r. r.0 ≤ stop) (parse_names idna fuel view stop start)
  unfolding parse_names
  Ends-parse_names zero view stop start enough low = absurd (omega arith)
  Ends-parse_names (suc fuel) view stop start enough low = elim (Bool-cases (ltb start stop)) [
    | inl more ↦
        let left = ltb→lt start stop more in
        let all_left : available (some (stop - start)) (drop start view) ≡ stop - start =
          available-some (stop - start) (drop start view) (omega (arith, left)) in
        rw more (
          Ends-bind (Ends-parse_domain_bytes (drop start view) (some (stop - start)) false)
            λ (n, name) p.
              let (within, some_bytes) = rw all_left at p in
              let progress = some_bytes (omega (arith, left)) in
              Ends-bind
                (Ends-parse_names fuel view stop (start + n) (omega (arith, left, progress))
                  (omega (arith, within, low)))
                λ r q. returns q)
    | inr done ↦ rw done (returns low)
  ]

-- For an idna.decode that returns or raises an exception of the code, parse_domain_list_bytes does
-- so for every buffer and length, its fuel never runs out, and it uses no more than the length or,
-- where that is missing or zero, the buffer.
pub Ends-parse_domain_list_bytes :
    (idna : Idna) (decodes : (bs : Bytes) → Ends Any (idna.decode bs)) (view : Bytes)
    (len : Option ℕ)
    → Ends (λ r. r.0 ≤ available len view) (parse_domain_list_bytes idna view len)
unfolding parse_domain_list_bytes
Ends-parse_domain_list_bytes idna decodes view len =
    Ends-parse_names idna decodes (suc (available len view)) view (available len view) 0
      (omega arith) (omega arith)
