-- ===== src/Domain/Labels.antt =====
-- dhcpkit/utils.py: the labels of a domain name, as they are written and read.
use dhcpkit.Prelude.{
  ℕ, zero, suc, ◌+◌, ◌<◌, ◌≤◌, ◌≡◌, refl, sym, ap, ◌∙◌, Bool, true, false, List, [], ◌∷◌, ◌++◌,
  length, drop, All, arith, length-append, append_assoc, lt→ltb, le→ltb, le→leb, ==_iff, drop_past,
  ◌==◌, ltb, Bool-cases, inl, inr,
}
use dhcpkit.Wire.{Bytes, ok, require}
use dhcpkit.Wire.Laws.{slice_here, >>=-eq-ok}
use dhcpkit.Domain.{
  Characters, Idna, ChecksLabels, dot, join, split, parse_labels, encode_labels, final_zero,
}

abbrev pub encoded : List Bytes → Bytes
encoded [] = []
encoded (l ∷ ls) = (length l ∷ l) ++ encoded ls

abbrev pub IsLabel : Bytes → Type 0
IsLabel l = (1 ≤ length l) × (length l ≤ 63)

pub encode_labels-encoded :
    (idna : Idna) (checks : ChecksLabels idna) (ls : List Characters) {b : Bytes}
    → encode_labels idna ls ≡ ok b
    → (b ≡ encoded ls) × All IsLabel ls
unfolding encode_labels
encode_labels-encoded idna checks [] h = (cc, tt)
encode_labels-encoded idna checks (l ∷ ls) h =
    let (u, checked, h₁) = >>=-eq-ok (idna.alabel l) _ h in
    let (v, small, h₂) = >>=-eq-ok (require (ltb (length l) 256)) _ h₁ in
    let (more, saved, h₃) = >>=-eq-ok (encode_labels idna ls) _ h₂ in
    let (written, labels) = encode_labels-encoded idna checks ls saved in
    (cc, (checks l checked, labels))

pub split_first :
    (cs : Characters) → (l : Characters) × (ls : List Characters) × (split cs ≡ l ∷ ls)
unfolding split
split_first [] = ([], [], refl)
split_first (c ∷ cs) =
    let (l, ls, e) = split_first cs in
    elim (Bool-cases (c == dot)) [
      | inl d ↦ ([], split cs, rw d refl)
      | inr d ↦ (c ∷ l, ls, rw (d, e) refl)
    ]

join-put_first :
    (c : ℕ) (l : Characters) (ls : List Characters) → join ((c ∷ l) ∷ ls) ≡ c ∷ join (l ∷ ls)
unfolding join
join-put_first c l [] = refl
join-put_first c l (m ∷ ms) = refl

pub join-split : (cs : Characters) → join (split cs) ≡ cs
unfolding join split
join-split [] = refl
join-split (c ∷ cs) =
    let (l, ls, e) = split_first cs in
    let rest : join (l ∷ ls) ≡ cs = sym (ap join e) ∙ join-split cs in
    elim (Bool-cases (c == dot)) [
      | inl d ↦ rw (d, e) (cc (rest, (==_iff c dot).0 d))
      | inr d ↦ rw (d, e) (join-put_first c l ls ∙ ap (λ (t : Characters). c ∷ t) rest)
    ]

-- With fuel for each byte that is written the loop reads the labels from its offset on, and the label of
-- length zero that may be behind them, where it stops; without that one it goes on to max_offset.
pub parse_labels-encoded :
    (fuel : ℕ) (ls : List Bytes) (ended : Bool) (view rest : Bytes) (start reached stop : ℕ)
    → All IsLabel ls
    → length (encoded ls) + length (final_zero ended) < fuel
    → drop start view ≡ encoded ls ++ (final_zero ended ++ rest)
    → reached ≡ start + length (encoded ls) + length (final_zero ended)
    → reached ≤ stop
    → (ended ≡ false → reached ≡ stop)
    → parse_labels fuel view stop start ≡ ok (ls, ended, reached)
unfolding parse_labels
parse_labels-encoded zero ls ended view rest start reached stop p enough e h within whole =
    absurd (omega arith)
parse_labels-encoded (suc fuel) [] true view rest start reached stop p enough e h within whole =
    rw (lt→ltb start stop (omega arith), e) (ap (λ (k : ℕ). ok ([], true, k)) (omega arith))
parse_labels-encoded (suc fuel) [] false view rest start reached stop p enough e h within whole =
    rw (le→ltb start stop (omega (arith, whole refl)))
      (ap (λ (k : ℕ). ok ([], false, k)) (omega arith))
parse_labels-encoded (suc fuel) (l ∷ ls) ended view rest start reached stop ((least, most), ps)
      enough e h within whole =
    let tail = encoded ls ++ (final_zero ended ++ rest) in
    let total = length-append {0} l (encoded ls) in
    let here : drop start view ≡ (length l ∷ []) ++ (l ++ tail) = rw append_assoc at e in
    let at_label = drop_past view (length l ∷ []) (l ++ tail) start here in
    let behind = drop_past view l tail (start + 1) at_label in
    let next =
      parse_labels-encoded fuel ls ended view rest (start + 1 + length l) reached stop ps
        (omega (arith, total)) behind (omega (arith, total)) within whole in
    let some_bytes : (length l == 0) ≡ false = ground (arith, least) in
    rw
      (
        lt→ltb start stop (omega (arith, total)),
        here,
        some_bytes,
        le→leb (length l) 63 most,
        le→leb (start + 1 + length l) stop (omega (arith, total)),
        next,
      )
      (ap (λ x. ok (x ∷ ls, ended, reached)) (slice_here view l tail (start + 1) at_label))
