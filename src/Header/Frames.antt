-- ===== src/Header/Frames.antt =====
-- What an option writes: a head that has room for the data behind it.
use dhcpkit.Prelude.{ℕ, ◌≤◌, ◌<◌, ◌≡◌, subst, ◌++◌, length, arith, length-append}
use dhcpkit.Wire.{Bytes}
use dhcpkit.Header.{head_of}

-- `b` is a head for the type code `t` and the data behind it, which the head has room for.
abbrev pub IsFramed : ℕ → Bytes → Bytes → Type 0
IsFramed t data_bytes b =
    (length data_bytes < 65536) × (b ≡ head_of t (length data_bytes) ++ data_bytes)

-- From a packed head that gives `n` as the length.
pub written-IsFramed :
    (t n : ℕ) (data_bytes : Bytes) {b : Bytes}
    → n ≡ length data_bytes
    → n < 65536
    → b ≡ head_of t n ++ data_bytes
    → IsFramed t data_bytes b
written-IsFramed t n data_bytes {b} e fit written =
    subst (λ (k : ℕ). (k < 65536) × (b ≡ head_of t k ++ data_bytes)) e (fit, written)

-- The data are there where more may follow.
pub room : (data_bytes rest : Bytes) → length data_bytes ≤ length (data_bytes ++ rest)
room data_bytes rest = omega (arith, length-append {0} data_bytes rest)
