-- ===== src/Reports/Reasons.antt =====
-- The failure reason that is stored (`truncateReason` of report/worker.go).
use sdano.Base.{
  ℕ, zero, suc, ◌≤◌, ◌<◌, true, false, ◌≡◌, refl, sym, subst, ◌⊎◌, [], ◌∷◌, leb, length, Bool-cases,
  inl, inr, arith,
}
use sdano.Base.Bytes.{Bytes, take}
use sdano.Reports.{valid_string, back_off, truncate_reason, max_failure_reason_len}

length-take-le : (n : ℕ) (s : Bytes) → length (take n s) ≤ n
length-take-le zero s = omega arith
length-take-le (suc n) [] = omega arith
length-take-le (suc n) (x ∷ s) = omega (arith, length-take-le n s)

valid_empty : valid_string [] ≡ true
unfolding valid_string
valid_empty = refl

-- What the loop leaves of a text: at most `n` bytes of it, valid, and where it is fewer, one byte
-- more would not be.
pub record LongestValid (n : ℕ) (s out : Bytes) : Type 0 where
  pub cut : ℕ
  pub within : cut ≤ n
  pub prefix : out ≡ take cut s
  pub valid : valid_string out ≡ true
  pub no_longer : (cut ≡ n) ⊎ (valid_string (take (suc cut) s) ≡ false)

back_off-LongestValid : (n : ℕ) (s : Bytes) → LongestValid n s (back_off n s)
unfolding back_off
back_off-LongestValid zero s = record {
  cut = zero;
  within = omega arith;
  prefix = refl;
  valid = valid_empty;
  no_longer = inl refl;
}
back_off-LongestValid (suc n) s = elim (Bool-cases (valid_string (take (suc n) s))) [
  | inl valid ↦ rw valid (record {
    cut = suc n;
    within = omega arith;
    prefix = refl;
    valid = valid;
    no_longer = inl refl;
  })
  | inr invalid ↦
      let r = back_off-LongestValid n s in
      rw invalid (record {
        cut = r.cut;
        within = omega (arith, r.within);
        prefix = r.prefix;
        valid = r.valid;
        no_longer = elim r.no_longer [
          | inl e ↦ inr (subst (λ k. valid_string (take (suc k) s) ≡ false) (sym e) invalid)
          | inr e ↦ inr e
        ];
      })
]

-- How a message is stored: whole, or cut.
pub data Stored (s out : Bytes) : Type 0 where
  whole : length s ≤ max_failure_reason_len → out ≡ s → Stored s out
  shortened :
      max_failure_reason_len < length s → LongestValid max_failure_reason_len s out → Stored s out

short_enough : (n : ℕ) (s out : Bytes) → LongestValid n s out → length out ≤ n
short_enough n s out r = rw r.prefix (omega (arith, length-take-le r.cut s, r.within))

longer : (n m : ℕ) → leb n m ≡ false → m < n
longer n m h = ground arith

-- The stored reason has at most 500 bytes, whatever the message is. A message of at most 500 bytes
-- is stored whole; of a longer one, a prefix that is valid UTF-8 is stored, and where it has fewer
-- than 500 bytes, the prefix with one byte more is not valid UTF-8.
pub truncate_reason-valid :
    (s : Bytes)
    → (length (truncate_reason s) ≤ max_failure_reason_len) × Stored s (truncate_reason s)
unfolding truncate_reason
truncate_reason-valid s = elim (Bool-cases (leb (length s) max_failure_reason_len)) [
  | inl short ↦ rw short (ground arith, whole (ground arith) refl)
  | inr long ↦
      let r = back_off-LongestValid max_failure_reason_len s in
      rw long (
        short_enough max_failure_reason_len s _ r,
        shortened (longer (length s) max_failure_reason_len long) r,
      )
]
