-- ===== src/Sfs/Retries.antt =====
-- kern/fs/sfs/sfs_io.c: `sfs_rwblock` and its retries.
use mips_os.Common.{
  ℕ, zero, suc, ◌+◌, ◌<◌, ◌≤◌, ◌≡◌, ◌≢◌, refl, ap, ◌∙◌, Bool-cases, ==_iff, ◌==◌, ok, arith, inl,
  inr, ◌⊎◌, einval, eio,
}
use mips_os.Sfs.{retry, sfs_rwblock}

-- The answer at the try `tries + k` ends the rounds: it is not EIO, or no retry is left.
unfoldable pub Ends : (left tries : ℕ) (answer : ℕ → ℕ) (e : ℕ) → Type 0
Ends left tries answer e =
    (k : ℕ) × (k ≤ left)
    × (answer (tries + k) ≡ e)
    × ((j : ℕ) → j < k → answer (tries + j) ≡ eio)
    × ((e ≢ eio) ⊎ (k ≡ left))

retry_lem :
    (left tries : ℕ) (answer : ℕ → ℕ)
    → ((t : ℕ) → answer t ≢ einval)
    → (e : ℕ) × (retry left tries answer ≡ ok e) × Ends left tries answer e
unfolding retry Ends
retry_lem zero tries answer valid = elim (Bool-cases (answer tries == einval)) [
  | inl bad ↦ absurd (valid tries ((==_iff (answer tries) einval).0 bad))
  | inr good ↦ (
    answer tries,
    rw good refl,
    (0, omega arith, ap answer (omega arith), (λ j lt. absurd (omega (arith, lt))), inr refl),
  )
]
retry_lem (suc left) tries answer valid = elim (Bool-cases (answer tries == einval)) [
  | inl bad ↦ absurd (valid tries ((==_iff (answer tries) einval).0 bad))
  | inr good ↦ elim (Bool-cases (answer tries == eio)) [
    | inr other ↦ (
      answer tries,
      rw (good, other) refl,
      (
        0,
        omega arith,
        ap answer (omega arith),
        (λ j lt. absurd (omega (arith, lt))),
        inl (λ e. cc (other, (==_iff (answer tries) eio).1 e)),
      ),
    )
    | inl again ↦
        let (e, returns_it, (k, le, at, before, last)) = retry_lem left (tries + 1) answer valid in
        (
          e,
          rw (good, again) returns_it,
          (
            suc k,
            omega (arith, le),
            ap answer (omega arith) ∙ at,
            (λ j lt. earlier j k lt before ((==_iff (answer tries) eio).0 again)),
            at_last k left e last,
          ),
        )
  ]
]
  where
    at_last : (k left e : ℕ) → ((e ≢ eio) ⊎ (k ≡ left)) → ((e ≢ eio) ⊎ (suc k ≡ suc left))
    at_last k left e (inl other) = inl other
    at_last k left e (inr end) = inr (ap suc end)

    earlier :
        (j k : ℕ)
        → j < suc k
        → ((j : ℕ) → j < k → answer (tries + 1 + j) ≡ eio)
        → answer tries ≡ eio
        → answer (tries + j) ≡ eio
    earlier zero k lt before first = ap answer (omega arith) ∙ first
    earlier (suc j) k lt before first = ap answer (omega arith) ∙ before j (omega (arith, lt))

-- On a device that never answers EINVAL, sfs_rwblock does not panic. It returns the first answer
-- that is not EIO, after at most ten retries, or EIO where all eleven tries answer it.
pub rwblock_lem :
    (answer : ℕ → ℕ)
    → ((t : ℕ) → answer t ≢ einval)
    → (e : ℕ) × (sfs_rwblock answer ≡ ok e) × Ends 10 0 answer e
unfolding sfs_rwblock
rwblock_lem answer valid = retry_lem 10 0 answer valid
