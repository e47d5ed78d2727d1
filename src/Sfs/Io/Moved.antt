-- ===== src/Sfs/Io/Moved.antt =====
-- The bytes of a file, and what a uio has passed.
use mips_os.Common.{
  ℕ, suc, ◌+◌, ◌-◌, ◌/◌, ◌%◌, ◌<◌, ◌≤◌, ◌≡◌, refl, ap, ◌∙◌, ◌==◌, if◌then◌else◌, Outcome, ok, arith,
  inl, inr, ◌⊎◌, lt_or_le,
}
use mips_os.Sfs.{Device, SfsFs, Inode, zeros}
use mips_os.Sfs.Blocks.{block_of}
use mips_os.Sfs.Io.{UioRw, uio_read, uio_write, Uio, UioCalls, bytes_of, Done}
use mips_os.Sfs.Io.ReadMap.{FailsWith}

-- Byte `k` of the file: zero where no block is mapped.
abbrev pub file_byte : Inode → SfsFs → ℕ → ℕ
file_byte inode fs k =
    if block_of inode fs (k / 512) == 0
    then 0
    else bytes_of (fs.words (block_of inode fs (k / 512))) (k % 512)

-- The uio has passed `n` bytes, which are the first ones of `source`.
pub record Moved (n : ℕ) (source : ℕ → ℕ) (uio uio' : Uio) : Type 0 where
  pub offset : uio'.offset ≡ uio.offset + n
  pub resid : uio'.resid + n ≡ uio.resid
  pub rw_kept : uio'.rw ≡ uio.rw
  pub moved : uio'.moved ≡ uio.moved + n
  pub inside : (k : ℕ) → k < n → uio'.region (uio.moved + k) ≡ source k
  pub before : (k : ℕ) → k < uio.moved → uio'.region k ≡ uio.region k

-- The uio has passed `n` bytes of a region that stays as it is.
pub record Passed (n : ℕ) (uio uio' : Uio) : Type 0 where
  pub offset : uio'.offset ≡ uio.offset + n
  pub resid : uio'.resid + n ≡ uio.resid
  pub rw_kept : uio'.rw ≡ uio.rw
  pub moved : uio'.moved ≡ uio.moved + n
  pub region : (k : ℕ) → uio'.region k ≡ uio.region k

-- What kern/include/uio.h says of a transfer to a block of memory that is all there.
pub record IsUio (calls : UioCalls) : Type 0 where
  pub reads :
      (kbuffer : ℕ → ℕ) (len : ℕ) (uio : Uio)
      → uio.rw ≡ uio_read
      → len ≤ uio.resid
      → (bytes : ℕ → ℕ) × (uio' : Uio) × (calls.uiomove kbuffer len uio ≡ (0, bytes, uio'))
        × Moved len kbuffer uio uio'
  pub reads_zeros :
      (len : ℕ) (uio : Uio)
      → uio.rw ≡ uio_read
      → len ≤ uio.resid
      → (uio' : Uio) × (calls.uiomovezeros len uio ≡ (0, uio')) × Moved len zeros uio uio'
  pub writes :
      (kbuffer : ℕ → ℕ) (len : ℕ) (uio : Uio)
      → uio.rw ≡ uio_write
      → len ≤ uio.resid
      → (bytes : ℕ → ℕ) × (uio' : Uio) × (calls.uiomove kbuffer len uio ≡ (0, bytes, uio'))
        × ((k : ℕ) → k < len → bytes k ≡ uio.region (uio.moved + k))
        × Passed len uio uio'
  pub kuio_offset :
      (kbuf : ℕ → ℕ) (len pos : ℕ) (rw : UioRw) → (calls.mk_kuio kbuf len pos rw).offset ≡ pos
  pub kuio_resid :
      (kbuf : ℕ → ℕ) (len pos : ℕ) (rw : UioRw) → (calls.mk_kuio kbuf len pos rw).resid ≡ len
  pub kuio_rw : (kbuf : ℕ → ℕ) (len pos : ℕ) (rw : UioRw) → (calls.mk_kuio kbuf len pos rw).rw ≡ rw
  pub kuio_region :
      (kbuf : ℕ → ℕ) (len pos : ℕ) (rw : UioRw) (k : ℕ)
      → k < len
      → (calls.mk_kuio kbuf len pos rw).region ((calls.mk_kuio kbuf len pos rw).moved + k) ≡ kbuf k
  pub kuio_bytes :
      (kbuf : ℕ → ℕ) (len pos : ℕ) (rw : UioRw)
      → ((k : ℕ) → kbuf k < 256)
      → (k : ℕ) → (calls.mk_kuio kbuf len pos rw).region k < 256

pub Moved-none : (source : ℕ → ℕ) (uio : Uio) → Moved 0 source uio uio
Moved-none source uio = record {
  offset = omega arith;
  resid = omega arith;
  rw_kept = refl;
  moved = omega arith;
  inside = λ k lt. absurd (omega (arith, lt));
  before = λ k lt. refl;
}

pub Moved-ext :
    (n : ℕ) (source source' : ℕ → ℕ) (uio uio' : Uio)
    → ((k : ℕ) → k < n → source k ≡ source' k)
    → Moved n source uio uio'
    → Moved n source' uio uio'
Moved-ext n source source' uio uio' same m = record {
  offset = m.offset;
  resid = m.resid;
  rw_kept = m.rw_kept;
  moved = m.moved;
  inside = λ k lt. m.inside k lt ∙ same k lt;
  before = m.before;
}

pub Moved-append :
    (n n' : ℕ) (source : ℕ → ℕ) (uio uio' uio'' : Uio)
    → Moved n source uio uio'
    → Moved n' (λ k. source (n + k)) uio' uio''
    → Moved (n + n') source uio uio''
Moved-append n n' source uio uio' uio'' m m' = record {
  offset = omega (arith, m.offset, m'.offset);
  resid = omega (arith, m.resid, m'.resid);
  rw_kept = m'.rw_kept ∙ m.rw_kept;
  moved = omega (arith, m.moved, m'.moved);
  inside = λ k lt. elim (lt_or_le k n) [
    | inl first ↦ m'.before (uio.moved + k) (omega (arith, first, m.moved)) ∙ m.inside k first
    | inr later ↦
        let at : uio.moved + k ≡ uio'.moved + (k - n) = omega (arith, later, m.moved) in
        let same : n + (k - n) ≡ k = omega (arith, later) in
        ap uio''.region at ∙ m'.inside (k - n) (omega (arith, lt, later)) ∙ ap source same
  ];
  before = λ k lt. m'.before k (omega (arith, lt, m.moved)) ∙ m.before k lt;
}

-- The next `n` bytes of the file are read, or a read of the device fails; the file stays.
abbrev pub Takes : Device → (n : ℕ) → Inode → SfsFs → Uio → Outcome Done → Type 0
Takes d n inode fs uio r =
    ((uio' : Uio) × (r ≡ ok (0, inode, fs, uio'))
      × Moved n (λ k. file_byte inode fs (uio.offset + k)) uio uio')
    ⊎ ((e : ℕ) × (uio' : Uio) × (r ≡ ok (suc e, inode, fs, uio'))
        × (uio'.rw ≡ uio.rw)
        × FailsWith d (suc e))
