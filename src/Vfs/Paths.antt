-- ===== src/Vfs/Paths.antt =====
-- How a path with a device name is split.
use mips_os.Common.{
  ℕ, zero, suc, ◌+◌, ◌≡◌, refl, ap, ◌∙◌, true, false, some, List, [], ◌∷◌, ◌++◌, replicate, length,
  take, drop, ◌==◌, ok, arith,
}
use mips_os.Vfs.{colon, slash, Starts, first_mark, skip_slashes, start_at, getdevice}

-- no colon and no slash
abbrev pub IsPlain : List ℕ → Type 0
IsPlain [] = Unit {0}
IsPlain (c ∷ cs) = ((c == colon) ≡ false) × ((c == slash) ≡ false) × IsPlain cs

-- not a slash first
abbrev pub IsRelative : List ℕ → Type 0
IsRelative [] = Unit {0}
IsRelative (c ∷ cs) = (c == slash) ≡ false

first_mark_lem :
    (i : ℕ) (name rest : List ℕ)
    → IsPlain name
    → first_mark i (name ++ (colon ∷ rest)) ≡ some (true, i + length name)
unfolding first_mark
first_mark_lem i [] rest plain = ap (λ n. some (true, n)) (omega arith)
first_mark_lem i (c ∷ name) rest (ne, ne', plain) =
    rw (first_mark, ne, ne')
      (first_mark_lem (i + 1) name rest plain ∙ ap (λ n. some (true, n)) (omega arith))

skip_slashes_lem :
    (n : ℕ) (path : List ℕ) → IsRelative path → skip_slashes (replicate n slash ++ path) ≡ path
unfolding skip_slashes
skip_slashes_lem zero [] h = refl
skip_slashes_lem zero (c ∷ path) h = rw (skip_slashes, h) refl
skip_slashes_lem (suc n) path h = skip_slashes_lem n path h

take_name : (name rest : List ℕ) → take (length name) (name ++ rest) ≡ name
take_name [] rest = refl
take_name (c ∷ name) rest = ap (λ l. c ∷ l) (take_name name rest)

drop_name : (name rest : List ℕ) (c : ℕ) → drop (suc (length name)) (name ++ (c ∷ rest)) ≡ rest
drop_name [] rest c = refl
drop_name (x ∷ name) rest c = drop_name name rest c

-- A path of a device name without colons and slashes, a colon, any number of slashes and a rest
-- that does not begin with a slash is split by getdevice into the root of that device and the
-- rest.
getdevice_lem :
    {V : Type 0} (starts : Starts V) (c : ℕ) (name : List ℕ) (n : ℕ) (path : List ℕ)
    → IsPlain (c ∷ name)
    → IsRelative path
    → getdevice starts ((c ∷ name) ++ (colon ∷ (replicate n slash ++ path)))
      ≡ ok (starts.getroot (c ∷ name), path)
unfolding getdevice start_at
getdevice_lem starts c name n path plain relative =
    let tail : List ℕ = colon ∷ (replicate n slash ++ path) in
    let marked : first_mark 0 ((c ∷ name) ++ tail) ≡ some (true, suc (length name)) =
      first_mark_lem 0 (c ∷ name) (replicate n slash ++ path) plain
      ∙ ap (λ m. some (true, m)) (omega arith) in
    let front : take (suc (length name)) ((c ∷ name) ++ tail) ≡ c ∷ name =
      take_name (c ∷ name) tail in
    let back : drop (suc (suc (length name))) ((c ∷ name) ++ tail) ≡ replicate n slash ++ path =
      drop_name (c ∷ name) (replicate n slash ++ path) colon in
    rw marked (rw (front, back, skip_slashes_lem n path relative) refl)
