-- ===== src/Vfs.antt =====
-- kern/fs/vfs/vfslookup.c: where the lookup of a path starts. A path is its characters before the
-- terminator; the vnodes are without counts here.
pub mod Paths
pub mod Devices
pub mod Vnode
pub mod Calls
pub mod Balance
pub mod Counts
pub mod References
pub mod Drops
pub mod Curdir
pub mod Device
pub mod Keeping
use mips_os.Common.{
  ℕ, zero, suc, ◌+◌, Bool, true, false, Option, none, some, List, [], ◌∷◌, take, drop, ◌==◌,
  if◌then◌else◌, Outcome, ok, panic, ◌>>=◌, einval, enoent,
}
use mips_os.Copy.{Reply, fails, returns}

-- the characters `:` and `/`
abbrev pub colon : ℕ
colon = 58

abbrev pub slash : ℕ
slash = 47

-- The vnodes to start from: the current directory, the root of a device, the root of the boot file
-- system (`none` for NULL), and the root of the file system of a vnode (`none` where it has none).
pub record Starts (V : Type 0) : Type 0 where
  pub getcurdir : Reply V
  pub getroot : List ℕ → Reply V
  pub bootfs : Option V
  pub fs_root : V → Option V

-- The first colon (`true`) or slash (`false`), and its index; the path is read from index `i` on.
unfoldable pub first_mark : (i : ℕ) → List ℕ → Option (Bool × ℕ)
first_mark i [] = none
first_mark i (c ∷ path) =
    let rest = first_mark (i + 1) path in
    if c == colon then some (true, i) else if c == slash then some (false, i) else rest

-- `while (path[1] == '/') path++;`
unfoldable pub skip_slashes : List ℕ → List ℕ
skip_slashes [] = []
skip_slashes (c ∷ path) = let rest = skip_slashes path in if c == slash then rest else c ∷ path

-- The start of a path with a leading colon, whose file system is asserted to exist.
unfoldable pub from_curdir : {V : Type 0} → Starts V → Reply V → Outcome (Reply V)
from_curdir starts (fails e) = ok (fails e)
from_curdir starts (returns vn) = elim (starts.fs_root vn) [
  | none ↦ panic
  | some root ↦ ok (returns root)
]

-- the start and `*subpath`
unfoldable pub start_at :
    {V : Type 0} → Starts V → List ℕ → Option (Bool × ℕ) → Outcome (Reply V × List ℕ)
start_at starts path none = ok (starts.getcurdir, path)
start_at starts path (some (true, zero)) =
    from_curdir starts starts.getcurdir >>= λ r. ok (r, skip_slashes (drop 1 path))
start_at starts path (some (true, suc i)) =
    ok (starts.getroot (take (suc i) path), skip_slashes (drop (suc (suc i)) path))
start_at starts path (some (false, zero)) = ok (
  (elim starts.bootfs [ none ↦ fails enoent | some vn ↦ returns vn ]),
  skip_slashes (drop 1 path),
)
start_at starts path (some (false, suc i)) = ok (starts.getcurdir, path)

unfoldable pub getdevice : {V : Type 0} → Starts V → List ℕ → Outcome (Reply V × List ℕ)
getdevice starts path = start_at starts path (first_mark 0 path)

-- `lookup` is `VOP_LOOKUP`, and `VOP_LOOKPARENT` below.
unfoldable pub vfs_lookup :
    {V : Type 0} → Starts V → (lookup : V → List ℕ → Reply V) → List ℕ → Outcome (Reply V)
vfs_lookup starts lookup path = getdevice starts path >>= λ r. ok (elim r.0 [
  | fails e ↦ fails e
  | returns vn ↦ elim r.1 [ [] ↦ returns vn | c ∷ rest ↦ lookup vn (c ∷ rest) ]
])

unfoldable pub vfs_lookparent :
    {V : Type 0}
    → Starts V
    → (lookparent : V → List ℕ → Reply (V × List ℕ)) → List ℕ
    → Outcome (Reply (V × List ℕ))
vfs_lookparent starts lookparent path = getdevice starts path >>= λ r. ok (elim r.0 [
  | fails e ↦ fails e
  | returns vn ↦ elim r.1 [ [] ↦ fails einval | c ∷ rest ↦ lookparent vn (c ∷ rest) ]
])
