-- ===== src/Startup/Files.antt =====
-- The run on a file, from the start of the file system.
use spctrx.Common.{◌≡◌, ◌∷◌, done, ◌>>=◌, arith}
use spctrx.Memory.Cstring.{IsText}
use spctrx.Vfs.State.{Stale}
use spctrx.Vfs.Path.{IsName}
use spctrx.Vfs.Mount.{vfs_init, AreArrays, vfs_init-IsRoot, vfs_read-vfs_create}
use spctrx.Startup.Defs.{test_name, hello, test_vfs}

test_name-IsText : IsText test_name
test_name-IsText = (
  (λ e. omega (arith, e)),
  omega arith,
  (
    (λ e. omega (arith, e)),
    omega arith,
    ((λ e. omega (arith, e)), omega arith, ((λ e. omega (arith, e)), omega arith, tt)),
  ),
)

test_name-IsName : IsName test_name
test_name-IsName = record {
  plain = (
    (λ e. omega (arith, e)),
    ((λ e. omega (arith, e)), ((λ e. omega (arith, e)), ((λ e. omega (arith, e)), tt))),
  );
  nonempty = omega arith;
  fits = omega arith;
}

-- With arrays of the lengths that the structs have, the run on a file after `vfsInit` reads a zero and then the
-- text that it wrote at offset 1, whatever fresh memory holds.
pub vfs_init-test_vfs :
    (stale : Stale) → AreArrays stale → (vfs_init stale >>= test_vfs stale) ≡ done (14, 0 ∷ hello)
unfolding test_vfs
vfs_init-test_vfs stale a =
    let (s, starts, r) = vfs_init-IsRoot stale a in
    let (s₁, s₂, creates, writes, reads) =
      vfs_read-vfs_create stale s 1 test_name 1 hello r a.names test_name-IsText test_name-IsName
        (omega arith) (omega arith) (omega arith) in
    rw (starts, creates, writes, reads)
