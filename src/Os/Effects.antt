-- ===== src/Os/Effects.antt =====
-- What the calls leave of the files.
use contextq_server.Prelude.{◌≡◌, ◌↔◌, true, arith, same_iff}
use contextq_server.Os.{FilePath, same_path}

pub same_path_iff : (p q : FilePath) → (same_path p q ≡ true) ↔ (p ≡ q)
unfolding same_path
same_path_iff p q = (
  (λ h. ground (arith, same_iff p.dir q.dir, same_iff p.base q.base)),
  λ h. ground (arith, same_iff p.dir q.dir, same_iff p.base q.base),
)
