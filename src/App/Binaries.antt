-- ===== src/App/Binaries.antt =====
-- resolveBootstrapBinaries of internal/app/remote.go: the local binaries that are uploaded.
use contextq_server.Prelude.{
  ◌≡◌, refl, Bool-cases, inl, inr, true, ◌&&◌, &&_parts, List, [], ◌∷◌, ◌++◌, Option, none, some,
  if◌then◌else◌, Result, ok, err, ◌>>=◌, >>=_inv, Text, codes, same, same_iff,
}
use contextq_server.Strings.{join}
use contextq_server.Paths.{clean, path_dir}
use contextq_server.Target.File.{Env, abs_path}
use contextq_server.Remote.Binary.{ElfError, linux_binary_arch, has_arch, first_matching_binary}
use contextq_server.App.{
  Surroundings, AppError, no_executable, no_server, no_contextq, bad_binary, os_error, with_error,
}

-- filepath.Join of elements that are not empty
unfoldable pub joined : List Text → Text
unfolding clean join
joined es = clean (join (codes "/") es)

unfoldable pub found_or : AppError → Text → Result AppError Text
unfolding same
found_or e path = if same path [] then err e else ok path

unfoldable pub looked_up : Option Text → List Text
looked_up none = []
looked_up (some path) = path ∷ []

unfoldable pub executable_path : Env → Option Text → Result AppError Text
unfolding abs_path
executable_path env none = err no_executable
executable_path env (some path) = with_error os_error (abs_path env path)

module _ (s : Surroundings) (arch : Text) where
  linux_dir : Text
  linux_dir = codes "linux-" ++ arch

  -- the server's binary: the one that is given, or one that is found
  unfoldable pub server_binary : Text → Text → Result AppError Text
  unfolding joined found_or path_dir linux_dir same first_matching_binary
  server_binary executable given =
      let dir = path_dir executable in
      if same given []
      then found_or no_server (
          first_matching_binary s.binaries arch (
            joined (dir ∷ linux_dir ∷ codes "contextq-server" ∷ [])
            ∷ joined (dir ∷ codes ".." ∷ codes "dist" ∷ linux_dir ∷ codes "contextq-server" ∷ [])
            ∷ executable
            ∷ []))
      else ok given

  unfoldable pub contextq_binary : Text → Text → Text → Result AppError Text
  unfolding joined found_or looked_up path_dir linux_dir same first_matching_binary
  contextq_binary executable server given =
      let dir = path_dir executable in
      if same given []
      then found_or no_contextq (
          first_matching_binary s.binaries arch (
            joined (path_dir server ∷ codes "contextq" ∷ [])
            ∷ joined (dir ∷ linux_dir ∷ codes "contextq" ∷ [])
            ∷ joined (dir ∷ codes ".." ∷ codes "dist" ∷ linux_dir ∷ codes "contextq" ∷ [])
            ∷ looked_up s.look_path))
      else ok given

  -- The loop inspects the two binaries in any order; which one is at fault is left out of its error.
  unfoldable pub inspected : Text → Text → Result AppError (Text × Text)
  unfolding linux_binary_arch has_arch
  inspected server contextq =
      if has_arch arch (linux_binary_arch (s.binaries server))
        && has_arch arch (linux_binary_arch (s.binaries contextq))
      then ok (server, contextq)
      else err bad_binary

  unfoldable pub resolve_bootstrap_binaries : Text → Text → Result AppError (Text × Text)
  unfolding executable_path server_binary contextq_binary abs_path inspected
  resolve_bootstrap_binaries server_path contextq_path =
      executable_path s.env s.executable >>= λ executable.
      server_binary executable server_path >>= λ server.
      with_error os_error (abs_path s.env server) >>= λ server'.
      contextq_binary executable server' contextq_path >>= λ contextq.
      with_error os_error (abs_path s.env contextq) >>= λ contextq'. inspected server' contextq'

  has_arch_inv : (r : Result ElfError Text) → has_arch arch r ≡ true → r ≡ ok arch
  unfolding has_arch
  has_arch_inv (ok a) h = let e : a ≡ arch = (same_iff a arch).0 h in rw e refl
  has_arch_inv (err e) h = cc

  inspected_inv :
      (server contextq : Text) {b : Text × Text}
      → inspected server contextq ≡ ok b
      → (linux_binary_arch (s.binaries b.0) ≡ ok arch)
        × (linux_binary_arch (s.binaries b.1) ≡ ok arch)
  unfolding inspected
  inspected_inv server contextq {b} h =
      let x = has_arch arch (linux_binary_arch (s.binaries server)) in
      let y = has_arch arch (linux_binary_arch (s.binaries contextq)) in
      elim (Bool-cases (x && y)) [
        | inl e ↦
            let p = &&_parts x y e in
            let q : ok (server, contextq) ≡ ok b = rw e at h in
            let c : (server, contextq) ≡ b = cc q in
            rw (← c) (
              has_arch_inv (linux_binary_arch (s.binaries server)) p.0,
              has_arch_inv (linux_binary_arch (s.binaries contextq)) p.1,
            )
        | inr e ↦ cc (rw e at h)
      ]

  -- Both paths that resolveBootstrapBinaries returns, whether they were given or found, name Linux
  -- binaries of the architecture.
  pub resolve_bootstrap_binaries_lem :
      (server_path contextq_path : Text) (b : Text × Text)
      → resolve_bootstrap_binaries server_path contextq_path ≡ ok b
      → (linux_binary_arch (s.binaries b.0) ≡ ok arch)
        × (linux_binary_arch (s.binaries b.1) ≡ ok arch)
  unfolding resolve_bootstrap_binaries
  resolve_bootstrap_binaries_lem server_path contextq_path b h =
      let h1 = >>=_inv (executable_path s.env s.executable) _ h in
      let h2 = >>=_inv (server_binary (h1.0) server_path) _ (h1.2) in
      let h3 = >>=_inv (with_error os_error (abs_path s.env (h2.0))) _ (h2.2) in
      let h4 = >>=_inv (contextq_binary (h1.0) (h3.0) contextq_path) _ (h3.2) in
      let h5 = >>=_inv (with_error os_error (abs_path s.env (h4.0))) _ (h4.2) in
      inspected_inv (h3.0) (h5.0) (h5.2)
