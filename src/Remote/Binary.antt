-- ===== src/Remote/Binary.antt =====
-- detectRemoteArch, linuxBinaryArch, firstMatchingBinary and keyID of internal/app/remote.go.
pub mod Match
use contextq_server.Prelude.{
  ℕ, ◌+◌, ◌*◌, Bool, true, false, not, ◌&&◌, ◌||◌, List, [], ◌∷◌, ◌++◌, Option, none, some,
  if◌then◌else◌, ltb, ◌==◌, length, Result, ok, err, Text, Bytes, codes, same, take, drop,
}
use contextq_server.Strings.{trim_space, split_more}
use contextq_server.Target.Data.{Target}
use contextq_server.Remote.Ssh.{
  Executor, Outcome, RemoteError, detection_failed, unsupported_architecture, run_ssh,
}

-- the `switch` on the answer of `uname -m`
unfoldable pub arch_of_machine : Text → Option Text
unfolding same
arch_of_machine machine =
    if same machine (codes "x86_64") || same machine (codes "amd64")
    then some (codes "amd64")
    else if same machine (codes "aarch64") || same machine (codes "arm64")
    then some (codes "arm64")
    else none

unfoldable pub detected : Outcome → Result RemoteError Text
unfolding arch_of_machine trim_space
detected r =
    if r.failed
    then err (detection_failed (trim_space r.stderr))
    else elim (arch_of_machine (trim_space r.stdout)) [
      | none ↦ err (unsupported_architecture (trim_space r.stdout))
      | some arch ↦ ok arch
    ]

-- detectRemoteArch. The answer's bytes are taken as its characters.
unfoldable pub detect_remote_arch : Executor → Target → Result RemoteError Text
unfolding detected run_ssh
detect_remote_arch executor t = detected (run_ssh executor t (codes "uname -m") none)

pub data ElfError : Type 0 where
  unreadable not_elf bad_byte_order unsupported_machine : ElfError

-- the `switch` on the machine
unfoldable pub machine_arch : ℕ → Result ElfError Text
machine_arch m =
    if m == 62
    then ok (codes "amd64")
    else if m == 183
    then ok (codes "arm64")
    else err unsupported_machine

-- The tests on the 20 bytes that linuxBinaryArch reads.
unfoldable pub header_arch : Bytes → Result ElfError Text
unfolding same machine_arch
header_arch
      (b0 ∷ b1 ∷ b2 ∷ b3 ∷ b4 ∷ b5 ∷ b6 ∷ b7 ∷ b8 ∷ b9 ∷ b10 ∷ b11 ∷ b12 ∷ b13 ∷ b14 ∷ b15 ∷ b16
        ∷ b17 ∷ b18 ∷ b19 ∷ []) =
    if not (same (b0 ∷ b1 ∷ b2 ∷ b3 ∷ []) (0x7f ∷ codes "ELF"))
    then err not_elf
    else if b5 == 1
    then machine_arch (b18 + 256 * b19)
    else if b5 == 2
    then machine_arch (256 * b18 + b19)
    else err bad_byte_order
header_arch _ = err unreadable

-- linuxBinaryArch of a file's content, if the file can be opened
unfoldable pub linux_binary_arch : Option Bytes → Result ElfError Text
unfolding header_arch
linux_binary_arch none = err unreadable
linux_binary_arch (some content) = header_arch (take 20 content)

unfoldable pub has_arch : Text → Result ElfError Text → Bool
unfolding same
has_arch arch (ok a) = same a arch
has_arch arch (err e) = false

-- firstMatchingBinary, which returns the empty path if there is none
unfoldable pub first_matching_binary : (Text → Option Bytes) → Text → List Text → Text
unfolding linux_binary_arch has_arch
first_matching_binary files arch [] = []
first_matching_binary files arch (c ∷ cs) =
    let rest = first_matching_binary files arch cs in
    if has_arch arch (linux_binary_arch (files c)) then c else rest

-- keyID of the client, which returns the empty text for a token of another form
client_id_of_parts : List Text → Text
unfolding same
client_id_of_parts (p0 ∷ p1 ∷ p2 ∷ p3 ∷ []) =
    if not (same p0 (codes "cqk")) || not (same p1 (codes "k")) then [] else codes "k_" ++ p2
client_id_of_parts _ = []

unfoldable pub client_key_id : Text → Text
unfolding client_id_of_parts split_more
client_key_id token = client_id_of_parts (split_more b'_' 3 token)
