-- ===== src/Config.antt =====
-- The configuration file: what create_config.c writes, and `get_config` of message_handling.c, which
-- reads it.
mod Tests
use mathlib.Core.List.{reverse-reverse}
use multiplexing_server.Base.{
  ℕ, zero, suc, ◌+◌, ◌-◌, ◌%◌, ◌^◌, ◌≤◌, ◌<◌, ◌≡◌, ◌≢◌, refl, ap, ◌∙◌, true, false, Option, none,
  some, List, [], ◌∷◌, ◌++◌, Outcome, ok, fault, ◌>>=◌, length, length-append, take, drop, ltb,
  lt→ltb, ltb_of_le, take_of_le, if◌then◌else◌, All, arith,
}
use multiplexing_server.Wire.{le_bytes, of_le, bswap, be_bytes, le_bytes_again, le_bytes-bswap}
use multiplexing_server.Response.{c_string}
use multiplexing_server.Response.FileSize.{c_string-append}

-- The fields of `struct sockaddr_in` that the file sets, as the host reads their bytes.
pub record Address : Type 0 where
  pub s_addr : ℕ
  pub sin_port : ℕ

-- The file that `main` of create_config.c writes: `inet_addr("127.0.0.1")`, `htons(port)`, the
-- directory. `port` is what `atoi` makes of the argument.
pub create_config : ℕ → List ℕ → List ℕ
create_config port directory = 127 ∷ 0 ∷ 0 ∷ 1 ∷ (le_bytes 2 (bswap 2 (port % 2 ^ 16)) ++ directory)

-- `none` is a file that cannot be opened, whose size is then not set. An allocation of 2^63 bytes or
-- more fails, and the write through null is a fault. The result has the bytes at `*directory`.
pub get_config : Option (List ℕ) → Outcome (Address × List ℕ)
get_config none = fault
get_config (some file) =
    let size = (length file + 2 ^ 64 - 6) % 2 ^ 64 in
    if ltb size (2 ^ 63)
    then ok (
      record { s_addr = of_le (take 4 file); sin_port = of_le (take 2 (drop 4 file)) },
      take size (drop 6 file) ++ 0 ∷ [],
    )
    else fault

-- What `bind` and the handlers see of it: the bytes of the address and of the port, and the directory.
pub configured : Option (List ℕ) → Outcome (List ℕ × List ℕ × List ℕ)
configured file = do
  r ← get_config file
  directory ← c_string r.1
  ok (le_bytes 4 r.0.s_addr, le_bytes 2 r.0.sin_port, directory)

-- The file that create_config.c writes, for a port of 16 bits and a directory shorter than 2^62
-- without a zero byte, is read back by `get_config`: the address 127.0.0.1, the port in network
-- order, and the directory, as a C string.
pub get_config-create_config :
    (port : ℕ) (directory : List ℕ)
    → port < 2 ^ 16
    → length directory < 2 ^ 62
    → All (λ b. b ≢ 0) directory
    → configured (some (create_config port directory))
      ≡ ok (127 ∷ 0 ∷ 0 ∷ 1 ∷ [], be_bytes 2 port, directory)
unfolding configured get_config create_config
get_config-create_config port directory hp hd hn =
    let size : (suc (suc (suc (suc (suc (suc (length directory)))))) + 2 ^ 64 - 6) % 2 ^ 64
        ≡ length directory =
      omega arith in
    let small : port % 2 ^ 16 ≡ port = omega arith in
    rw size (
      rw (lt→ltb (length directory) (2 ^ 63) (omega arith)) (
        rw (take_of_le (length directory) directory (omega arith)) (
          rw (c_string-append directory [] hn) (
            rw small (
              ap (λ l. ok (127 ∷ 0 ∷ 0 ∷ 1 ∷ [], l, directory))
                (le_bytes_again 2 (bswap 2 port) ∙ le_bytes-bswap 2 port))))))

-- A file of fewer than six bytes makes the computation of the directory's length wrap around.
pub get_config_short : (file : List ℕ) → length file < 6 → get_config (some file) ≡ fault
unfolding get_config
get_config_short file h =
    let wraps : 2 ^ 63 ≤ (length file + 2 ^ 64 - 6) % 2 ^ 64 = omega arith in
    rw (ltb_of_le (2 ^ 63) ((length file + 2 ^ 64 - 6) % 2 ^ 64) wraps) refl
