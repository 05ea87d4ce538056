-- ===== src/Protocol.antt =====
-- psi/include/psi/shared/ipc/protocol/: the types that can be sent, and their values. A value of a
-- trivially copyable type is its object representation.
pub mod Serializer
pub mod Deserializer
pub mod Encoding
pub mod Write
pub mod Read
pub mod Arguments
mod Tests
use psi_shared.Base.{ℕ, List, [], ◌∷◌}

-- A trivially copyable type of so many bytes, `std::string`, and `std::vector<T>`.
pub data Ty : Type 0 where
  trivial : ℕ → Ty
  string : Ty
  vector : Ty → Ty

abbrev pub Val : Ty → Type 0
Val (trivial n) = List ℕ
Val string = List ℕ
Val (vector t) = List (Val t)

-- The values of a parameter pack.
abbrev pub Args : List Ty → Type 0
Args [] = Unit {0}
Args (t ∷ ts) = Val t × Args ts

-- What the standard library and the platform fix: `sizeof(std::string)` and `sizeof(std::vector)`.
pub record Sizes : Type 0 where
  pub string_size : ℕ
  pub vector_size : ℕ

-- `sizeof(T)`
abbrev pub size_of : Sizes → Ty → ℕ
size_of z (trivial n) = n
size_of z string = z.string_size
size_of z (vector t) = z.vector_size

-- `STRING_HEADER_SIZE`, `VECTOR_HEADER_SIZE`
abbrev pub header_size : ℕ
header_size = 8
