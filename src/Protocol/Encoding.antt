-- ===== src/Protocol/Encoding.antt =====
-- The wire format of psi/include/psi/shared/ipc/protocol/, as a function from values to bytes: a
-- trivially copyable value is its representation, a string its length and bytes, a vector its length
-- and elements, with lengths of eight bytes; a parameter pack is its arguments one after the other.
use psi_shared.Base.{ℕ, ◌/◌, ◌≤◌, ◌<◌, ◌^◌, ◌≡◌, List, [], ◌∷◌, ◌++◌, length, to_bytes, u16_max}
use psi_shared.Protocol.{Ty, trivial, string, vector, Val, Args, Sizes, size_of}

abbrev pub joined {ℓ} : {A : Type ℓ} → (A → List ℕ) → List A → List ℕ
joined f [] = []
joined f (x ∷ xs) = f x ++ joined f xs

unfoldable pub encode : (t : Ty) → Val t → List ℕ
encode (trivial n) v = v
encode string str = to_bytes 8 (length str) ++ str
encode (vector t) xs = to_bytes 8 (length xs) ++ joined (encode t) xs

unfoldable pub encode_args : (ts : List Ty) → Args ts → List ℕ
encode_args [] args = []
encode_args (t ∷ ts) (arg, args) = encode t arg ++ encode_args ts args

abbrev pub All {ℓ κ} : {A : Type ℓ} → (A → Type κ) → List A → Type κ
All P [] = Unit
All P (x ∷ xs) = P x × All P xs

-- A value of a trivially copyable type has the bytes of the type; a vector's size is a size_t.
abbrev pub IsValue : (t : Ty) → Val t → Type 0
IsValue (trivial n) v = length v ≡ n
IsValue string str = Unit {0}
IsValue (vector t) xs = (length xs < 2 ^ 64) × All (IsValue t) xs

abbrev pub AreValues : (ts : List Ty) → Args ts → Type 0
AreValues [] args = Unit {0}
AreValues (t ∷ ts) (arg, args) = IsValue t arg × AreValues ts args

-- A vector is no longer than the guard in `deserializeType` lets through.
abbrev pub IsReadable : Sizes → (t : Ty) → Val t → Type 0
IsReadable z (trivial n) v = length v ≡ n
IsReadable z string str = Unit {0}
IsReadable z (vector t) xs = (length xs ≤ u16_max / size_of z t) × All (IsReadable z t) xs

abbrev pub AreReadable : Sizes → (ts : List Ty) → Args ts → Type 0
AreReadable z [] args = Unit {0}
AreReadable z (t ∷ ts) (arg, args) = IsReadable z t arg × AreReadable z ts args
