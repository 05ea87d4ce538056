-- ===== src/Wrapper.antt =====
-- psi/include/psi/shared/ipc/server/MemberFnWrapper.h: a method of a service, made into a function on
-- the bytes of its arguments.
pub mod Unpack
mod Tests
use psi_shared.Base.{
  ℕ, List, [], ◌∷◌, Option, none, some, Bool, true, false, ◌&&◌, if◌then◌else◌, replicate, map,
}
use psi_shared.Protocol.{Ty, trivial, string, vector, Val, Args, Sizes}
use psi_shared.Protocol.Serializer.{Memory}
use psi_shared.Protocol.Deserializer.{deserialize_tuples}
use psi_shared.Callback
use psi_shared.Callback.{Answer, error_none}

-- The two constructors, by the method's type, for a service with state `T`. A method with a callback
-- is seen through what it calls the callback with.
pub data Method (T : Type 0) : Type 0 where
  plain : (ts : List Ty) → (Args ts → T → T) → Method T
  calls_back : (ts rs : List Ty) → (Args ts → T → T × List (Answer rs)) → Method T
  returns : (ts : List Ty) (r : Ty) → (Args ts → T → T × Val r) → Method T

-- The function that each case gives to the method's callback: an array of `DATA_SIZE` zeros, with
-- the serialized answer, and its size, which `cb` then gets.
unfoldable pub pack_answer : ℕ → (rs : List Ty) → Answer rs → Memory × ℕ
pack_answer data_size rs a =
    Callback.serialize rs 0 a.error_code a.error_msg a.args (replicate data_size 0)

-- The arguments, one after the other from the start of the call's data.
unfoldable pub unpack : Sizes → (ts : List Ty) → Memory → Args ts
unpack z ts m = (deserialize_tuples z ts m 0).0

-- `std::is_trivially_copyable` or `std::string`, for every parameter.
abbrev pub no_other : List Ty → Bool
no_other [] = true
no_other (trivial n ∷ ts) = no_other ts
no_other (string ∷ ts) = no_other ts
no_other (vector t ∷ ts) = false

-- `operator()`: the service, and the calls of `cb`. A method that returns a value and has a parameter
-- of another type gets no function at all, so that `std::any_cast` throws: `none`.
module _ (z : Sizes) (data_size : ℕ) {T : Type 0} where
  unfoldable pub invoke : Method T → Memory → T → Option (T × List (Memory × ℕ))
  invoke (plain ts fn) m caller = some (fn (unpack z ts m) caller, [])
  invoke (calls_back ts rs fn) m caller =
      let (caller', answers) = fn (unpack z ts m) caller in
      some (caller', map (pack_answer data_size rs) answers)
  invoke (returns ts r fn) m caller =
      let (caller', v) = fn (unpack z ts m) caller in
      if no_other ts
      then some
          (caller', map (pack_answer data_size (r ∷ [])) (Callback.success (r ∷ []) true (v, tt)))
      else none
