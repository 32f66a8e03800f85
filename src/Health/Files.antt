-- ===== src/Health/Files.antt =====
-- health/aidl/default: what the services use of files and of numbers in text. Both are libraries', so
-- they are the parameters `Files` and `Numbers`; a theorem that needs their documented behaviour
-- takes it as a hypothesis.
use Prim.Native.String.{String}
use hardware_voltage_interfa.Base.{◌≡◌, ◌≢◌, Bool, true, Option, some}
use hardware_voltage_interfa.Base.Int.{ℤ, pos, negsuc, ◌≤ℤ◌}

-- What a binder method answers: a value, one of two exceptions of the interface, or a C++ exception
-- that nothing catches.
pub data Result {ℓ} (A : Type ℓ) : Type ℓ where
  ok : A → Result A
  unsupported_operation : Result A
  illegal_state : Result A
  uncaught : Result A

abbrev pub Done : Type 0
Done = Result (Unit {0})

-- `ReadFileToString` and `WriteStringToFile`, over the state `W` of the device.
pub record Files (W : Type 0) : Type 0 where
  pub read : String → W → Option String
  pub write : String → String → W → W × Bool

-- `Trim`, `std::to_string` and `std::stoll`, which throws where it answers `none`.
pub record Numbers : Type 0 where
  pub trim : String → String
  pub to_string : ℤ → String
  pub stoll : String → Option ℤ

-- An integer of 64 bits.
unfoldable pub IsLong : ℤ → Type 0
IsLong n = (negsuc 9223372036854775807 ≤ℤ n) × (n ≤ℤ pos 9223372036854775807)

-- A node answers what was written to it last but for the blanks round it, as nodes of the kernel end
-- with a line break, and leaves the other nodes alone. What `std::to_string` prints for a
-- `long long` has no blanks round it, and `std::stoll` reads it as that number; `std::stoll` skips
-- blanks in front of a number and ignores what follows it.
pub record AreFaithful {W : Type 0} (files : Files W) (numbers : Numbers) : Type 0 where
  pub read-write :
      (p v : String) (w : W)
      → (files.write p v w).1 ≡ true
      → (content : String) × (files.read p (files.write p v w).0 ≡ some content)
        × (numbers.trim content ≡ numbers.trim v)
  pub read-write_ne :
      (p q v : String) (w : W) → p ≢ q → files.read q (files.write p v w).0 ≡ files.read q w
  pub stoll-to_string : (n : ℤ) → IsLong n → numbers.stoll (numbers.to_string n) ≡ some n
  pub stoll-trim : (s : String) → numbers.stoll (numbers.trim s) ≡ numbers.stoll s
  pub trim-to_string : (n : ℤ) → numbers.trim (numbers.to_string n) ≡ numbers.to_string n
