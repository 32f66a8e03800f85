-- ===== src/Fingerprint/AuthToken.antt =====
-- biometrics/fingerprint/aidl/include/Legacy2Aidl.h: hardware authentication tokens of the AIDL
-- interface and of the legacy HAL. The byte order conversions are the C library's: `ByteOrder`.
use hardware_voltage_interfa.Base.{ℕ, ◌≡◌, refl, ap, List, [], ◌∷◌, ◌++◌, length, arith}

pub record HardwareAuthToken : Type 0 where
  pub challenge : ℕ
  pub user_id : ℕ
  pub authenticator_id : ℕ
  pub authenticator_type : ℕ
  pub time_stamp : ℕ
  pub mac : List ℕ

-- `hw_auth_token_t`; `hmac` is an array.
pub record HwAuthToken : Type 0 where
  pub challenge : ℕ
  pub user_id : ℕ
  pub authenticator_id : ℕ
  pub authenticator_type : ℕ
  pub time_stamp : ℕ
  pub hmac : List ℕ

-- `be32toh` undoes `htobe32`, and `be64toh` undoes `htobe64`.
pub record ByteOrder : Type 0 where
  pub htobe32 : ℕ → ℕ
  pub be32toh : ℕ → ℕ
  pub htobe64 : ℕ → ℕ
  pub be64toh : ℕ → ℕ
  pub be32toh-htobe32 : (n : ℕ) → be32toh (htobe32 n) ≡ n
  pub be64toh-htobe64 : (n : ℕ) → be64toh (htobe64 n) ≡ n

-- `std::copy(mac.begin(), mac.end(), hmac)`: what the array held behind the copy stays. A `mac` that
-- is longer than the array, where C++ leaves the copy undefined, is cut off.
unfoldable pub copy_over : List ℕ → List ℕ → List ℕ
copy_over [] old = old
copy_over (b ∷ bs) [] = []
copy_over (b ∷ bs) (o ∷ old) = b ∷ copy_over bs old

module _ (bo : ByteOrder) where
  open bo use {htobe32, be32toh, htobe64, be64toh, be32toh-htobe32, be64toh-htobe64}

  -- Into a token whose array holds `old`.
  unfoldable pub to_legacy : HardwareAuthToken → List ℕ → HwAuthToken
  unfolding copy_over
  to_legacy t old = record {
    challenge = t.challenge;
    user_id = t.user_id;
    authenticator_id = t.authenticator_id;
    authenticator_type = htobe32 t.authenticator_type;
    time_stamp = htobe64 t.time_stamp;
    hmac = copy_over t.mac old;
  }

  -- Into a fresh token, whose `mac` is empty.
  unfoldable pub of_legacy : HwAuthToken → HardwareAuthToken
  of_legacy h = record {
    challenge = h.challenge;
    user_id = h.user_id;
    authenticator_id = h.authenticator_id;
    authenticator_type = be32toh h.authenticator_type;
    time_stamp = be64toh h.time_stamp;
    mac = h.hmac ++ [];
  }

append-copy_over : (bs old : List ℕ) → length bs ≡ length old → copy_over bs old ++ [] ≡ bs
unfolding copy_over
append-copy_over [] [] e = refl
append-copy_over [] (o ∷ old) e = absurd (omega arith)
append-copy_over (b ∷ bs) [] e = absurd (omega arith)
append-copy_over (b ∷ bs) (o ∷ old) e = ap (◌∷◌ b) (append-copy_over bs old (omega arith))

-- A token survives the way to the legacy form and back, whatever the array held before, if its
-- `mac` has the array's length.
pub of_legacy-to_legacy :
    (bo : ByteOrder) (t : HardwareAuthToken) (old : List ℕ)
    → length t.mac ≡ length old
    → of_legacy bo (to_legacy bo t old) ≡ t
unfolding of_legacy to_legacy
of_legacy-to_legacy bo t old e = λ i. record {
  challenge = t.challenge;
  user_id = t.user_id;
  authenticator_id = t.authenticator_id;
  authenticator_type = bo.be32toh-htobe32 t.authenticator_type i;
  time_stamp = bo.be64toh-htobe64 t.time_stamp i;
  mac = append-copy_over t.mac old e i;
}
