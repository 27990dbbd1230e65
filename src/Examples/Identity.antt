-- ===== src/Examples/Identity.antt =====
-- A MongoDB that gives ObjectIDs to its documents.
use database_router.Shared.{
  ℕ, zero, suc, ◌+◌, ◌-◌, ◌*◌, ◌/◌, ◌%◌, ◌^◌, ◌<◌, ◌≡◌, refl, ap, Bool, true, ◌&&◌, ◌||◌, ltb, leb,
  all, All, some, none, Option, [], ◌∷◌, ◌++◌, length, ◌==◌, arith, if◌then◌else◌,
}
use database_router.Shared.Action.{State, Result, ok, err}
use database_router.Text.{Text, codes}
use database_router.Value.{Value, other, Runtime, Fields, field, no_fields, string_value}
use database_router.Fault.{GoError, message}
use database_router.Driver.{Driver}
use database_router.Driver.Calls.{Call}
use database_router.Service.Backends.{new_mongo_service}
use database_router.Server.Mongo.{insert_document, update_document, delete_document}
use database_router.Server.Mongo.Identity.{IsHexDigit, IsObjectId, IsInvalid, inserted_id-IsInvalid}
use database_router.Examples.World.{Keys, driver, runtime, manager, fresh}

abbrev digit : ℕ → ℕ
digit n = if ltb n 10 then 48 + n else 87 + n

abbrev digit_value : ℕ → ℕ
digit_value c = if leb c 57 then c - 48 else c - 87

-- The lowest `k` digits, the last one first.
hex_of : ℕ → ℕ → Text
hex_of zero id = []
hex_of (suc k) id = digit (id % 16) ∷ hex_of k (id / 16)

number_of : Text → ℕ
number_of [] = 0
number_of (c ∷ s) = digit_value c + 16 * number_of s

abbrev is_hex_digit : ℕ → Bool
is_hex_digit c = leb 48 c && leb c 57 || leb 97 c && leb c 102

abbrev invalid : GoError
invalid = message (codes "the provided hex string is not a valid ObjectID")

from_hex : Text → Result GoError ℕ
unfolding number_of
from_hex s = if length s == 24 && all is_hex_digit s then ok (number_of s) else err invalid

abbrev identified : Driver Keys
identified = record driver {
  insert_one = λ ctx h db coll doc w. (ok (other 7), w);
  object_id_from_hex = from_hex;
}

abbrev printed : Value → Text
printed (other id) = codes "ObjectID(\"" ++ (hex_of 24 id ++ codes "\")")
printed v = codes "map[]"

abbrev printing : Runtime
printing = record runtime { sprint = printed }

length-hex_of : (k id : ℕ) → length (hex_of k id) ≡ k
unfolding hex_of
length-hex_of zero id = refl
length-hex_of (suc k) id = ap suc (length-hex_of k (id / 16))

IsHexDigit-digit : (n : ℕ) → n < 16 → IsHexDigit (digit n)
IsHexDigit-digit n h = ground arith

digits-hex_of : (k id : ℕ) → All IsHexDigit (hex_of k id)
unfolding hex_of
digits-hex_of zero id = tt
digits-hex_of (suc k) id = (IsHexDigit-digit (id % 16) (omega arith), digits-hex_of k (id / 16))

all_hex : (k id : ℕ) → all is_hex_digit (hex_of k id) ≡ true
unfolding hex_of
all_hex zero id = refl
all_hex (suc k) id =
    let low : id % 16 < 16 = omega arith in ground (arith, all_hex k (id / 16), low)

digit_value-digit : (n : ℕ) → n < 16 → digit_value (digit n) ≡ n
digit_value-digit n h = ground arith

number_of-hex_of : (k id : ℕ) → id < 16 ^ k → number_of (hex_of k id) ≡ id
unfolding number_of hex_of
number_of-hex_of zero id h = omega arith
number_of-hex_of (suc k) id h =
    let power : 16 ^ suc k ≡ 16 * 16 ^ k = omega arith in
    let rest = number_of-hex_of k (id / 16) (omega (arith, h, power)) in
    let last = digit_value-digit (id % 16) (omega arith) in rw (last, rest) (omega arith)

from_hex-of_digits :
    (s : Text) (id : ℕ)
    → length s ≡ 24
    → all is_hex_digit s ≡ true
    → number_of s ≡ id
    → from_hex s ≡ ok id
unfolding from_hex
from_hex-of_digits s id full hex value = rw (full, hex, value) refl

-- An ObjectID is a number of 12 bytes.
abbrev IsId : ℕ → Type 0
IsId id = id < 16 ^ 24

identified-IsObjectId : IsObjectId identified printing IsId
unfolding from_hex
identified-IsObjectId = record {
  hex = hex_of 24;
  length-hex = λ id h. length-hex_of 24 id;
  digits = λ id h. digits-hex_of 24 id;
  printed = λ id h. refl;
  read = λ id h.
      from_hex-of_digits (hex_of 24 id) id (length-hex_of 24 id) (all_hex 24 id)
        (number_of-hex_of 24 id h);
  refused = λ s h. (invalid, ground (arith, h));
}

abbrev document : Option Fields
document = some (field (codes "name") (string_value (codes "ann")) no_fields)

inserted_id-IsInvalid_example :
    (text : Text) × ((insert_document printing
        (new_mongo_service identified printing manager)
        none
        (codes "shop")
        (codes "carts")
        document
        fresh).0
      ≡ ok (record { database = codes "shop"; collection = codes "carts"; inserted_id = text }))
    × ((update : Option Fields)
        → IsInvalid (
            update_document printing
              (new_mongo_service identified printing manager)
              none
              (codes "shop")
              (codes "carts")
              text
              update))
    × IsInvalid (
        delete_document printing
          (new_mongo_service identified printing manager)
          none
          (codes "shop")
          (codes "carts")
          text)
    × ((t : State Keys Call)
        → (delete_document printing
            (new_mongo_service identified printing manager)
            none
            (codes "shop")
            (codes "carts")
            (identified-IsObjectId.hex 7)
            t).1.calls
          ≡ Call.delete_one (some 5) 2 (codes "shop") (codes "carts") 7 ∷ t.calls)
inserted_id-IsInvalid_example =
    inserted_id-IsInvalid identified printing manager none IsId identified-IsObjectId (codes "shop")
      (codes "carts") document 2 7 fresh (omega arith) refl refl
