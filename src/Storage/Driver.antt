-- ===== src/Storage/Driver.antt =====
-- node/storage/driver.go, record_driver.go and oracle_driver.go.
use sum.Prelude.{ℕ, String, ◌≡◌, Option, none, some, arith, refl}
use sum.Prelude.Tests.{Result, ok}
use sum.Proto.{Record, Oracle}

-- The interface by which the index accesses a message.
pub record Driver (M : Type 0) : Type 0 where
  pub make : M
  pub get_id : M → ℕ
  pub set_id : M → ℕ → M
  pub copy : M → M → Result String M

pub record DriverLaws {M : Type 0} (d : Driver M) : Type 0 where
  pub get_id-set_id : (m : M) (id : ℕ) → d.get_id (d.set_id m id) ≡ id
  pub get_id-copy : (dst src out : M) → d.copy dst src ≡ ok out → d.get_id out ≡ d.get_id dst

-- `if src != nil { dst = src }`
filled {ℓ} : {A : Type ℓ} → Option A → Option A → Option A
filled dst none = dst
filled dst (some a) = some a

unfoldable pub copy_record : Record → Record → Record
unfolding filled
copy_record dst src = record dst {
  meta = filled dst.meta src.meta;
  elems = filled dst.elems src.elems;
  shape = filled dst.shape src.shape;
}

abbrev pub record_driver : Driver Record
record_driver = record {
  make = record { id = 0; elems = none; shape = none; meta = none };
  get_id = λ m. m.id;
  set_id = λ m id. record m { id = id };
  copy = λ dst src. ok (copy_record dst src);
}

unfoldable pub copy_oracle : Oracle → Oracle → Oracle
copy_oracle dst src = record dst { name = src.name; code = src.code }

abbrev pub oracle_driver : Driver Oracle
oracle_driver = record {
  make = record { id = 0; name = ""; code = "" };
  get_id = λ m. m.id;
  set_id = λ m id. record m { id = id };
  copy = λ dst src. ok (copy_oracle dst src);
}

copy_record-id :
    (dst src out : Record)
    → ◌≡◌ {A = Result String Record} (ok (copy_record dst src)) (ok out)
    → out.id ≡ dst.id
unfolding copy_record
copy_record-id dst src out e = ground arith

copy_oracle-id :
    (dst src out : Oracle)
    → ◌≡◌ {A = Result String Oracle} (ok (copy_oracle dst src)) (ok out)
    → out.id ≡ dst.id
unfolding copy_oracle
copy_oracle-id dst src out e = ground arith

-- Both drivers set and keep identifiers as the index needs.
pub record_driver-DriverLaws : DriverLaws record_driver
record_driver-DriverLaws = record { get_id-set_id = λ m id. refl; get_id-copy = copy_record-id }

pub oracle_driver-DriverLaws : DriverLaws oracle_driver
oracle_driver-DriverLaws = record { get_id-set_id = λ m id. refl; get_id-copy = copy_oracle-id }
