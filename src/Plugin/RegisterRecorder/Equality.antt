-- ===== src/Plugin/RegisterRecorder/Equality.antt =====
-- The derived equality of configurations in plugins/csv-register-recorder/src/internal/context.rs.
use msr.Prelude.{ℕ, ◌≡◌, refl, Bool, true, false, ◌&&◌, List, [], ◌∷◌, ◌==◌, ==_iff}
use msr.Storage.{StorageConfig}
use msr.Value.{ValueType, type_eq}
use msr.Value.Equality.{type_eq_iff}
use msr.Plugin.RegisterRecorder.{
  RegisterGroupConfig, storage_config_eq, registers_eq, group_config_eq,
}

and_both : (a b : Bool) → a && b ≡ true → (a ≡ true) × (b ≡ true)
and_both true b h = (refl, h)
and_both false b h = cc

storage_config_equal : (a b : StorageConfig) → storage_config_eq a b ≡ true → a ≡ b
unfolding storage_config_eq
storage_config_equal a b h =
    let m = a.retention_time.number_of_days == b.retention_time.number_of_days in
    let n =
      a.segmentation.time_interval.number_of_days == b.segmentation.time_interval.number_of_days in
    let (rest, z) =
      and_both (m && n) (a.segmentation.size_limit.bytes == b.segmentation.size_limit.bytes) h in
    let (x, y) = and_both m n rest in
    let e = (==_iff a.retention_time.number_of_days b.retention_time.number_of_days).0 x in
    let f =
      (==_iff a.segmentation.time_interval.number_of_days
          b.segmentation.time_interval.number_of_days).0
        y in
    let g = (==_iff a.segmentation.size_limit.bytes b.segmentation.size_limit.bytes).0 z in
    λ i. record {
      retention_time = record { number_of_days = e i };
      segmentation = record {
        time_interval = record { number_of_days = f i };
        size_limit = record { bytes = g i };
      };
    }

registers_equal : (rs qs : List (ℕ × ValueType)) → registers_eq rs qs ≡ true → rs ≡ qs
unfolding registers_eq
registers_equal [] [] h = refl
registers_equal [] (q ∷ qs) h = cc
registers_equal (r ∷ rs) [] h = cc
registers_equal ((i, t) ∷ rs) ((j, u) ∷ qs) h =
    let (rest, z) = and_both (i == j && type_eq t u) (registers_eq rs qs) h in
    let (x, y) = and_both (i == j) (type_eq t u) rest in
    let e : i ≡ j = (==_iff i j).0 x in
    let f : t ≡ u = (type_eq_iff t u).0 y in
    let g : rs ≡ qs = registers_equal rs qs z in λ k. (e k, f k) ∷ g k

-- Configurations that compare as equal are equal.
pub group_config_equal : (a b : RegisterGroupConfig) → group_config_eq a b ≡ true → a ≡ b
unfolding group_config_eq
group_config_equal a b h =
    let (x, y) =
      and_both (registers_eq a.registers b.registers) (storage_config_eq a.storage b.storage) h in
    let e = registers_equal a.registers b.registers x in
    let f = storage_config_equal a.storage b.storage y in
    λ i. record { registers = e i; storage = f i }
